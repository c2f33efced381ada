-- ===== src/Plugin/Stderr/Text.antt =====
-- What the guest writes to stderr is text: so is every part of it that begins where a line begins and ends
-- where a line ends.
use wasmi_plugin_framework.Base.{
  ◌≡◌, ◌≢◌, refl, sym, ap, ◌∙◌, ◌⊎◌, inl, inr, Bool, true, [], ◌∷◌, ◌++◌, append-nil, append_assoc,
}
use wasmi_plugin_framework.Bytes.{Bytes}
use wasmi_plugin_framework.Plugin.Stderr.{StderrTask}

-- The end of a line.
abbrev pub EndsLine : Bytes → Type 0
EndsLine bs = (front : Bytes) × (bs ≡ front ++ (b'\n' ∷ []))

-- The bytes of `stream` are text by lines; the last line need not end with a newline where the stream
-- is `closed`, and where it is not, it need not be text yet.
abbrev pub IsText : (Bytes → Bool) → Bool → Bytes → Type 0
IsText utf8 closed stream =
    (before part behind : Bytes)
    → stream ≡ before ++ (part ++ behind)
    → part ≢ []
    → (before ≡ []) ⊎ EndsLine before
    → EndsLine part ⊎ ((behind ≡ []) × (closed ≡ true))
    → utf8 part ≡ true

-- What is on its way to the logger.
abbrev pub on_way : StderrTask → Bytes
on_way t = t.line ++ (t.buffered ++ t.pipe.buf)

abbrev pub HasText : (Bytes → Bool) → StderrTask → Type 0
HasText utf8 t = IsText utf8 t.pipe.closed (on_way t)

pub EndsLine-some : (bs : Bytes) → EndsLine bs → bs ≢ []
EndsLine-some bs ([], last) e = cc (last, e)
EndsLine-some bs (b ∷ front, last) e = cc (last, e)

pub EndsLine-append : (xs bs : Bytes) → EndsLine bs → EndsLine (xs ++ bs)
EndsLine-append xs bs (front, last) =
    (xs ++ front, ap (λ x. xs ++ x) last ∙ sym (append_assoc xs front (b'\n' ∷ [])))

module _ (utf8 : Bytes → Bool) where
  pub IsText-first :
      (closed : Bool) (stream line rest : Bytes)
      → IsText utf8 closed stream
      → stream ≡ line ++ rest
      → line ≢ []
      → EndsLine line ⊎ ((rest ≡ []) × (closed ≡ true))
      → utf8 line ≡ true
  IsText-first closed stream line rest text e some_line end =
      text [] line rest e some_line (inl refl) end

  -- Behind a whole line.
  pub IsText-rest :
      (closed : Bool) (stream line rest : Bytes)
      → IsText utf8 closed stream
      → stream ≡ line ++ rest
      → EndsLine line
      → IsText utf8 closed rest
  IsText-rest closed stream line rest text e (front, last) before part behind e' some_part start
        end =
      text (line ++ before) part behind
        (e ∙ ap (λ x. line ++ x) e' ∙ sym (append_assoc line before (part ++ behind))) some_part
        (inr (ends start)) end
    where
      ends : (before ≡ []) ⊎ EndsLine before → EndsLine (line ++ before)
      ends (inl none_before) = (front, rw (none_before) (append-nil line ∙ last))
      ends (inr end') = EndsLine-append line before end'

  -- Behind all of it.
  pub IsText-nil : (closed : Bool) → IsText utf8 closed []
  IsText-nil closed [] [] behind e some_part start end = absurd (some_part refl)
  IsText-nil closed [] (b ∷ part) behind e some_part start end = cc e
  IsText-nil closed (b ∷ before) part behind e some_part start end = cc e

  -- What a read moves from the pipe to the buffer stays on its way.
  pub HasText-read :
      (t t1 : StderrTask)
      → on_way t1 ≡ on_way t
      → t1.pipe.closed ≡ t.pipe.closed
      → HasText utf8 t
      → HasText utf8 t1
  HasText-read t t1 e f text = rw (e, f) text
