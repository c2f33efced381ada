-- ===== src/Plugin/Stderr/Lines.antt =====
-- Nothing that the guest writes to stderr is lost on the way to the logger.
use wasmi_plugin_framework.Base.{
  ℕ, zero, suc, ◌≡◌, refl, sym, ap, ◌∙◌, subst, Bool, true, false, Option, some, List, [], ◌∷◌,
  ◌++◌, is_empty, append-nil, append_assoc, ◌≡⟨◌⟩◌, ◌∎, arith, Bool-cases, inl, inr,
}
use wasmi_plugin_framework.Bytes.{Bytes}
use wasmi_plugin_framework.Io.{IoResult, ok, err}
use wasmi_plugin_framework.Io.Lines.{
  split_line, split_line-append, split_line-none, split_line_last,
}
use wasmi_plugin_framework.Pipe.{Inner, Poll, ready, pending, poll_read}
use wasmi_plugin_framework.Pipe.Polls.{
  poll_read-end, poll_read-bytes, poll_read-pending, poll_read-no_err, poll_read-keeps,
}
use wasmi_plugin_framework.Plugin.Stderr.Text.{
  EndsLine, IsText, on_way, HasText, EndsLine-some, EndsLine-append, IsText-first, IsText-rest,
  IsText-nil, HasText-read,
}
use wasmi_plugin_framework.Plugin.Stderr.{
  StderrTask, logged, unread, buffer_size, end_line, end_stream, after_poll, on_line, poll_stderr,
}

abbrev pub concat : List Bytes → Bytes
concat [] = []
concat (l ∷ ls) = l ++ concat ls

concat-append : (ls : List Bytes) (l : Bytes) → concat (ls ++ (l ∷ [])) ≡ concat ls ++ l
concat-append [] l = append-nil l
concat-append (k ∷ ls) l = rw (concat-append ls l, append_assoc) refl

-- All that the task has been given: what was logged, and what is on its way.
abbrev pub heard : StderrTask → Bytes
heard t = concat t.log ++ (t.line ++ (t.buffered ++ t.pipe.buf))

-- A line that is logged stays part of what was heard.
heard-logged :
    (t : StderrTask) (full rest : Bytes)
    → t.line ++ t.buffered ≡ full ++ rest
    → heard (logged full (record t { buffered = rest })) ≡ heard t
heard-logged t full rest e =
    concat (t.log ++ (full ∷ [])) ++ (rest ++ t.pipe.buf)
    ≡⟨ ap (λ x. x ++ (rest ++ t.pipe.buf)) (concat-append t.log full) ⟩
      (concat t.log ++ full) ++ (rest ++ t.pipe.buf)
    ≡⟨ append_assoc (concat t.log) full (rest ++ t.pipe.buf) ⟩
      concat t.log ++ (full ++ (rest ++ t.pipe.buf))
    ≡⟨ ap (λ x. concat t.log ++ x) (sym (append_assoc full rest t.pipe.buf)) ⟩
      concat t.log ++ ((full ++ rest) ++ t.pipe.buf)
    ≡⟨ ap (λ x. concat t.log ++ (x ++ t.pipe.buf)) (sym e) ⟩
      concat t.log ++ ((t.line ++ t.buffered) ++ t.pipe.buf)
    ≡⟨ ap (λ x. concat t.log ++ x) (append_assoc t.line t.buffered t.pipe.buf) ⟩ heard t ∎

-- So do the bytes that a read takes from the pipe.
heard-read :
    (t : StderrTask) (new : Bytes) (pipe' : Inner)
    → t.pipe.buf ≡ new ++ pipe'.buf
    → heard (record t { line = unread t; buffered = new; pipe = pipe' }) ≡ heard t
heard-read t new pipe' e =
    ap (λ x. concat t.log ++ x)
      (append_assoc t.line t.buffered (new ++ pipe'.buf)
        ∙ ap (λ x. t.line ++ (t.buffered ++ x)) (sym e))

IsEmpty-nil : (xs : Bytes) → is_empty xs ≡ true → xs ≡ []
IsEmpty-nil [] h = refl
IsEmpty-nil (x ∷ xs) h = cc h

-- A poll of the task lost nothing; if it was the last, nothing is left on the way.
pub record HasPolled (t : StderrTask) (done : Bool) (t' : StderrTask) : Type 0 where
  pub same : heard t' ≡ heard t
  pub ended : done ≡ true → (concat t'.log ≡ heard t) × (t'.pipe.closed ≡ true)

-- The task after a first part of the poll that lost nothing.
HasPolled-after :
    (t t1 t' : StderrTask) (done : Bool)
    → heard t1 ≡ heard t
    → HasPolled t1 done t'
    → HasPolled t done t'
HasPolled-after t t1 t' done e p = record {
  same = p.same ∙ e;
  ended = λ d. ((p.ended d).0 ∙ e, (p.ended d).1);
}

module _ (utf8 : Bytes → Bool) (cx : ℕ) where
  abbrev Again : (StderrTask → Option (Bool × StderrTask)) → Type 0
  Again again =
      (t t' : StderrTask) (done : Bool)
      → HasText utf8 t
      → again t ≡ some (done, t')
      → HasPolled t done t'

  end_line-HasPolled :
      (again : StderrTask → Option (Bool × StderrTask))
      → Again again
      → (full : Bytes) (t t' : StderrTask) (done : Bool) → utf8 full ≡ true
      → HasText utf8 (logged full t)
      → end_line utf8 cx again full t ≡ some (done, t')
      → HasPolled (logged full t) done t'
  end_line-HasPolled again ih full t t' done ok_line text h =
      ih (logged full t) t' done text (rw (ok_line) at h)

  -- The task at the end of the stream, all of which is in the line.
  end_stream-HasPolled :
      (again : StderrTask → Option (Bool × StderrTask))
      → Again again
      → (t t' : StderrTask) (done : Bool) → t.buffered ≡ []
      → t.pipe.buf ≡ []
      → t.pipe.closed ≡ true
      → HasText utf8 t
      → end_stream utf8 cx again t ≡ some (done, t')
      → HasPolled t done t'
  end_stream-HasPolled again ih t t' done eb ep ec text h = elim (Bool-cases (is_empty t.line)) [
    | inl none_left ↦
        let same : t ≡ t' = cc (rw (none_left) at h) in
        subst (λ x. HasPolled t done x) same
          (record { same = refl; ended = λ d. (sym (at_rest (IsEmpty-nil t.line none_left)), ec) })
    | inr last ↦
        HasPolled-after t (logged t.line t) t' done (heard-logged t t.line t.buffered refl) (
          end_line-HasPolled again ih t.line t t' done (last_text last)
            (subst (λ x. IsText utf8 t.pipe.closed x) (sym nothing) (IsText-nil utf8 t.pipe.closed))
            (rw (last) at h))
  ]
    where
      at_rest : t.line ≡ [] → heard t ≡ concat t.log
      at_rest el = rw (el, eb, ep) (append-nil (concat t.log))

      nothing : t.buffered ++ t.pipe.buf ≡ []
      nothing = rw (eb, ep) refl

      last_text : is_empty t.line ≡ false → utf8 t.line ≡ true
      last_text some_line =
          IsText-first utf8 t.pipe.closed (on_way t) t.line [] text (ap (λ x. t.line ++ x) nothing)
            (λ e. let was : is_empty t.line ≡ true = ap (λ x. is_empty x) e in cc (was, some_line))
            (inr (refl, ec))

  on_line-HasPolled :
      (again : StderrTask → Option (Bool × StderrTask))
      → Again again
      → (t t' : StderrTask) (done found : Bool) (head rest : Bytes) → head ++ rest ≡ t.buffered
      → (found ≡ false → rest ≡ [])
      → (found ≡ true → EndsLine head)
      → HasText utf8 t
      → on_line utf8 cx again found head rest t ≡ some (done, t')
      → HasPolled t done t'
  on_line-HasPolled again ih t t' done true head rest e none_left last text h =
      HasPolled-after t (logged (t.line ++ head) (record t { buffered = rest })) t' done
        (heard-logged t (t.line ++ head) rest
          (ap (λ x. t.line ++ x) (sym e) ∙ sym (append_assoc t.line head rest)))
        (end_line-HasPolled again ih (t.line ++ head) (record t { buffered = rest }) t' done
          (IsText-first utf8 t.pipe.closed (on_way t) (t.line ++ head) (rest ++ t.pipe.buf) text
            whole (EndsLine-some (t.line ++ head) ended) (inl ended))
          (IsText-rest utf8 t.pipe.closed (on_way t) (t.line ++ head) (rest ++ t.pipe.buf) text
            whole ended)
          h)
    where
      ended : EndsLine (t.line ++ head)
      ended = EndsLine-append t.line head (last refl)

      whole : on_way t ≡ (t.line ++ head) ++ (rest ++ t.pipe.buf)
      whole =
          ap (λ x. t.line ++ (x ++ t.pipe.buf)) (sym e)
          ∙ ap (λ x. t.line ++ x) (append_assoc head rest t.pipe.buf)
          ∙ sym (append_assoc t.line head (rest ++ t.pipe.buf))
  on_line-HasPolled again ih t t' done false head rest e none_left last text h =
      polled (poll_read t.pipe cx buffer_size).0 (poll_read t.pipe cx buffer_size).1 refl h
    where
      reads_on :
          (new : Bytes) (pipe' : Inner)
          → t.pipe.buf ≡ new ++ pipe'.buf
          → pipe'.closed ≡ t.pipe.closed
          → HasText utf8 (record t { line = unread t; buffered = new; pipe = pipe' })
      reads_on new pipe' moved same =
          HasText-read utf8 t (record t { line = unread t; buffered = new; pipe = pipe' })
            (append_assoc t.line t.buffered (new ++ pipe'.buf)
              ∙ ap (λ x. t.line ++ (t.buffered ++ x)) (sym moved))
            same text

      polled :
          (r : Poll (IoResult Bytes)) (pipe' : Inner)
          → poll_read t.pipe cx buffer_size ≡ (r, pipe')
          → after_poll utf8 cx again r (record t { line = unread t; buffered = []; pipe = pipe' })
            ≡ some (done, t')
          → HasPolled t done t'
      polled pending pipe' q k =
          let same : record t { line = unread t; buffered = []; pipe = pipe' } ≡ t' = cc k in
          let busy : done ≡ false = cc k in
          record {
            same =
                ap heard (sym same)
                ∙ heard-read t [] pipe' (sym (poll_read-pending t.pipe pipe' cx buffer_size q));
            ended = λ d. cc (busy, d);
          }
      polled (ready (ok [])) pipe' q k =
          let (was, now, shut) = poll_read-end t.pipe pipe' cx buffer_size (omega arith) q in
          let t1 : StderrTask = record t { line = unread t; buffered = []; pipe = pipe' } in
          HasPolled-after t t1 t' done (heard-read t [] pipe' (was ∙ sym now)) (
            end_stream-HasPolled again ih t1 t' done refl now shut
              (reads_on [] pipe' (was ∙ sym now) (poll_read-keeps t.pipe pipe' cx buffer_size _ q))
              k)
      polled (ready (ok (b ∷ bs))) pipe' q k =
          let t1 : StderrTask = record t { line = unread t; buffered = b ∷ bs; pipe = pipe' } in
          HasPolled-after t t1 t' done
            (heard-read t (b ∷ bs) pipe' (poll_read-bytes t.pipe pipe' cx buffer_size b bs q))
            (ih t1 t' done
              (reads_on (b ∷ bs) pipe' (poll_read-bytes t.pipe pipe' cx buffer_size b bs q)
                (poll_read-keeps t.pipe pipe' cx buffer_size _ q))
              k)
      polled (ready (err x)) pipe' q k = absurd (poll_read-no_err t.pipe pipe' cx buffer_size x q)

  pub poll_stderr-HasPolled : (fuel : ℕ) → Again (poll_stderr utf8 cx fuel)
  unfolding poll_stderr
  poll_stderr-HasPolled zero t t' done text h = cc h
  poll_stderr-HasPolled (suc fuel) t t' done text h =
      on_line-HasPolled (poll_stderr utf8 cx fuel) (poll_stderr-HasPolled fuel) t t' done
        (split_line t.buffered).2 (split_line t.buffered).0 (split_line t.buffered).1
        (split_line-append t.buffered) (λ f. (split_line-none t.buffered f).1)
        (split_line_last t.buffered) text h
