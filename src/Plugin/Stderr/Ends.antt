-- ===== src/Plugin/Stderr/Ends.antt =====
-- Each poll of the stderr task ends.
use wasmi_plugin_framework.Base.{
  ℕ, zero, suc, ◌+◌, ◌*◌, ◌≤◌, ◌<◌, ◌≡◌, refl, ap, min, Bool, true, false, Option, some, [], ◌∷◌,
  ◌++◌, is_empty, length, length-append, arith, Bool-cases, inl, inr,
}
use wasmi_plugin_framework.Bytes.{Bytes}
use wasmi_plugin_framework.Io.{IoResult, ok, err}
use wasmi_plugin_framework.Io.Lines.{split_line, length-split_line}
use wasmi_plugin_framework.Pipe.{Inner, Poll, ready, pending, poll_read}
use wasmi_plugin_framework.Pipe.Polls.{poll_read-end, poll_read-bytes, poll_read-no_err}
use wasmi_plugin_framework.Plugin.Stderr.{
  StderrTask, logged, unread, buffer_size, end_line, end_stream, after_poll, on_line, poll_stderr,
}
use wasmi_plugin_framework.Plugin.Stderr.Text.{HasText}
use wasmi_plugin_framework.Plugin.Stderr.Lines.{HasPolled, poll_stderr-HasPolled}

-- What the rounds of a poll use up: a byte of the pipe is buffered first, and then part of a line.
abbrev pub work : StderrTask → ℕ
work t = 3 * length t.pipe.buf + length t.buffered + min 1 (length t.line)

length-not_empty : (xs : Bytes) → is_empty xs ≡ false → 0 < length xs
length-not_empty [] h = cc h
length-not_empty (x ∷ xs) h = omega arith

abbrev Ends : Option (Bool × StderrTask) → Type 0
Ends o = (done : Bool) × (t' : StderrTask) × (o ≡ some (done, t'))

module _ (utf8 : Bytes → Bool) (cx : ℕ) where
  module _ (again : StderrTask → Option (Bool × StderrTask)) (most : ℕ)
      (ih : (t : StderrTask) → work t < most → Ends (again t)) where
    end_line-Ends :
        (full : Bytes) (t : StderrTask)
        → work (logged full t) < most
        → Ends (end_line utf8 cx again full t)
    end_line-Ends full t less = elim (Bool-cases (utf8 full)) [
      | inl text ↦ let (done, t', e) = ih (logged full t) less in (done, t', rw (text) e)
      | inr broken ↦ (true, t, rw (broken) refl)
    ]

    end_stream-Ends :
        (t : StderrTask)
        → (is_empty t.line ≡ false → work (logged t.line t) < most)
        → Ends (end_stream utf8 cx again t)
    end_stream-Ends t less = elim (Bool-cases (is_empty t.line)) [
      | inl none_left ↦ (true, t, rw (none_left) refl)
      | inr last ↦ let (done, t', e) = end_line-Ends t.line t (less last) in (done, t', rw (last) e)
    ]

    on_line-Ends :
        (t : StderrTask) (found : Bool) (head rest : Bytes)
        → work t ≤ most
        → (found ≡ true → length rest < length t.buffered)
        → Ends (on_line utf8 cx again found head rest t)
    on_line-Ends t true head rest enough less =
        end_line-Ends (t.line ++ head) (record t { buffered = rest }) (omega (arith, less refl))
    on_line-Ends t false head rest enough less =
        polled (poll_read t.pipe cx buffer_size).0 (poll_read t.pipe cx buffer_size).1 refl
      where
        polled :
            (r : Poll (IoResult Bytes)) (pipe' : Inner)
            → poll_read t.pipe cx buffer_size ≡ (r, pipe')
            → Ends (
                after_poll utf8 cx again r
                  (record t { line = unread t; buffered = []; pipe = pipe' }))
        polled pending pipe' q =
            (false, record t { line = unread t; buffered = []; pipe = pipe' }, refl)
        polled (ready (ok [])) pipe' q =
            let (was, now, shut) = poll_read-end t.pipe pipe' cx buffer_size (omega arith) q in
            end_stream-Ends (record t { line = unread t; buffered = []; pipe = pipe' })
              (λ last. omega (
                arith,
                enough,
                ap length now,
                length-not_empty (unread t) last,
                length-append t.line t.buffered,
              ))
        polled (ready (ok (b ∷ bs))) pipe' q =
            ih (record t { line = unread t; buffered = b ∷ bs; pipe = pipe' })
              (omega (
                arith,
                enough,
                ap length (poll_read-bytes t.pipe pipe' cx buffer_size b bs q),
                length-append (b ∷ bs) pipe'.buf,
              ))
        polled (ready (err x)) pipe' q = absurd (poll_read-no_err t.pipe pipe' cx buffer_size x q)

  poll_stderr-Ends : (fuel : ℕ) (t : StderrTask) → work t < fuel → Ends (poll_stderr utf8 cx fuel t)
  unfolding poll_stderr
  poll_stderr-Ends zero t enough = absurd (omega arith)
  poll_stderr-Ends (suc fuel) t enough =
      on_line-Ends (poll_stderr utf8 cx fuel) fuel (poll_stderr-Ends fuel) t
        (split_line t.buffered).2 (split_line t.buffered).0 (split_line t.buffered).1 (omega arith)
        (length-split_line t.buffered)

  pub poll_stderr_logs :
      (fuel : ℕ) (t : StderrTask)
      → HasText utf8 t
      → work t < fuel
      → (done : Bool) × (t' : StderrTask) × (poll_stderr utf8 cx fuel t ≡ some (done, t'))
        × HasPolled t done t'
  poll_stderr_logs fuel t text enough =
      let (done, t', e) = poll_stderr-Ends fuel t enough in
      (done, t', e, poll_stderr-HasPolled utf8 cx fuel t t' done text e)
