-- ===== src/Plugin/Stderr/Closed.antt =====
-- Once the guest has closed stderr, the task is done after the poll that finds it so.
use wasmi_plugin_framework.Base.{
  ℕ, zero, suc, ◌≡◌, refl, Bool, true, false, Option, some, [], ◌∷◌, ◌++◌, is_empty, Bool-cases,
  inl, inr,
}
use wasmi_plugin_framework.Bytes.{Bytes}
use wasmi_plugin_framework.Io.{IoResult, ok, err}
use wasmi_plugin_framework.Io.Lines.{split_line}
use wasmi_plugin_framework.Pipe.{Inner, Poll, ready, pending, poll_read}
use wasmi_plugin_framework.Pipe.Polls.{poll_read-closed, poll_read-dry, poll_read-no_err}
use wasmi_plugin_framework.Plugin.Stderr.{
  StderrTask, logged, unread, buffer_size, end_line, end_stream, after_poll, on_line, poll_stderr,
}

module _ (utf8 : Bytes → Bool) (cx : ℕ) where
  abbrev Finishes : (StderrTask → Option (Bool × StderrTask)) → Type 0
  Finishes again =
      (t t' : StderrTask) (done : Bool)
      → t.pipe.closed ≡ true
      → again t ≡ some (done, t')
      → done ≡ true

  module _ (again : StderrTask → Option (Bool × StderrTask)) (ih : Finishes again) where
    end_line-Finishes : (full : Bytes) → Finishes (end_line utf8 cx again full)
    end_line-Finishes full t t' done shut h = elim (Bool-cases (utf8 full)) [
      | inl text ↦ ih (logged full t) t' done shut (rw (text) at h)
      | inr broken ↦ cc (rw (broken) at h)
    ]

    end_stream-Finishes : Finishes (end_stream utf8 cx again)
    end_stream-Finishes t t' done shut h = elim (Bool-cases (is_empty t.line)) [
      | inl none_left ↦ cc (rw (none_left) at h)
      | inr last ↦ end_line-Finishes t.line t t' done shut (rw (last) at h)
    ]

    on_line-Finishes :
        (found : Bool) (head rest : Bytes) → Finishes (on_line utf8 cx again found head rest)
    on_line-Finishes true head rest t t' done shut h =
        end_line-Finishes (t.line ++ head) (record t { buffered = rest }) t' done shut h
    on_line-Finishes false head rest t t' done shut h =
        polled (poll_read t.pipe cx buffer_size).0 (poll_read t.pipe cx buffer_size).1 refl h
      where
        polled :
            (r : Poll (IoResult Bytes)) (pipe' : Inner)
            → poll_read t.pipe cx buffer_size ≡ (r, pipe')
            → after_poll utf8 cx again r (record t { line = unread t; buffered = []; pipe = pipe' })
              ≡ some (done, t')
            → done ≡ true
        polled pending pipe' q k =
            absurd ((poll_read-closed t.pipe pipe' cx buffer_size pending shut q).0 refl)
        polled (ready (ok [])) pipe' q k =
            end_stream-Finishes (record t { line = unread t; buffered = []; pipe = pipe' }) t' done
              (poll_read-closed t.pipe pipe' cx buffer_size _ shut q).1 k
        polled (ready (ok (b ∷ bs))) pipe' q k =
            ih (record t { line = unread t; buffered = b ∷ bs; pipe = pipe' }) t' done
              (poll_read-closed t.pipe pipe' cx buffer_size _ shut q).1 k
        polled (ready (err x)) pipe' q k = absurd (poll_read-no_err t.pipe pipe' cx buffer_size x q)

  pub poll_stderr-Finishes : (fuel : ℕ) → Finishes (poll_stderr utf8 cx fuel)
  unfolding poll_stderr split_line
  poll_stderr-Finishes zero t t' done shut h = cc h
  poll_stderr-Finishes (suc fuel) t t' done shut h =
      on_line-Finishes (poll_stderr utf8 cx fuel) (poll_stderr-Finishes fuel)
        (split_line t.buffered).2 (split_line t.buffered).0 (split_line t.buffered).1 t t' done shut
        h

  -- A poll while the guest has written nothing.
  pub poll_stderr_dry :
      (fuel : ℕ) (waker : Option ℕ)
      → poll_stderr utf8 cx (suc fuel) (record {
        line = [];
        buffered = [];
        pipe = record { buf = []; closed = false; waker = waker };
        log = [];
      })
        ≡ some (
          false,
          record {
            line = [];
            buffered = [];
            pipe = record { buf = []; closed = false; waker = some cx };
            log = [];
          },
        )
  unfolding poll_stderr split_line
  poll_stderr_dry fuel waker = rw (poll_read-dry waker cx buffer_size) refl
