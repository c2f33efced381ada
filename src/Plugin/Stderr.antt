-- ===== src/Plugin/Stderr.antt =====
-- `stderr_task` of crates/wasmi-plugin-hdk/src/plugin.rs: hands the guest's stderr to the logger, line
-- by line. The `BufReader` and `read_line` are those of the `futures` crate, written out from their
-- documentation; `utf8` is the test that `read_line` makes of the bytes of a line.
pub mod Text
pub mod Lines
pub mod Ends
pub mod Closed
pub mod Sample
mod Tests
use wasmi_plugin_framework.Base.{
  ℕ, zero, suc, Bool, true, false, Option, none, some, List, [], ◌∷◌, ◌++◌, is_empty, ◌==◌,
  if◌then◌else◌,
}
use wasmi_plugin_framework.Bytes.{Bytes}
use wasmi_plugin_framework.Io.{IoResult, ok, err}
use wasmi_plugin_framework.Io.Lines.{split_line}
use wasmi_plugin_framework.Pipe.{Inner, Poll, ready, pending, poll_read}

-- `line` is the part of the line that was read, `buffered` the reader's buffer; `log` holds the lines
-- that the logger was given, before `trim_end`.
pub record StderrTask : Type 0 where
  pub line : Bytes
  pub buffered : Bytes
  pub pipe : Inner
  pub log : List Bytes

-- `(self.logger)(&name, …); line.clear()`
abbrev pub logged : Bytes → StderrTask → StderrTask
logged full t = record t { line = []; log = t.log ++ (full ∷ []) }

abbrev pub unread : StderrTask → Bytes
unread t = t.line ++ t.buffered

abbrev pub buffer_size : ℕ
buffer_size = 8192

module _ (utf8 : Bytes → Bool) (cx : ℕ) where
  -- A line that was read whole: the loop goes on if it is text, and ends if not.
  abbrev pub end_line :
      (StderrTask → Option (Bool × StderrTask)) → Bytes → StderrTask → Option (Bool × StderrTask)
  end_line again full t =
      let more = again (logged full t) in if utf8 full then more else some (true, t)

  -- The end of the stream: `read_line` returns 0 bytes, or the last line.
  abbrev pub end_stream :
      (StderrTask → Option (Bool × StderrTask)) → StderrTask → Option (Bool × StderrTask)
  end_stream again t =
      let last = end_line again t.line t in if is_empty t.line then some (true, t) else last

  abbrev pub after_poll :
      (StderrTask → Option (Bool × StderrTask))
      → Poll (IoResult Bytes)
      → StderrTask
      → Option (Bool × StderrTask)
  after_poll again pending t = some (false, t)
  after_poll again (ready (ok [])) t = end_stream again t
  after_poll again (ready (ok (b ∷ bs))) t = again (record t { buffered = b ∷ bs })
  after_poll again (ready (err e)) t = some (true, t)

  abbrev pub on_line :
      (StderrTask → Option (Bool × StderrTask))
      → Bool
      → Bytes
      → Bytes
      → StderrTask
      → Option (Bool × StderrTask)
  on_line again true head rest t = end_line again (t.line ++ head) (record t { buffered = rest })
  on_line again false head rest t =
      let (polled, pipe') = poll_read t.pipe cx buffer_size in
      after_poll again polled (record t { line = unread t; buffered = []; pipe = pipe' })

  -- One poll of the task, on fuel for the rounds of its loops: whether it is done.
  pub poll_stderr : ℕ → StderrTask → Option (Bool × StderrTask)
  unfolding split_line
  poll_stderr zero t = none
  poll_stderr (suc fuel) t =
      let (head, rest, found) = split_line t.buffered in
      on_line (poll_stderr fuel) found head rest t
