-- ===== src/Pipe.antt =====
-- crates/wasmi-plugin-hdk/src/wasi/non_blocking_pipe.rs: the in-memory pipe between the host and
-- the guest's stdin, stdout and stderr. Reader and writer share one `Inner` behind a mutex, so each
-- operation is a function on `Inner`; a task's waker is the task's number, and an operation that
-- calls `wake` returns the task that it wakes.
use wasmi_plugin_framework.Base.{
  ℕ, zero, suc, Bool, true, false, Option, none, some, [], ◌∷◌, ◌++◌, ◌&&◌, length, ◌==◌,
  if◌then◌else◌, ltb,
}
use wasmi_plugin_framework.Bytes.{Bytes}
use wasmi_plugin_framework.Io.{IoError, would_block, IoResult, ok, err}
pub mod Fifo
pub mod Polls
pub mod Wakers
pub mod Stream
pub mod Lines
mod Tests

pub record Inner : Type 0 where
  pub buf : Bytes
  pub closed : Bool
  pub waker : Option ℕ

pub data Poll (A : Type 0) : Type 0 where
  ready : A → Poll A
  pending : Poll A

-- `non_blocking_pipe`
unfoldable pub non_blocking_pipe : Inner
non_blocking_pipe = record { buf = []; closed = false; waker = none }

-- The loop of `read` and `poll_read`: pops bytes while the destination has `room`. The bytes that
-- were copied, and the queue that is left.
pub pop_into : ℕ → Bytes → Bytes × Bytes
pop_into zero queue = ([], queue)
pop_into (suc room) [] = ([], [])
pop_into (suc room) (b ∷ queue) = let (bs, rest) = pop_into room queue in (b ∷ bs, rest)

-- `Read::read` of `NonBlockingPipeReader`, into a buffer of `n` bytes.
unfoldable pub read : Inner → ℕ → IoResult Bytes × Inner
unfolding pop_into
read inner n =
    let (bs, rest) = pop_into n inner.buf in
    let inner' : Inner = record inner { buf = rest } in
    if length bs == 0 && inner.closed
    then (ok [], inner')
    else if length bs == 0
    then (err would_block, inner')
    else (ok bs, inner')

-- `AsyncRead::poll_read`, called by the task `cx`.
pub poll_read : Inner → ℕ → ℕ → Poll (IoResult Bytes) × Inner
unfolding pop_into
poll_read inner cx n =
    let (bs, rest) = pop_into n inner.buf in
    if ltb 0 (length bs)
    then (ready (ok bs), record inner { buf = rest; waker = none })
    else if inner.closed
    then (ready (ok []), record inner { buf = rest; waker = none })
    else (pending, record inner { buf = rest; waker = some cx })

-- `Write::write` of `NonBlockingPipeWriter`: the result, the task that is woken, the pipe.
unfoldable pub write : Inner → Bytes → IoResult ℕ × Option ℕ × Inner
write inner bs = (ok (length bs), inner.waker, record inner { buf = inner.buf ++ bs; waker = none })

-- `Drop` of `NonBlockingPipeWriter`: the field is cleared before `take` reads it.
unfoldable pub drop_writer : Inner → Option ℕ × Inner
drop_writer inner =
    let cleared : Inner = record inner { closed = true; waker = none } in
    (cleared.waker, record cleared { waker = none })
