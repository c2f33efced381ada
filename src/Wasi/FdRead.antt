-- ===== src/Wasi/FdRead.antt =====
-- `fd_read`: scattered reads from stdin. An `i32` argument is an integer, and is cast to usize with
-- its sign.
pub mod Taken
pub mod Scatter
pub mod Deliver
pub mod Errors
pub mod Results
pub mod Loss
pub mod Closed
pub mod Keeps
pub mod Available
mod Tests
use wasmi_plugin_framework.Base.{
  ℕ, zero, suc, ◌+◌, ◌%◌, ◌^◌, Bool, true, false, Option, none, some, ◌==◌, ltb, length,
  if◌then◌else◌, ℤ, pos_part, as_usize,
}
use wasmi_plugin_framework.Bytes.{Bytes, to_le}
use wasmi_plugin_framework.Io.{IoResult, ok, err, would_block, other, Read}
use wasmi_plugin_framework.Io.Buffered.{BufReader, buf_read}
use wasmi_plugin_framework.Memory.{GuestMemory}
use wasmi_plugin_framework.Wasi.Context.{Errno, success, again, badf, fault}
use wasmi_plugin_framework.Wasi.Caller.{
  Caller, Flow, next, leave, Action, Outcome, pure, fail, ◌>>=◌, ◌>>◌, finish, expect_memory,
  record_addr, read_u32, write_or_panic,
}

module _ {M R W : Type 0} ⦃rd : Read R⦄ where
  -- What the call does with the result of `r.read`, once the reader is back in its place. A reader
  -- that would block marks the context and takes the guest's fuel, as `sched_yield` does.
  abbrev pub after_read : IoResult Bytes → Action M R W Bytes
  after_read (ok bs) c = next bs c
  after_read (err would_block) c =
      leave again (record c { ctx = record (c.ctx) { awaiting_stdin = true }; fuel = 0 })
  after_read (err other) c = leave fault c

  -- The read from `ctx.stdin_reader` into a host buffer of `n` bytes.
  unfoldable pub stdin_read : ℕ → Action M R W Bytes
  stdin_read n c = elim c.ctx.stdin_reader [
    | none ↦ leave badf c
    | some reader ↦
        let (r, reader') = buf_read reader n in
        after_read r (record c { ctx = record (c.ctx) { stdin_reader = some reader' } })
  ]

module _ {M R W : Type 0} ⦃mem : GuestMemory M⦄ ⦃rd : Read R⦄ where
  -- The rounds that are left, the round's number, the address of the vectors, `total_read`.
  pub fd_read_loop : ℕ → ℕ → ℕ → ℕ → Action M R W ℕ
  unfolding stdin_read
  fd_read_loop zero i iov_ptr total = pure total
  fd_read_loop (suc rounds) i iov_ptr total = do
    buf_addr ← read_u32 (record_addr iov_ptr 8 i)
    buf_len ← read_u32 (record_addr (record_addr iov_ptr 8 i) 4 1)
    bs ← stdin_read buf_len
    if length bs == 0 then pure total else do
      write_or_panic buf_addr bs
      if ltb (length bs) buf_len
          then pure (total + length bs)
          else fd_read_loop rounds (i + 1) iov_ptr (total + length bs)

  abbrev fd_read_body : ℕ → ℤ → ℤ → ℤ → Action M R W Errno
  fd_read_body fd iov_ptr iov_len nread_ptr =
      if fd == 0
      then (do
        expect_memory
        total ← fd_read_loop (pos_part iov_len) 0 (as_usize iov_ptr) 0
        write_or_panic (as_usize nread_ptr) (to_le 4 (total % 2 ^ 32))
        pure success)
      else fail badf

  unfoldable pub fd_read : ℕ → ℤ → ℤ → ℤ → Caller M R W → Outcome M R W
  unfolding fd_read_loop
  fd_read fd iov_ptr iov_len nread_ptr c = finish (fd_read_body fd iov_ptr iov_len nread_ptr c)
