-- ===== src/Wasi/FdWrite.antt =====
-- `fd_write`: gathered writes to stdout and stderr.
pub mod Gather
pub mod Send
pub mod Keeps
mod Tests
use wasmi_plugin_framework.Base.{
  ℕ, zero, suc, ◌+◌, ◌%◌, ◌^◌, Bool, true, false, Option, none, some, ◌==◌, ltb, length,
  if◌then◌else◌, ℤ, pos, negsuc, pos_part, as_usize,
}
use wasmi_plugin_framework.Bytes.{Bytes, to_le}
use wasmi_plugin_framework.Io.{IoResult, ok, err, Write}
use wasmi_plugin_framework.Memory.{GuestMemory}
use wasmi_plugin_framework.Wasi.Context.{Errno, success, badf, fault, io}
use wasmi_plugin_framework.Wasi.Caller.{
  Caller, Flow, next, leave, Action, Outcome, pure, fail, ◌>>=◌, ◌>>◌, finish, expect_memory,
  record_addr, is_fd, mem_read, read_u32, write_or_fault,
}

module _ {M R W : Type 0} ⦃mem : GuestMemory M⦄ ⦃wr : Write W⦄ where
  abbrev pub or_fault : Option Bytes → Action M R W Bytes
  or_fault none c = leave fault c
  or_fault (some bs) c = next bs c

  abbrev pub or_io : IoResult ℕ → Action M R W ℕ
  or_io (ok n) c = next n c
  or_io (err e) c = leave io c

  -- `writer.write(&host_buf)` on the stream that `fd` names.
  pub stream_write : ℤ → Bytes → Action M R W ℕ
  stream_write fd bs c =
      if is_fd fd 1
      then (elim c.ctx.stdout_writer [
        | none ↦ leave badf c
        | some w ↦
            let (r, w') = wr.write w bs in
            or_io r (record c { ctx = record (c.ctx) { stdout_writer = some w' } })
      ])
      else if is_fd fd 2
      then (elim c.ctx.stderr_writer [
        | none ↦ leave badf c
        | some w ↦
            let (r, w') = wr.write w bs in
            or_io r (record c { ctx = record (c.ctx) { stderr_writer = some w' } })
      ])
      else leave badf c

  pub fd_write_loop : ℤ → ℕ → ℕ → ℕ → ℕ → Action M R W ℕ
  unfolding stream_write
  fd_write_loop fd zero i ciov_ptr total = pure total
  fd_write_loop fd (suc rounds) i ciov_ptr total = do
    buf_addr ← read_u32 (record_addr ciov_ptr 8 i)
    buf_len ← read_u32 (record_addr (record_addr ciov_ptr 8 i) 4 1)
    copied ← mem_read buf_addr buf_len
    host_buf ← or_fault copied
    n ← stream_write fd host_buf
    if ltb n buf_len then pure (total + n) else fd_write_loop fd rounds (i + 1) ciov_ptr (total + n)

  abbrev pub fd_write_body : ℤ → ℤ → ℤ → ℤ → Action M R W Errno
  fd_write_body fd ciov_ptr ciov_len nwrite_ptr = do
    expect_memory
    total ← fd_write_loop fd (pos_part ciov_len) 0 (as_usize ciov_ptr) 0
    write_or_fault (as_usize nwrite_ptr) (to_le 4 (total % 2 ^ 32))
    pure success

  unfoldable pub fd_write : ℤ → ℤ → ℤ → ℤ → Caller M R W → Outcome M R W
  unfolding fd_write_loop
  fd_write fd ciov_ptr ciov_len nwrite_ptr c =
      finish (fd_write_body fd ciov_ptr ciov_len nwrite_ptr c)
