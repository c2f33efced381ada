-- ===== src/Wasi/FdRead/Keeps.antt =====
-- `fd_read` leaves stdout as it is.
use wasmi_plugin_framework.Base.{
  ℕ, zero, suc, ◌+◌, ◌%◌, ◌^◌, ◌≡◌, refl, Option, some, inl, inr, Bool-cases, Option-cases, ◌==◌,
  ltb, length, ℤ, pos_part, as_usize,
}
use wasmi_plugin_framework.Bytes.{Bytes, to_le}
use wasmi_plugin_framework.Io.{IoResult, ok, err, would_block, other, Read}
use wasmi_plugin_framework.Io.Buffered.{buf_read}
use wasmi_plugin_framework.Memory.{GuestMemory}
use wasmi_plugin_framework.Wasi.Context.{Errno, WasiCtx}
use wasmi_plugin_framework.Wasi.Caller.{Caller, record_addr, returned}
use wasmi_plugin_framework.Wasi.Caller.Keeps.{
  Keeps, and_then-Keeps, read_u32-Keeps, write_or_panic-Keeps, returned-Keeps,
}
use wasmi_plugin_framework.Wasi.FdRead.{stdin_read, after_read, fd_read_loop, fd_read}
use wasmi_plugin_framework.Wasi.FdRead.Results.{fd_read_lem, report}

module _ {R W : Type 0} where
  abbrev pub stdout_of : WasiCtx R W → Option W
  stdout_of ctx = ctx.stdout_writer

module _ {M R W : Type 0} ⦃mem : GuestMemory M⦄ ⦃rd : Read R⦄ where
  after_read-Keeps :
      (r : IoResult Bytes) (c0 c : Caller M R W)
      → stdout_of c.ctx ≡ stdout_of c0.ctx
      → Keeps stdout_of c0 (after_read r c)
  after_read-Keeps (ok bs) c0 c e = e
  after_read-Keeps (err would_block) c0 c e = e
  after_read-Keeps (err other) c0 c e = e

  stdin_read-Keeps :
      (n : ℕ) (c0 c : Caller M R W)
      → stdout_of c.ctx ≡ stdout_of c0.ctx
      → Keeps stdout_of c0 (stdin_read n c)
  unfolding stdin_read
  stdin_read-Keeps n c0 c e = elim (Option-cases c.ctx.stdin_reader) [
    | inl gone ↦ rw (gone) e
    | inr (reader, there) ↦ rw (there) (after_read-Keeps (buf_read reader n).0 c0 _ e)
  ]

  fd_read_loop-Keeps :
      (rounds i p total : ℕ) (c0 c : Caller M R W)
      → stdout_of c.ctx ≡ stdout_of c0.ctx
      → Keeps stdout_of c0 (fd_read_loop rounds i p total c)
  unfolding fd_read_loop
  fd_read_loop-Keeps zero i p total c0 c e = e
  fd_read_loop-Keeps (suc rounds) i p total c0 c e =
      and_then-Keeps stdout_of c0 _ _ (read_u32-Keeps stdout_of (record_addr p 8 i) c0 c e)
        λ addr c1 e1.
          and_then-Keeps stdout_of c0 _ _
            (read_u32-Keeps stdout_of (record_addr (record_addr p 8 i) 4 1) c0 c1 e1)
            λ len c2 e2. and_then-Keeps stdout_of c0 _ _ (stdin_read-Keeps len c0 c2 e2) λ bs c3 e3.
              elim (Bool-cases (length bs == 0)) [
                | inl end ↦ rw (end) e3
                | inr some_read ↦ rw (some_read) (
                    and_then-Keeps stdout_of c0 _ _
                      (write_or_panic-Keeps stdout_of addr bs c0 c3 e3)
                      λ u c4 e4. elim (Bool-cases (ltb (length bs) len)) [
                        | inl short ↦ rw (short) e4
                        | inr full ↦
                            rw (full)
                              (fd_read_loop-Keeps rounds (i + 1) p (total + length bs) c0 c4 e4)
                      ])
              ]

  pub fd_read-stdout :
      (iov_ptr iov_len nread_ptr : ℤ) (c c' : Caller M R W) (m : M) (e : Errno)
      → c.memory ≡ some m
      → fd_read 0 iov_ptr iov_len nread_ptr c ≡ returned e c'
      → c'.ctx.stdout_writer ≡ c.ctx.stdout_writer
  fd_read-stdout iov_ptr iov_len nread_ptr c c' m e em h =
      returned-Keeps stdout_of c c' e _
        (and_then-Keeps stdout_of c (fd_read_loop (pos_part iov_len) 0 (as_usize iov_ptr) 0 c)
          (report (as_usize nread_ptr))
          (fd_read_loop-Keeps (pos_part iov_len) 0 (as_usize iov_ptr) 0 c c refl)
          (λ total c1 e1.
            and_then-Keeps stdout_of c _ _
              (write_or_panic-Keeps stdout_of (as_usize nread_ptr) (to_le 4 (total % 2 ^ 32)) c c1
                e1)
              (λ u c2 e2. e2)))
        (rw (fd_read_lem 0 iov_ptr iov_len nread_ptr c m em) at h)
