-- ===== src/Wasi/FdWrite/Keeps.antt =====
-- `fd_write` leaves stdin as it is.
use wasmi_plugin_framework.Base.{
  ℕ, zero, suc, ◌+◌, ◌%◌, ◌^◌, ◌≡◌, refl, Option, none, some, inl, inr, Bool-cases, Option-cases,
  ltb, ℤ, pos_part, as_usize,
}
use wasmi_plugin_framework.Bytes.{Bytes, to_le}
use wasmi_plugin_framework.Io.{IoResult, ok, err, Write}
use wasmi_plugin_framework.Io.Buffered.{BufReader}
use wasmi_plugin_framework.Memory.{GuestMemory}
use wasmi_plugin_framework.Wasi.Context.{Errno, success, WasiCtx}
use wasmi_plugin_framework.Wasi.Caller.{
  Caller, record_addr, returned, is_fd, ◌>>◌, pure, write_or_fault,
}
use wasmi_plugin_framework.Wasi.Caller.Keeps.{
  Keeps, and_then-Keeps, expect_memory-Keeps, mem_read-Keeps, read_u32-Keeps, write_or_fault-Keeps,
  returned-Keeps,
}
use wasmi_plugin_framework.Wasi.FdWrite.{
  or_fault, or_io, stream_write, fd_write_loop, fd_write_body, fd_write,
}

module _ {R W : Type 0} where
  abbrev pub stdin_of : WasiCtx R W → Option (BufReader R)
  stdin_of ctx = ctx.stdin_reader

module _ {M R W : Type 0} ⦃mem : GuestMemory M⦄ ⦃wr : Write W⦄ where
  or_fault-Keeps :
      (o : Option Bytes) (c0 c : Caller M R W)
      → stdin_of c.ctx ≡ stdin_of c0.ctx
      → Keeps stdin_of c0 (or_fault o c)
  or_fault-Keeps none c0 c e = e
  or_fault-Keeps (some bs) c0 c e = e

  or_io-Keeps :
      (r : IoResult ℕ) (c0 c : Caller M R W)
      → stdin_of c.ctx ≡ stdin_of c0.ctx
      → Keeps stdin_of c0 (or_io r c)
  or_io-Keeps (ok n) c0 c e = e
  or_io-Keeps (err x) c0 c e = e

  stream_write-Keeps :
      (fd : ℤ) (bs : Bytes) (c0 c : Caller M R W)
      → stdin_of c.ctx ≡ stdin_of c0.ctx
      → Keeps stdin_of c0 (stream_write fd bs c)
  unfolding stream_write
  stream_write-Keeps fd bs c0 c e = elim (Bool-cases (is_fd fd 1)) [
    | inl out ↦ elim (Option-cases c.ctx.stdout_writer) [
      | inl gone ↦ rw (out, gone) e
      | inr (w, there) ↦ rw (out, there) (or_io-Keeps (wr.write w bs).0 c0 _ e)
    ]
    | inr other ↦ elim (Bool-cases (is_fd fd 2)) [
      | inl error ↦ elim (Option-cases c.ctx.stderr_writer) [
        | inl gone ↦ rw (other, error, gone) e
        | inr (w, there) ↦ rw (other, error, there) (or_io-Keeps (wr.write w bs).0 c0 _ e)
      ]
      | inr neither ↦ rw (other, neither) e
    ]
  ]

  fd_write_loop-Keeps :
      (fd : ℤ) (rounds i p total : ℕ) (c0 c : Caller M R W)
      → stdin_of c.ctx ≡ stdin_of c0.ctx
      → Keeps stdin_of c0 (fd_write_loop fd rounds i p total c)
  unfolding fd_write_loop
  fd_write_loop-Keeps fd zero i p total c0 c e = e
  fd_write_loop-Keeps fd (suc rounds) i p total c0 c e =
      and_then-Keeps stdin_of c0 _ _ (read_u32-Keeps stdin_of (record_addr p 8 i) c0 c e)
        λ addr c1 e1.
          and_then-Keeps stdin_of c0 _ _
            (read_u32-Keeps stdin_of (record_addr (record_addr p 8 i) 4 1) c0 c1 e1)
            λ len c2 e2.
              and_then-Keeps stdin_of c0 _ _ (mem_read-Keeps stdin_of addr len c0 c2 e2)
                λ copied c3 e3.
                  and_then-Keeps stdin_of c0 _ _ (or_fault-Keeps copied c0 c3 e3) λ bs c4 e4.
                    and_then-Keeps stdin_of c0 _ _ (stream_write-Keeps fd bs c0 c4 e4) λ n c5 e5.
                      elim (Bool-cases (ltb n len)) [
                        | inl short ↦ rw (short) e5
                        | inr full ↦
                            rw (full) (fd_write_loop-Keeps fd rounds (i + 1) p (total + n) c0 c5 e5)
                      ]

  fd_write_tail-Keeps :
      (nwrite total : ℕ) (c0 c : Caller M R W)
      → stdin_of c.ctx ≡ stdin_of c0.ctx
      → Keeps stdin_of c0 ((write_or_fault nwrite (to_le 4 (total % 2 ^ 32)) >> pure success) c)
  fd_write_tail-Keeps nwrite total c0 c e =
      and_then-Keeps stdin_of c0 _ _
        (write_or_fault-Keeps stdin_of nwrite (to_le 4 (total % 2 ^ 32)) c0 c e) (λ u c1 e1. e1)

  pub fd_write-stdin :
      (fd ciov_ptr ciov_len nwrite_ptr : ℤ) (c c' : Caller M R W) (e : Errno)
      → fd_write fd ciov_ptr ciov_len nwrite_ptr c ≡ returned e c'
      → c'.ctx.stdin_reader ≡ c.ctx.stdin_reader
  fd_write-stdin fd ciov_ptr ciov_len nwrite_ptr c c' e h =
      returned-Keeps stdin_of c c' e (fd_write_body fd ciov_ptr ciov_len nwrite_ptr c)
        (and_then-Keeps stdin_of c _ _ (expect_memory-Keeps stdin_of c c refl) λ m c1 e1.
          and_then-Keeps stdin_of c
            (fd_write_loop fd (pos_part ciov_len) 0 (as_usize ciov_ptr) 0 c1) _
            (fd_write_loop-Keeps fd (pos_part ciov_len) 0 (as_usize ciov_ptr) 0 c c1 e1)
            (λ total c2 e2. fd_write_tail-Keeps (as_usize nwrite_ptr) total c c2 e2))
        (unfold fd_write in h)
