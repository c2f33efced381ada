-- ===== src/Wasi/FdRead/Closed.antt =====
-- `fd_read` once the guest has closed its stdin.
use wasmi_plugin_framework.Base.{
  ℕ, zero, suc, ◌≤◌, ◌≡◌, refl, none, some, arith, ℤ, pos, pos_part, as_usize,
}
use wasmi_plugin_framework.Io.{Read}
use wasmi_plugin_framework.Memory.{GuestMemory}
use wasmi_plugin_framework.Wasi.Context.{success, badf}
use wasmi_plugin_framework.Wasi.Caller.{Caller, leave, returned, record_addr}
use wasmi_plugin_framework.Wasi.Caller.Invert.{IsWord}
use wasmi_plugin_framework.Wasi.Fd.{fd_close}
use wasmi_plugin_framework.Wasi.FdRead.{fd_read_loop, fd_read}
use wasmi_plugin_framework.Wasi.FdRead.Results.{fd_read_lem}

module _ {M R W : Type 0} ⦃mem : GuestMemory M⦄ ⦃rd : Read R⦄ where
  loop_closed :
      (rounds i p total addr len : ℕ) (c : Caller M R W) (m : M)
      → c.memory ≡ some m
      → c.ctx.stdin_reader ≡ none
      → IsWord m (record_addr p 8 i) addr
      → IsWord m (record_addr (record_addr p 8 i) 4 1) len
      → fd_read_loop (suc rounds) i p total c ≡ leave badf c
  unfolding fd_read_loop
  loop_closed rounds i p total addr len c m em gone (xs, ex, ax) (ys, ey, ay) = ground arith

  loop_closed_some :
      (rounds i p total addr len : ℕ) (c : Caller M R W) (m : M)
      → c.memory ≡ some m
      → c.ctx.stdin_reader ≡ none
      → 1 ≤ rounds
      → IsWord m (record_addr p 8 i) addr
      → IsWord m (record_addr (record_addr p 8 i) 4 1) len
      → fd_read_loop rounds i p total c ≡ leave badf c
  loop_closed_some zero i p total addr len c m em gone some_round x y = absurd (omega arith)
  loop_closed_some (suc rounds) i p total addr len c m em gone some_round x y =
      loop_closed rounds i p total addr len c m em gone x y

  -- `fd_close` of stdin succeeds and touches neither memory nor fuel, and from then on `fd_read` with
  -- a vector that can be read returns `Badf` and changes nothing.
  pub fd_close_ends_fd_read :
      (iov_ptr iov_len nread_ptr : ℤ) (addr len : ℕ) (c : Caller M R W) (m : M)
      → c.memory ≡ some m
      → 1 ≤ pos_part iov_len
      → IsWord m (record_addr (as_usize iov_ptr) 8 0) addr
      → IsWord m (record_addr (record_addr (as_usize iov_ptr) 8 0) 4 1) len
      → (c' : Caller M R W) × (fd_close (pos 0) c ≡ returned success c')
        × (c'.memory ≡ some m)
        × (c'.fuel ≡ c.fuel)
        × (fd_read 0 iov_ptr iov_len nread_ptr c' ≡ returned badf c')
  unfolding fd_close
  fd_close_ends_fd_read iov_ptr iov_len nread_ptr addr len c m e some_vector x y =
      let c' : Caller M R W = record c { ctx = record (c.ctx) { stdin_reader = none } } in
      (
        c',
        refl,
        e,
        refl,
        rw
            (
              fd_read_lem 0 iov_ptr iov_len nread_ptr c' m e,
              loop_closed_some (pos_part iov_len) 0 (as_usize iov_ptr) 0 addr len c' m e refl
                  some_vector x y,
            )
            refl,
      )
