-- ===== src/Wasi/FdRead/Loss.antt =====
-- Where `fd_read` loses input.
use wasmi_plugin_framework.Base.{
  ℕ, suc, ◌+◌, ◌-◌, ◌≤◌, ◌≡◌, refl, ◌∙◌, true, some, ◌∷◌, ◌++◌, length, arith, ℤ, pos_part,
  as_usize,
}
use wasmi_plugin_framework.Bytes.{Bytes}
use wasmi_plugin_framework.Io.{Read, ok, err, would_block}
use wasmi_plugin_framework.Io.Buffered.{BufReader, buf_read, remaining, buf_read_ok, buf_read_err}
use wasmi_plugin_framework.Memory.{GuestMemory}
use wasmi_plugin_framework.Wasi.Context.{again}
use wasmi_plugin_framework.Wasi.Caller.{Caller, leave, returned, record_addr}
use wasmi_plugin_framework.Wasi.Caller.Invert.{IsWord}
use wasmi_plugin_framework.Wasi.FdRead.{fd_read_loop, fd_read}
use wasmi_plugin_framework.Wasi.FdRead.Taken.{pending}
use wasmi_plugin_framework.Wasi.FdRead.Results.{fd_read_lem}

module _ {M R W : Type 0} ⦃mem : GuestMemory M⦄ ⦃rd : Read R⦄ where
  -- The caller after a read that filled a buffer, and after one that would have blocked.
  abbrev filled : Caller M R W → BufReader R → M → Caller M R W
  filled c r m = record c { ctx = record (c.ctx) { stdin_reader = some r }; memory = some m }

  abbrev blocked : Caller M R W → BufReader R → Caller M R W
  blocked c r = record c {
    ctx = record (c.ctx) { stdin_reader = some r; awaiting_stdin = true };
    fuel = 0;
  }

  loop_filled :
      (rounds i p total addr len b : ℕ) (bs : Bytes) (c : Caller M R W) (m m1 : M)
      (r r1 : BufReader R)
      → c.memory ≡ some m
      → c.ctx.stdin_reader ≡ some r
      → IsWord m (record_addr p 8 i) addr
      → IsWord m (record_addr (record_addr p 8 i) 4 1) len
      → buf_read r len ≡ (ok (b ∷ bs), r1)
      → length (b ∷ bs) ≡ len
      → mem.write m addr (b ∷ bs) ≡ some m1
      → fd_read_loop (suc rounds) i p total c
        ≡ fd_read_loop rounds (i + 1) p (total + length (b ∷ bs)) (filled c r1 m1)
  unfolding fd_read_loop
  loop_filled rounds i p total addr len b bs c m m1 r r1 em er (xs, ex, ax) (ys, ey, ay) e1 full w =
      ground arith

  loop_blocked :
      (rounds i p total addr len : ℕ) (c : Caller M R W) (m : M) (r r1 : BufReader R)
      → c.memory ≡ some m
      → c.ctx.stdin_reader ≡ some r
      → IsWord m (record_addr p 8 i) addr
      → IsWord m (record_addr (record_addr p 8 i) 4 1) len
      → buf_read r len ≡ (err would_block, r1)
      → fd_read_loop (suc rounds) i p total c ≡ leave again (blocked c r1)
  unfolding fd_read_loop
  loop_blocked rounds i p total addr len c m r r1 em er (xs, ex, ax) (ys, ey, ay) e1 = ground arith

  -- Bytes are lost: with two vectors, where stdin fills the first buffer and would then block,
  -- `fd_read` returns `Again`, and the bytes of the first buffer are gone from stdin although the
  -- guest is not told of them.
  pub fd_read_again_loses :
      (iov_ptr iov_len nread_ptr : ℤ) (c : Caller M R W) (m m1 : M) (r r1 r2 : BufReader R)
      (addr len addr2 len2 b : ℕ) (bs : Bytes)
      → c.memory ≡ some m
      → c.ctx.stdin_reader ≡ some r
      → 2 ≤ pos_part iov_len
      → IsWord m (record_addr (as_usize iov_ptr) 8 0) addr
      → IsWord m (record_addr (record_addr (as_usize iov_ptr) 8 0) 4 1) len
      → IsWord m1 (record_addr (as_usize iov_ptr) 8 1) addr2
      → IsWord m1 (record_addr (record_addr (as_usize iov_ptr) 8 1) 4 1) len2
      → buf_read r len ≡ (ok (b ∷ bs), r1)
      → length (b ∷ bs) ≡ len
      → mem.write m addr (b ∷ bs) ≡ some m1
      → buf_read r1 len2 ≡ (err would_block, r2)
      → (c' : Caller M R W) × (fd_read 0 iov_ptr iov_len nread_ptr c ≡ returned again c')
        × (pending c ≡ (b ∷ bs) ++ pending c')
  fd_read_again_loses iov_ptr iov_len nread_ptr c m m1 r r1 r2 addr len addr2 len2 b bs em er two wa
        wl wa2 wl2 e1 full w e2 =
      (blocked c1 r2, run, ground (arith, taken, kept, er))
    where
      c1 : Caller M R W
      c1 = filled c r1 m1

      rounds : ℕ
      rounds = pos_part iov_len - 2

      enough : pos_part iov_len ≡ suc (suc rounds)
      enough = omega arith

      p : ℕ
      p = as_usize iov_ptr

      loop : fd_read_loop (pos_part iov_len) 0 p 0 c ≡ leave again (blocked c1 r2)
      loop = rw enough (
          loop_filled (suc rounds) 0 p 0 addr len b bs c m m1 r r1 em er wa wl e1 full w
          ∙ loop_blocked rounds 1 p (0 + length (b ∷ bs)) addr2 len2 c1 m1 r1 r2 refl refl wa2 wl2
              e2)

      run : fd_read 0 iov_ptr iov_len nread_ptr c ≡ returned again (blocked c1 r2)
      run = rw (fd_read_lem 0 iov_ptr iov_len nread_ptr c m em, loop)

      taken : remaining r ≡ (b ∷ bs) ++ remaining r1
      taken = ground (arith, buf_read_ok r len (b ∷ bs))

      kept : remaining r2 ≡ remaining r1
      kept = ground (arith, buf_read_err r1 len2 would_block)
