-- ===== src/Wasi/FdRead/Scatter.antt =====
-- The reference for where `fd_read` puts the bytes that it reads.
use wasmi_plugin_framework.Base.{
  ℕ, zero, suc, ◌+◌, ◌≤◌, ◌≡◌, refl, Option, none, some, [], ◌∷◌, ◌++◌, leb, length, take, drop,
  arith, if◌then◌else◌, append-nil, length-append, take-append, drop-append,
}
use wasmi_plugin_framework.Bytes.{Bytes}
use wasmi_plugin_framework.Memory.{GuestMemory}
use wasmi_plugin_framework.Memory.Words.{when, word_at}
use wasmi_plugin_framework.Wasi.Caller.{record_addr}
use wasmi_plugin_framework.Wasi.Caller.Invert.{IsWord}

-- The reference: `bs` spread over the guest's vectors from the `i`-th on, each buffer filled before
-- the next is looked up. `none` if a vector or a buffer is out of bounds, or there is no room left.
module _ {M : Type 0} ⦃mem : GuestMemory M⦄ where
  unfoldable pub scatter : ℕ → ℕ → ℕ → M → Bytes → Option M
  scatter rounds i iov_ptr m [] = some m
  scatter zero i iov_ptr m (b ∷ bs) = none
  scatter (suc rounds) i iov_ptr m (b ∷ bs) = when (word_at m (record_addr iov_ptr 8 i)) λ addr.
      when (word_at m (record_addr (record_addr iov_ptr 8 i) 4 1)) λ len.
        if leb (length (b ∷ bs)) len
        then mem.write m addr (b ∷ bs)
        else when (mem.write m addr (take len (b ∷ bs)))
            (λ m1. scatter rounds (i + 1) iov_ptr m1 (drop len (b ∷ bs)))

  pub scatter-nil : (rounds i p : ℕ) (m : M) → scatter rounds i p m [] ≡ some m
  unfolding scatter
  scatter-nil zero i p m = refl
  scatter-nil (suc rounds) i p m = refl

  -- The last, partly filled buffer.
  pub scatter_last :
      (rounds i p : ℕ) (m m1 : M) (b : ℕ) (bs : Bytes) (addr len : ℕ)
      → IsWord m (record_addr p 8 i) addr
      → IsWord m (record_addr (record_addr p 8 i) 4 1) len
      → length (b ∷ bs) ≤ len
      → mem.write m addr (b ∷ bs) ≡ some m1
      → scatter (suc rounds) i p m (b ∷ bs) ≡ some m1
  unfolding scatter
  scatter_last rounds i p m m1 b bs addr len (xs, ex, ax) (ys, ey, ay) h e = ground arith

  -- A filled buffer, and behind it the others.
  pub scatter_full :
      (rounds i p : ℕ) (m m1 : M) (b : ℕ) (bs rest : Bytes) (addr len : ℕ)
      → IsWord m (record_addr p 8 i) addr
      → IsWord m (record_addr (record_addr p 8 i) 4 1) len
      → length (b ∷ bs) ≡ len
      → mem.write m addr (b ∷ bs) ≡ some m1
      → scatter (suc rounds) i p m ((b ∷ bs) ++ rest) ≡ scatter rounds (i + 1) p m1 rest
  unfolding scatter
  scatter_full rounds i p m m1 b bs [] addr len (xs, ex, ax) (ys, ey, ay) h e =
      ground (arith, append-nil bs, scatter-nil rounds (i + 1) p m1)
  scatter_full rounds i p m m1 b bs (r ∷ rest) addr len (xs, ex, ax) (ys, ey, ay) h e = ground (
    arith,
    take-append (b ∷ bs) (r ∷ rest),
    drop-append (b ∷ bs) (r ∷ rest),
    length-append (b ∷ bs) (r ∷ rest),
  )
