-- ===== src/Memory/Interface.antt =====
-- The guest's linear memory. `wasmi::Memory` is not code of the repository: its `size`, `read` and
-- `write` are an interface with the laws that the documentation of wasmi and of wasm32 state. An
-- access is in bounds or refused as a whole, a write is what a later read sees and changes nothing
-- beside it, and a 32-bit memory has at most 4 GiB.
use wasmi_plugin_framework.Base.{ℕ, ◌+◌, ◌^◌, ◌≤◌, ◌<◌, ◌≡◌, ◌⊎◌, Option, none, some, ◌++◌, length}
use wasmi_plugin_framework.Bytes.{Bytes}

pub record GuestMemory (M : Type 0) : Type 0 where
  pub size : M → ℕ
  -- `read m off n` fills a buffer of `n` bytes.
  pub read : M → ℕ → ℕ → Option Bytes
  pub write : M → ℕ → Bytes → Option M
  pub size-le : (m : M) → size m ≤ 2 ^ 32
  pub read_in : (m : M) (off n : ℕ) → off + n ≤ size m → (bs : Bytes) × (read m off n ≡ some bs)
  pub read_out : (m : M) (off n : ℕ) → size m < off + n → read m off n ≡ none
  pub length-read : (m : M) (off n : ℕ) (bs : Bytes) → read m off n ≡ some bs → length bs ≡ n
  pub read-append :
      (m : M) (off a b : ℕ) (xs ys : Bytes)
      → read m off a ≡ some xs
      → read m (off + a) b ≡ some ys
      → read m off (a + b) ≡ some (xs ++ ys)
  pub write_in :
      (m : M) (off : ℕ) (bs : Bytes)
      → off + length bs ≤ size m
      → (m' : M) × (write m off bs ≡ some m')
  pub write_out : (m : M) (off : ℕ) (bs : Bytes) → size m < off + length bs → write m off bs ≡ none
  pub size-write :
      (m : M) (off : ℕ) (bs : Bytes) (m' : M) → write m off bs ≡ some m' → size m' ≡ size m
  pub read-write_self :
      (m : M) (off : ℕ) (bs : Bytes) (m' : M)
      → write m off bs ≡ some m'
      → read m' off (length bs) ≡ some bs
  pub read-write_apart :
      (m : M) (off : ℕ) (bs : Bytes) (m' : M) (o n : ℕ)
      → write m off bs ≡ some m'
      → (o + n ≤ off) ⊎ (off + length bs ≤ o)
      → read m' o n ≡ read m o n
