-- ===== src/Wasi/System/Results.antt =====
-- What `clock_time_get` and `random_get` leave in guest memory.
use wasmi_plugin_framework.Base.{
  ℕ, ◌+◌, ◌%◌, ◌^◌, ◌≤◌, ◌<◌, ◌≡◌, ◌≢◌, refl, ◌∙◌, Option, some, length, arith, lt→ltb, ℤ, pos,
  negsuc,
}
use wasmi_plugin_framework.Bytes.{Bytes, to_le, from_le, length-to_le, from_le-to_le}
use wasmi_plugin_framework.Memory.{GuestMemory}
use wasmi_plugin_framework.Memory.Slices.{IsStored, write-IsStored}
use wasmi_plugin_framework.Wasi.Context.{success}
use wasmi_plugin_framework.Wasi.Caller.{Caller, returned, panicked}
use wasmi_plugin_framework.Wasi.System.{clock_time_get, random_get}

module _ {M R W : Type 0} ⦃mem : GuestMemory M⦄ where
  -- A buffer that the guest gives with a length that is not negative and that lies in its memory is
  -- filled with as many bytes of the host's entropy as it is long, and nothing else changes.
  pub random_get_fills :
      (getrandom : ℕ → Option Bytes) (p n : ℕ) (c : Caller M R W) (m : M) (bs : Bytes)
      → c.memory ≡ some m
      → getrandom n ≡ some bs
      → length bs ≡ n
      → p + n ≤ mem.size m
      → (m' : M) × (random_get getrandom (pos p) (pos n) c
          ≡ returned success (record c { memory = some m' }))
        × IsStored m m' p bs
  unfolding random_get
  random_get_fills getrandom p n c m bs e found len room =
      let (m', w, s) = write-IsStored m p bs (omega arith) in
      (m', rw (lt→ltb n (2 ^ 63) (omega (arith, mem.size-le m)), found, e, w) refl, s)

  -- A guest with memory panics the host by a `random_get` with a negative length, whatever the host's
  -- entropy, and by no other.
  pub random_get_panics :
      (getrandom : ℕ → Option Bytes) (buf_ptr : ℤ) (n : ℕ) (c : Caller M R W) (m : M)
      → c.memory ≡ some m
      → n < 2 ^ 31
      → (random_get getrandom buf_ptr (negsuc n) c ≡ panicked)
        × (random_get getrandom buf_ptr (pos n) c ≢ panicked)
  unfolding random_get
  random_get_panics getrandom buf_ptr n c m e h = (ground arith, λ k. ground arith)

  -- For the realtime and the monotonic clock alike, `clock_time_get` stores the nanoseconds since the
  -- epoch as a 64-bit word that reads back as the time, while that fits; no other byte changes.
  pub clock_time_get_tells :
      (now id p : ℕ) (c : Caller M R W) (m : M)
      → c.memory ≡ some m
      → id ≤ 1
      → now < 2 ^ 64
      → p + 8 ≤ mem.size m
      → (m' : M) × (bs : Bytes) × (clock_time_get (some now) (pos id) (pos p) c
          ≡ returned success (record c { memory = some m' }))
        × (from_le bs ≡ now)
        × (length bs ≡ 8)
        × IsStored m m' p bs
  unfolding clock_time_get
  clock_time_get_tells now id p c m e known fits room =
      let word = to_le 8 (now % 2 ^ 64) in
      let (m', w, s) = write-IsStored m p word (omega (arith, length-to_le 8 (now % 2 ^ 64))) in
      (
        m',
        word,
        ground (arith, w),
        from_le-to_le 8 (now % 2 ^ 64) (omega arith) ∙ omega arith,
        length-to_le 8 (now % 2 ^ 64),
        s,
      )
