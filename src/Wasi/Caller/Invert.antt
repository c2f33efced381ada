-- ===== src/Wasi/Caller/Invert.antt =====
-- What a step that went on, or that left the call, says of its parts.
use wasmi_plugin_framework.Base.{ℕ, ◌≡◌, ◌⊎◌, inl, inr, refl, some, arith, Option-cases}
use wasmi_plugin_framework.Bytes.{Bytes, from_le}
use wasmi_plugin_framework.Memory.{GuestMemory}
use wasmi_plugin_framework.Wasi.Context.{Errno}
use wasmi_plugin_framework.Wasi.Caller.{
  Caller, Flow, next, leave, panic, Action, and_then, read_u32, write_or_panic, returned, finish,
}

module _ {M R W : Type 0} where
  pub and_then-next :
      {A B : Type 0} (f : Flow M R W A) (k : A → Action M R W B) {b : B} {c : Caller M R W}
      → and_then f k ≡ next b c
      → (a : A) × (c1 : Caller M R W) × (f ≡ next a c1) × (k a c1 ≡ next b c)
  and_then-next (next a c1) k h = (a, c1, refl, h)
  and_then-next (leave e c1) k h = cc
  and_then-next panic k h = cc

  -- The call was left by the first part, or by what follows it.
  pub and_then-leave :
      {A B : Type 0} (f : Flow M R W A) (k : A → Action M R W B) {e : Errno} {c : Caller M R W}
      → and_then f k ≡ leave e c
      → (f ≡ leave e c) ⊎ ((a : A) × (c1 : Caller M R W) × (f ≡ next a c1) × (k a c1 ≡ leave e c))
  and_then-leave (next a c1) k h = inr (a, c1, refl, h)
  and_then-leave (leave e c1) k h = inl (ground arith)
  and_then-leave panic k h = cc

  pub finish-returned :
      (f : Flow M R W Errno) {e : Errno} {c : Caller M R W}
      → finish f ≡ returned e c
      → (f ≡ next e c) ⊎ (f ≡ leave e c)
  finish-returned (next a c1) h = inl (ground arith)
  finish-returned (leave a c1) h = inr (ground arith)
  finish-returned panic h = cc

-- The word at `off` of a memory.
abbrev pub IsWord : {M : Type 0} ⦃mem : GuestMemory M⦄ → M → ℕ → ℕ → Type 0
IsWord ⦃mem⦄ m off w = (bs : Bytes) × (mem.read m off 4 ≡ some bs) × (w ≡ from_le bs)

module _ {M R W : Type 0} ⦃mem : GuestMemory M⦄ where
  pub read_u32-next :
      (off w : ℕ) (c c1 : Caller M R W) (m : M)
      → c.memory ≡ some m
      → read_u32 off c ≡ next w c1
      → (c1 ≡ c) × IsWord m off w
  read_u32-next off w c c1 m e h = elim (Option-cases (mem.read m off 4)) [
    | inl bad ↦ ground arith
    | inr (bs, good) ↦ (ground arith, (bs, good, ground arith))
  ]

  pub read_u32-leave : (off : ℕ) (e : Errno) (c c1 : Caller M R W) → read_u32 off c ≡ leave e c1 → ⊥
  read_u32-leave off e c c1 h = ground arith

  pub write_or_panic-next :
      (off : ℕ) (bs : Bytes) (c c1 : Caller M R W) (m : M)
      → c.memory ≡ some m
      → write_or_panic off bs c ≡ next tt c1
      → (m1 : M) × (mem.write m off bs ≡ some m1) × (c1 ≡ record c { memory = some m1 })
  write_or_panic-next off bs c c1 m e h = elim (Option-cases (mem.write m off bs)) [
    | inl bad ↦ ground arith
    | inr (m1, good) ↦ (m1, good, ground arith)
  ]

  pub write_or_panic-leave :
      (off : ℕ) (bs : Bytes) (e : Errno) (c c1 : Caller M R W)
      → write_or_panic off bs c ≡ leave e c1
      → ⊥
  write_or_panic-leave off bs e c c1 h = ground arith
