-- ===== src/Wasi/Caller/Keeps.antt =====
-- The parts of the context that a call leaves as they are, however it ends.
use wasmi_plugin_framework.Base.{ℕ, ◌≡◌, subst, inl, inr, Option-cases}
use wasmi_plugin_framework.Bytes.{Bytes}
use wasmi_plugin_framework.Memory.{GuestMemory}
use wasmi_plugin_framework.Wasi.Context.{Errno, WasiCtx}
use wasmi_plugin_framework.Wasi.Caller.{
  Caller, Flow, next, leave, panic, Action, and_then, expect_memory, mem_read, read_u32,
  write_or_panic, write_or_fault, returned, finish,
}

module _ {M R W X : Type 0} (part : WasiCtx R W → X) where
  abbrev pub Keeps : {A : Type 0} → Caller M R W → Flow M R W A → Type 0
  Keeps c (next a c') = part c'.ctx ≡ part c.ctx
  Keeps c (leave e c') = part c'.ctx ≡ part c.ctx
  Keeps c panic = Unit

  pub and_then-Keeps :
      {A B : Type 0} (c : Caller M R W) (f : Flow M R W A) (k : A → Action M R W B)
      → Keeps c f
      → ((a : A) (c1 : Caller M R W) → part c1.ctx ≡ part c.ctx → Keeps c (k a c1))
      → Keeps c (and_then f k)
  and_then-Keeps c (next a c1) k h g = g a c1 h
  and_then-Keeps c (leave e c1) k h g = h
  and_then-Keeps c panic k h g = tt

  pub returned-Keeps :
      (c c' : Caller M R W) (e : Errno) (f : Flow M R W Errno)
      → Keeps c f
      → finish f ≡ returned e c'
      → part c'.ctx ≡ part c.ctx
  returned-Keeps c c' e (next a c1) h r =
      let same : c1 ≡ c' = cc r in subst (λ x. part x.ctx ≡ part c.ctx) same h
  returned-Keeps c c' e (leave a c1) h r =
      let same : c1 ≡ c' = cc r in subst (λ x. part x.ctx ≡ part c.ctx) same h
  returned-Keeps c c' e panic h r = cc r

module _ {M R W X : Type 0} ⦃mem : GuestMemory M⦄ (part : WasiCtx R W → X) where
  pub mem_read-Keeps :
      (off n : ℕ) (c0 c : Caller M R W)
      → part c.ctx ≡ part c0.ctx
      → Keeps part c0 (mem_read off n c)
  mem_read-Keeps off n c0 c e = elim (Option-cases c.memory) [
    | inl gone ↦ rw (gone) tt
    | inr (m, there) ↦ rw (there) e
  ]

  pub read_u32-Keeps :
      (off : ℕ) (c0 c : Caller M R W) → part c.ctx ≡ part c0.ctx → Keeps part c0 (read_u32 off c)
  read_u32-Keeps off c0 c e = elim (Option-cases c.memory) [
    | inl gone ↦ rw (gone) tt
    | inr (m, there) ↦ elim (Option-cases (mem.read m off 4)) [
      | inl bad ↦ rw (there, bad) tt
      | inr (bs, good) ↦ rw (there, good) e
    ]
  ]

  pub write_or_panic-Keeps :
      (off : ℕ) (bs : Bytes) (c0 c : Caller M R W)
      → part c.ctx ≡ part c0.ctx
      → Keeps part c0 (write_or_panic off bs c)
  write_or_panic-Keeps off bs c0 c e = elim (Option-cases c.memory) [
    | inl gone ↦ rw (gone) tt
    | inr (m, there) ↦ elim (Option-cases (mem.write m off bs)) [
      | inl bad ↦ rw (there, bad) tt
      | inr (m', good) ↦ rw (there, good) e
    ]
  ]

  pub write_or_fault-Keeps :
      (off : ℕ) (bs : Bytes) (c0 c : Caller M R W)
      → part c.ctx ≡ part c0.ctx
      → Keeps part c0 (write_or_fault off bs c)
  write_or_fault-Keeps off bs c0 c e = elim (Option-cases c.memory) [
    | inl gone ↦ rw (gone) tt
    | inr (m, there) ↦ elim (Option-cases (mem.write m off bs)) [
      | inl bad ↦ rw (there, bad) e
      | inr (m', good) ↦ rw (there, good) e
    ]
  ]

  pub expect_memory-Keeps :
      (c0 c : Caller M R W) → part c.ctx ≡ part c0.ctx → Keeps part c0 (expect_memory c)
  expect_memory-Keeps c0 c e = elim (Option-cases c.memory) [
    | inl gone ↦ rw (gone) tt
    | inr (m, there) ↦ rw (there) e
  ]
