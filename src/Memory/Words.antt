-- ===== src/Memory/Words.antt =====
-- Little-endian words of a memory, for the reference descriptions of the calls.
use wasmi_plugin_framework.Base.{ℕ, ◌≡◌, refl, Option, none, some}
use wasmi_plugin_framework.Bytes.{from_le}
use wasmi_plugin_framework.Memory.Interface.{GuestMemory}

abbrev pub when : {A B : Type 0} → Option A → (A → Option B) → Option B
when none k = none
when (some a) k = k a

-- The u32 at `off`, if it is in bounds.
abbrev pub word_at : {M : Type 0} ⦃mem : GuestMemory M⦄ → M → ℕ → Option ℕ
word_at ⦃mem⦄ m off = elim (mem.read m off 4) [ none ↦ none | some bs ↦ some (from_le bs) ]

pub when-some :
    {A B : Type 0} (o : Option A) (k : A → Option B) {b : B}
    → when o k ≡ some b
    → (a : A) × (o ≡ some a) × (k a ≡ some b)
when-some none k h = cc
when-some (some a) k h = (a, refl, h)
