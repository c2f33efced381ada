-- ===== src/TestPlugin/Sieve/Marks.antt =====
-- What the loops leave in the table of flags.
use wasmi_plugin_framework.Base.{
  ℕ, zero, suc, ◌+◌, ◌*◌, ◌≤◌, ◌<◌, ◌≡◌, ◌≢◌, refl, sym, ◌∙◌, subst, ◌⊎◌, inl, inr, Bool, true,
  false, some, List, length, ltb, lt→ltb, ltb→ge, ltb→lt, arith, get_or, set, Bool-cases,
  length-set, get_or-set_self, get_or-set_ne,
}
use native.Mathlib.Decide.{ℕ_discrete}
use wasmi_plugin_framework.TestPlugin.Sieve.{store, cross_out}

-- The flag of `k`.
abbrev pub flag : List Bool → ℕ → Bool
flag flags k = get_or flags k false

-- `flags'` is `flags` without the numbers j, j + i, j + 2 * i, … up to the limit.
pub record IsCrossed (limit i j : ℕ) (flags flags' : List Bool) : Type 0 where
  pub same : length flags' ≡ length flags
  pub kept :
      (k : ℕ) → k ≤ limit → flag flags' k ≡ true → (flag flags k ≡ true) × ((m : ℕ) → k ≢ j + m * i)
  pub crossed :
      (k : ℕ)
      → k ≤ limit
      → flag flags' k ≡ false
      → (flag flags k ≡ false) ⊎ ((m : ℕ) × (k ≡ j + m * i))

pub store_lem :
    (flags : List Bool) (i : ℕ) (b : Bool)
    → i < length flags
    → store flags i b ≡ some (set flags i b)
store_lem flags i b h = rw (lt→ltb i (length flags) h) refl

IsCrossed-past : (limit i j : ℕ) (flags : List Bool) → limit < j → IsCrossed limit i j flags flags
IsCrossed-past limit i j flags past = record {
  same = refl;
  kept = λ k h e. (e, λ m q. omega (arith, q));
  crossed = λ k h e. inl e;
}

IsCrossed-step :
    (limit i j : ℕ) (flags flags' : List Bool)
    → j < length flags
    → IsCrossed limit i (j + i) (set flags j false) flags'
    → IsCrossed limit i j flags flags'
IsCrossed-step limit i j flags flags' room x = record {
  same = x.same ∙ length-set flags j false;
  kept = λ k h e.
      let (before, later) = x.kept k h e in
      let other = others k before in
      (sym (get_or-set_ne flags j k false false other) ∙ before, λ m q. spared k other later m q);
  crossed = λ k h e. elim (ℕ_discrete k j) [
    | yes here ↦ inr (0, omega (arith, here))
    | no other ↦ elim (x.crossed k h e) [
      | inl before ↦ inl (sym (get_or-set_ne flags j k false false other) ∙ before)
      | inr (m, q) ↦ inr (suc m, grind (arith, q))
    ]
  ];
}
  where
    others : (k : ℕ) → flag (set flags j false) k ≡ true → k ≢ j
    others k before here =
        let marked : flag (set flags j false) k ≡ false =
          subst (λ n. flag (set flags j false) n ≡ false) (sym here)
            (get_or-set_self flags j false false room) in
        cc (before, marked)

    spared : (k : ℕ) → k ≢ j → ((m : ℕ) → k ≢ (j + i) + m * i) → (m : ℕ) → k ≢ j + m * i
    spared k other later zero q = other (grind (arith, q))
    spared k other later (suc m) q = later m (grind (arith, q))

pub cross_out_lem :
    (fuel limit i j : ℕ) (flags : List Bool)
    → 0 < i
    → 0 < fuel
    → limit + 1 < j + fuel
    → length flags ≡ limit + 1
    → (flags' : List Bool) × (cross_out fuel limit i j flags ≡ some flags')
      × IsCrossed limit i j flags flags'
unfolding cross_out
cross_out_lem zero limit i j flags pos run enough len = absurd (omega arith)
cross_out_lem (suc fuel) limit i j flags pos run enough len = elim (Bool-cases (ltb limit j)) [
  | inl past ↦ (flags, rw (past) refl, IsCrossed-past limit i j flags (ltb→lt limit j past))
  | inr more ↦
      let le : j ≤ limit = ltb→ge limit j more in
      let room : j < length flags = omega (arith, le, len) in
      let (flags', runs, x) =
        cross_out_lem fuel limit i (j + i) (set flags j false) pos (omega (arith, enough, le))
          (omega (arith, enough)) (length-set flags j false ∙ len) in
      (
        flags',
        rw (more, store_lem flags j false room) runs,
        IsCrossed-step limit i j flags flags' room x,
      )
]
