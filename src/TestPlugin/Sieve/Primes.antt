-- ===== src/TestPlugin/Sieve/Primes.antt =====
-- The numbers that the sieve returns are the primes.
use native.Mathlib.Decide.{ℕ_discrete}
use wasmi_plugin_framework.Base.{
  ℕ, zero, suc, ◌+◌, ◌-◌, ◌*◌, ◌≤◌, ◌<◌, ◌≡◌, ◌≢◌, refl, ap, ◌∙◌, subst, ◌⊎◌, inl, inr, Bool, true,
  false, some, List, length, ltb, ltb→lt, ltb→ge, arith, set, Bool-cases, length-set,
  get_or-set_self, get_or-set_ne, get_elem?-eq-get_or, replicate, length-replicate,
  get_or-replicate,
}
use wasmi_plugin_framework.TestPlugin.Sieve.{strike, strike_all}
use wasmi_plugin_framework.TestPlugin.Sieve.Marks.{flag, IsCrossed, cross_out_lem}

-- A product of two numbers that are not 0 or 1, the first below `i`.
abbrev pub HasFactor : ℕ → ℕ → Type 0
HasFactor i k = (d m : ℕ) × (2 ≤ d) × (d < i) × (2 ≤ m) × (k ≡ d * m)

-- The table before the round of `i`: the numbers with a factor below `i` are struck.
pub record IsStruck (limit i : ℕ) (flags : List Bool) : Type 0 where
  pub sized : length flags ≡ limit + 1
  pub left : (k : ℕ) → k ≤ limit → flag flags k ≡ true → (2 ≤ k) × (HasFactor i k → ⊥)
  pub gone : (k : ℕ) → k ≤ limit → flag flags k ≡ false → (k < 2) ⊎ HasFactor i k

HasFactor-next : (i k : ℕ) → HasFactor i k → HasFactor (i + 1) k
HasFactor-next i k (d, m, hd, lt, hm, e) = (d, m, hd, omega (arith, lt), hm, e)

-- A factor `i` of `k` with a cofactor below `i` is the cofactor of a smaller one.
smaller : (i k m : ℕ) → 2 ≤ i → 2 ≤ m → m < i → k ≡ i * m → HasFactor i k
smaller i k m hi hm lt e = (m, i, hm, lt, hi, grind (arith, e))

strike_true-IsStruck :
    (limit i : ℕ) (flags flags' : List Bool)
    → 2 ≤ i
    → IsStruck limit i flags
    → IsCrossed limit i (i * i) flags flags'
    → IsStruck limit (i + 1) flags'
strike_true-IsStruck limit i flags flags' two s x = record {
  sized = x.same ∙ s.sized;
  left = λ k h e.
      let (before, later) = x.kept k h e in
      let (big, free) = s.left k h before in (big, λ f. remains k free later f);
  gone = λ k h e. elim (x.crossed k h e) [
    | inl before ↦ elim (s.gone k h before) [
      | inl small ↦ inl small
      | inr f ↦ inr (HasFactor-next i k f)
    ]
    | inr (m, q) ↦ inr (i, i + m, two, omega arith, omega arith, grind (arith, q))
  ];
}
  where
    shifted : (k n : ℕ) → k ≡ i * (i + n) → k ≡ i * i + n * i
    shifted k n e = grind (arith, e)

    remains :
        (k : ℕ) → (HasFactor i k → ⊥) → ((m : ℕ) → k ≢ i * i + m * i) → HasFactor (i + 1) k → ⊥
    remains k free later (d, m, hd, lt, hm, e) = elim (ℕ_discrete d i) [
      | no other ↦ free (d, m, hd, omega (arith, lt, other), hm, e)
      | yes same ↦ elim (Bool-cases (ltb m i)) [
        | inl small ↦ free (smaller i k m two hm (ltb→lt m i small) (grind (arith, e, same)))
        | inr large ↦
            let le : i ≤ m = ltb→ge m i large in
            let whole : m ≡ i + (m - i) = omega (arith, le) in
            later (m - i)
              (shifted k (m - i) (subst (λ n. k ≡ n * m) same e ∙ ap (λ n. i * n) whole))
      ]
    ]

strike_false-IsStruck :
    (limit i : ℕ) (flags : List Bool)
    → 2 ≤ i
    → i ≤ limit
    → flag flags i ≡ false
    → IsStruck limit i flags
    → IsStruck limit (i + 1) flags
strike_false-IsStruck limit i flags two le off s = record {
  sized = s.sized;
  left = λ k h e. let (big, free) = s.left k h e in (big, λ f. remains k free f (s.gone i le off));
  gone =
      λ k h e. elim (s.gone k h e) [ inl small ↦ inl small | inr f ↦ inr (HasFactor-next i k f) ];
}
  where
    regrouped : (k a b c : ℕ) → k ≡ (a * b) * c → k ≡ a * (b * c)
    regrouped k a b c e = grind (arith, e)

    remains : (k : ℕ) → (HasFactor i k → ⊥) → HasFactor (i + 1) k → (i < 2) ⊎ HasFactor i i → ⊥
    remains k free f (inl small) = omega arith
    remains k free (d, m, hd, lt, hm, e) (inr (d', m', hd', lt', hm', e')) = elim (ℕ_discrete d i) [
      | no other ↦ free (d, m, hd, omega (arith, lt, other), hm, e)
      | yes same ↦ free (
        d',
        m' * m,
        hd',
        lt',
        grind (arith, hm, hm'),
        regrouped k d' m' m (e ∙ ap (λ n. n * m) (same ∙ e')),
      )
    ]

strike_lem :
    (b : Bool) (limit i : ℕ) (flags : List Bool)
    → 2 ≤ i
    → i ≤ limit
    → flag flags i ≡ b
    → IsStruck limit i flags
    → (flags' : List Bool) × (strike b limit i flags ≡ some flags') × IsStruck limit (i + 1) flags'
strike_lem true limit i flags two le on s =
    let (flags', runs, x) =
      cross_out_lem (limit + 2) limit i (i * i) flags (omega arith) (omega arith) (omega arith)
        s.sized in
    (flags', runs, strike_true-IsStruck limit i flags flags' two s x)
strike_lem false limit i flags two le off s =
    (flags, refl, strike_false-IsStruck limit i flags two le off s)

pub strike_all_lem :
    (rounds i limit : ℕ) (flags : List Bool)
    → 2 ≤ i
    → i + rounds ≤ limit + 1
    → IsStruck limit i flags
    → (flags' : List Bool) × (strike_all rounds i limit flags ≡ some flags')
      × IsStruck limit (i + rounds) flags'
unfolding strike_all
strike_all_lem zero i limit flags two end s =
    (flags, refl, subst (λ n. IsStruck limit n flags) (omega arith) s)
strike_all_lem (suc rounds) i limit flags two end s =
    let found = get_elem?-eq-get_or flags i false (omega (arith, s.sized)) in
    let (flags1, run1, s1) = strike_lem (flag flags i) limit i flags two (omega arith) refl s in
    let (flags', run2, s') =
      strike_all_lem rounds (i + 1) limit flags1 (omega arith) (omega arith) s1 in
    (flags', rw (found, run1) run2, subst (λ n. IsStruck limit n flags') (omega arith) s')

-- `is_prime` before the loops.
abbrev pub started : ℕ → List Bool
started limit = set (set (replicate (limit + 1) true) 0 false) 1 false

started-flag : (limit k : ℕ) → 2 ≤ k → k ≤ limit → flag (started limit) k ≡ true
started-flag limit k two le =
    get_or-set_ne (set (replicate (limit + 1) true) 0 false) 1 k false false (omega arith)
    ∙ get_or-set_ne (replicate (limit + 1) true) 0 k false false (omega arith)
    ∙ get_or-replicate (limit + 1) k true false (omega arith)

pub length-started : (limit : ℕ) → length (started limit) ≡ limit + 1
length-started limit =
    length-set (set (replicate (limit + 1) true) 0 false) 1 false
    ∙ length-set (replicate (limit + 1) true) 0 false
    ∙ length-replicate (limit + 1) true

pub started-IsStruck : (limit : ℕ) → 2 ≤ limit → IsStruck limit 2 (started limit)
started-IsStruck limit two = record {
  sized = length-started limit;
  left = λ k h e. (at_least k e, λ f. no_factor k f);
  gone = λ k h e. elim (Bool-cases (ltb k 2)) [
    | inl small ↦ inl (ltb→lt k 2 small)
    | inr large ↦ cc (e, started-flag limit k (ltb→ge k 2 large) h)
  ];
}
  where
    all : List Bool
    all = replicate (limit + 1) true

    no_factor : (k : ℕ) → HasFactor 2 k → ⊥
    no_factor k (d, m, hd, lt, hm, e) = omega arith

    at_least : (k : ℕ) → flag (started limit) k ≡ true → 2 ≤ k
    at_least zero e = cc (
      e,
      get_or-set_ne (set all 0 false) 1 0 false false (omega arith),
      get_or-set_self all 0 false false (omega (arith, length-replicate (limit + 1) true)),
    )
    at_least (suc zero) e = cc (
      e,
      get_or-set_self (set all 0 false) 1 false false
          (omega (arith, length-set all 0 false, length-replicate (limit + 1) true)),
    )
    at_least (suc (suc k)) e = omega arith
