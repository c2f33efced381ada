-- ===== src/TestPlugin/Sieve/Correct.antt =====
-- The list that the sieve returns.
use native.Mathlib.Decide.{ℕ_discrete}
use native.Mathlib.Nat.{mul_comm, mul-le-mul, le-mul_of_pos_right}
use wasmi_plugin_framework.Base.{
  ℕ, zero, suc, ◌+◌, ◌-◌, ◌*◌, ◌^◌, ◌≤◌, ◌<◌, ◌≡◌, ◌≢◌, refl, ap, ◌∙◌, subst, ◌⊎◌, inl, inr, Bool,
  true, false, some, List, [], ◌∷◌, length, ltb, ltb→lt, ltb→ge, lt→ltb, arith, set, Bool-cases,
  length-set, get_elem?-eq-get_or, length-replicate, replicate, All,
}
use wasmi_plugin_framework.TestPlugin.Sieve.{
  ◌>>=◌, store, strike_all, collect, sieve_of_eratosthenes,
}
use wasmi_plugin_framework.TestPlugin.Sieve.Marks.{flag, store_lem}
use wasmi_plugin_framework.TestPlugin.Sieve.Primes.{
  HasFactor, IsStruck, strike_all_lem, started, started-IsStruck,
}

-- 2 or more, and no product of two numbers from 2 on.
abbrev pub IsPrime : ℕ → Type 0
IsPrime k = (2 ≤ k) × ((d m : ℕ) → 2 ≤ d → 2 ≤ m → k ≢ d * m)

abbrev pub IsListed : ℕ → List ℕ → Type 0
IsListed k [] = ⊥
IsListed k (x ∷ xs) = (k ≡ x) ⊎ IsListed k xs

abbrev pub IsAscending : List ℕ → Type 0
IsAscending [] = Unit {0}
IsAscending (x ∷ xs) = All (λ y. x < y) xs × IsAscending xs

pub record IsPrimesUpTo (limit : ℕ) (ps : List ℕ) : Type 0 where
  pub sound : All (λ p. (p ≤ limit) × IsPrime p) ps
  pub complete : (k : ℕ) → k ≤ limit → IsPrime k → IsListed k ps
  pub ascending : IsAscending ps

-- The numbers from `i` on that are flagged.
record IsCollected (i end : ℕ) (flags : List Bool) (ps : List ℕ) : Type 0 where
  flagged : All (λ p. (i ≤ p) × (p < end) × (flag flags p ≡ true)) ps
  listed : (k : ℕ) → i ≤ k → k < end → flag flags k ≡ true → IsListed k ps
  sorted : IsAscending ps

All-map : {P Q : ℕ → Type 0} → ((n : ℕ) → P n → Q n) → (xs : List ℕ) → All P xs → All Q xs
All-map f [] h = tt
All-map f (x ∷ xs) h = (f x h.0, All-map f xs h.1)

-- The flags from `i + 1` on, and that of `i` before them.
module _ (i end : ℕ) (flags : List Bool) (ps : List ℕ) (c : IsCollected (i + 1) end flags ps) where
  later : All (λ p. (i ≤ p) × (p < end) × (flag flags p ≡ true)) ps
  later = All-map (λ p h. (omega (arith, h.0), h.1, h.2)) ps c.flagged

  IsCollected-on : i < end → flag flags i ≡ true → IsCollected i end flags (i ∷ ps)
  IsCollected-on lt on = record {
    flagged = ((omega arith, lt, on), later);
    listed = λ k lo hi e. elim (ℕ_discrete k i) [
      | yes same ↦ inl same
      | no other ↦ inr (c.listed k (omega (arith, other)) hi e)
    ];
    sorted = (All-map (λ p h. omega (arith, h.0)) ps c.flagged, c.sorted);
  }

  IsCollected-off : flag flags i ≡ false → IsCollected i end flags ps
  IsCollected-off off = record {
    flagged = later;
    listed = λ k lo hi e. elim (ℕ_discrete k i) [
      | yes same ↦ cc (ap (λ n. flag flags n) same, e, off)
      | no other ↦ c.listed k (omega (arith, other)) hi e
    ];
    sorted = c.sorted;
  }

collect_lem :
    (rounds i end : ℕ) (flags : List Bool)
    → i + rounds ≡ end
    → end ≤ length flags
    → (ps : List ℕ) × (collect rounds i flags ≡ some ps) × IsCollected i end flags ps
unfolding collect
collect_lem zero i end flags e room =
    ([], refl, record { flagged = tt; listed = λ k lo hi x. absurd (omega arith); sorted = tt })
collect_lem (suc rounds) i end flags e room =
    let (ps, runs, c) = collect_lem rounds (i + 1) end flags (omega arith) room in
    let found = get_elem?-eq-get_or flags i false (omega arith) in
    elim (Bool-cases (flag flags i)) [
      | inl on ↦
          (i ∷ ps, rw (found, runs, on) refl, IsCollected-on i end flags ps c (omega arith) on)
      | inr off ↦ (ps, rw (found, runs, off) refl, IsCollected-off i end flags ps c off)
    ]

-- With no factor up to the root, a number up to the limit is prime.
IsPrime-of_free :
    (limit root k : ℕ)
    → limit < (root + 1) * (root + 1)
    → k ≤ limit
    → 2 ≤ k
    → (HasFactor (root + 1) k → ⊥)
    → IsPrime k
IsPrime-of_free limit root k above le two free = (
  two,
  λ d m hd hm e. elim (Bool-cases (ltb d (root + 1))) [
    | inl small ↦ free (d, m, hd, ltb→lt d (root + 1) small, hm, e)
    | inr large ↦ elim (Bool-cases (ltb m (root + 1))) [
      | inl small ↦ free (m, d, hm, ltb→lt m (root + 1) small, hd, e ∙ mul_comm d m)
      | inr large' ↦
          omega (arith, e, mul-le-mul (ltb→ge d (root + 1) large) (ltb→ge m (root + 1) large'))
    ]
  ],
)

IsPrimesUpTo-collected :
    (limit root : ℕ) (flags : List Bool) (ps : List ℕ)
    → limit < (root + 1) * (root + 1)
    → IsStruck limit (root + 1) flags
    → IsCollected 2 (limit + 1) flags ps
    → IsPrimesUpTo limit ps
IsPrimesUpTo-collected limit root flags ps above s c = record {
  sound =
      All-map
        (λ p h.
          let (two, free) = s.left p (omega (arith, h.1)) h.2 in
          (omega (arith, h.1), IsPrime-of_free limit root p above (omega (arith, h.1)) two free))
        ps c.flagged;
  complete = λ k le prime. elim (Bool-cases (flag flags k)) [
    | inl on ↦ c.listed k prime.0 (omega arith) on
    | inr off ↦ absurd (struck k prime (s.gone k le off))
  ];
  ascending = c.sorted;
}
  where
    struck : (k : ℕ) → IsPrime k → (k < 2) ⊎ HasFactor (root + 1) k → ⊥
    struck k prime (inl small) = omega (arith, prime.0)
    struck k prime (inr (d, m, hd, lt, hm, e)) = prime.1 d m hd hm e

root_pos : (root limit : ℕ) → 2 ≤ limit → limit < (root + 1) * (root + 1) → 0 < root
root_pos zero limit two above = absurd (omega arith)
root_pos (suc root) limit two above = omega arith

root-le : (root limit : ℕ) → root * root ≤ limit → root ≤ limit
root-le zero limit below = omega arith
root-le (suc root) limit below =
    omega (arith, le-mul_of_pos_right {m = suc root} (suc root) (omega arith))

-- The part of the function for a limit of 2 at least.
table_lem :
    (root limit : ℕ)
    → 2 ≤ limit
    → root * root ≤ limit
    → limit < (root + 1) * (root + 1)
    → (ps : List ℕ) × ((strike_all (root - 1) 2 limit (started limit) >>= collect (limit - 1) 2)
        ≡ some ps)
      × IsPrimesUpTo limit ps
table_lem root limit two below above = struck (
    strike_all_lem (root - 1) 2 limit (started limit) (omega arith)
      (omega (arith, root-le root limit below)) (started-IsStruck limit two))
  where
    collected :
        (flags : List Bool)
        → strike_all (root - 1) 2 limit (started limit) ≡ some flags
        → IsStruck limit (root + 1) flags
        → (ps : List ℕ) × (collect (limit - 1) 2 flags ≡ some ps)
          × IsCollected 2 (limit + 1) flags ps
        → (ps : List ℕ) × ((strike_all (root - 1) 2 limit (started limit) >>= collect (limit - 1) 2)
            ≡ some ps)
          × IsPrimesUpTo limit ps
    collected flags run1 s (ps, run2, c) =
        (ps, rw (run1) run2, IsPrimesUpTo-collected limit root flags ps above s c)

    struck :
        (flags : List Bool) × (strike_all (root - 1) 2 limit (started limit) ≡ some flags)
          × IsStruck limit (2 + (root - 1)) flags
        → (ps : List ℕ) × ((strike_all (root - 1) 2 limit (started limit) >>= collect (limit - 1) 2)
            ≡ some ps)
          × IsPrimesUpTo limit ps
    struck (flags, run1, s) =
        collected flags run1
          (subst (λ n. IsStruck limit n flags) (omega (arith, root_pos root limit two above)) s)
          (collect_lem (limit - 1) 2 (limit + 1) flags (omega arith) (omega (arith, s.sized)))

-- Where the square root is rounded down, and the table fits the plugin's 32-bit address space, the sieve indexes its table within its bounds, ends, and
-- returns the primes up to the limit, all of them, in ascending order.
pub sieve_of_eratosthenes_lem :
    (isqrt : ℕ → ℕ) (limit : ℕ)
    → isqrt limit * isqrt limit ≤ limit
    → limit < (isqrt limit + 1) * (isqrt limit + 1)
    → limit + 1 < 2 ^ 31
    → (ps : List ℕ) × (sieve_of_eratosthenes isqrt limit ≡ some ps) × IsPrimesUpTo limit ps
unfolding sieve_of_eratosthenes
sieve_of_eratosthenes_lem isqrt limit below above room = elim (Bool-cases (ltb limit 2)) [
  | inl small ↦ ([], rw (small) refl, none_below (ltb→lt limit 2 small))
  | inr large ↦
      let two : 2 ≤ limit = ltb→ge limit 2 large in
      let (ps, runs, c) = table_lem (isqrt limit) limit two below above in
      (ps, rw (large, lt→ltb (limit + 1) (2 ^ 31) room, stored0, stored1 two) runs, c)
]
  where
    all : List Bool
    all = replicate (limit + 1) true

    stored0 : store all 0 false ≡ some (set all 0 false)
    stored0 = store_lem all 0 false (omega (arith, length-replicate (limit + 1) true))

    stored1 : 2 ≤ limit → store (set all 0 false) 1 false ≡ some (started limit)
    stored1 two =
        store_lem (set all 0 false) 1 false
          (omega (arith, length-set all 0 false, length-replicate (limit + 1) true))

    none_below : limit < 2 → IsPrimesUpTo limit []
    none_below small = record {
      sound = tt;
      complete = λ k le prime. omega (arith, prime.0);
      ascending = tt;
    }
