-- ===== src/TestPlugin/Sieve.antt =====
-- `sieve_of_eratosthenes`. `none` is a panic, on an index out of range or a table that is too large, or
-- the end of the fuel. A plugin is a 32-bit program, so a usize has 32 bits.
-- `isqrt` stands for `(limit as f64).sqrt() as usize`.
pub mod Marks
pub mod Primes
pub mod Correct
mod Tests
use wasmi_plugin_framework.Base.{
  ℕ, zero, suc, ◌+◌, ◌-◌, ◌*◌, ◌%◌, ◌^◌, Bool, true, false, Option, none, some, List, [], ◌∷◌,
  length, ltb, get_elem?, set, replicate, if◌then◌else◌,
}

infixl 5 ◌>>=◌
abbrev pub ◌>>=◌ : {A B : Type 0} → Option A → (A → Option B) → Option B
none >>= k = none
some a >>= k = k a

-- `is_prime[i] = b`
abbrev pub store : List Bool → ℕ → Bool → Option (List Bool)
store flags i b = if ltb i (length flags) then some (set flags i b) else none

-- `for j in (j..=limit).step_by(i)`, each round of which adds to `j`.
pub cross_out : ℕ → ℕ → ℕ → ℕ → List Bool → Option (List Bool)
cross_out zero limit i j flags = none
cross_out (suc fuel) limit i j flags =
    let rest = store flags j false >>= cross_out fuel limit i (j + i) in
    if ltb limit j then some flags else rest

-- The body of the outer loop, on `is_prime[i]`.
abbrev pub strike : Bool → ℕ → ℕ → List Bool → Option (List Bool)
strike true limit i flags = cross_out (limit + 2) limit i (i * i) flags
strike false limit i flags = some flags

-- The rounds that are left, and the round's number.
pub strike_all : ℕ → ℕ → ℕ → List Bool → Option (List Bool)
unfolding cross_out
strike_all zero i limit flags = some flags
strike_all (suc rounds) i limit flags = get_elem? flags i >>= λ b.
    strike b limit i flags >>= λ flags'. strike_all rounds (i + 1) limit flags'

-- `filter(|&i| is_prime[i]).collect()`
pub collect : ℕ → ℕ → List Bool → Option (List ℕ)
collect zero i flags = some []
collect (suc rounds) i flags = get_elem? flags i >>= λ b.
    collect rounds (i + 1) flags >>= λ rest. some (if b then i ∷ rest else rest)

-- `vec![true; limit + 1]`, which panics beyond `isize::MAX` bytes.
abbrev pub table : ℕ → Option (List Bool)
table limit = if ltb (limit + 1) (2 ^ 31) then some (replicate (limit + 1) true) else none

pub sieve_of_eratosthenes : (ℕ → ℕ) → ℕ → Option (List ℕ)
unfolding strike_all collect
sieve_of_eratosthenes isqrt limit =
    if ltb limit 2
    then some []
    else (table limit >>= λ flags. store flags 0 false >>= λ flags0.
        store flags0 1 false >>= λ flags1.
        strike_all (isqrt limit - 1) 2 limit flags1 >>= λ flags2. collect (limit - 1) 2 flags2)

-- `prime_sieve`, the handler: `summary` builds the JSON object of the count and the limit.
pub prime_sieve : {V : Type 0} → (ℕ → ℕ → V) → (ℕ → ℕ) → ℕ → Option V
unfolding sieve_of_eratosthenes
prime_sieve summary isqrt limit =
    let limit' = limit % 2 ^ 32 in
    sieve_of_eratosthenes isqrt limit' >>= λ primes. some (summary (length primes) limit')
