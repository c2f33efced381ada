-- ===== src/TestPlugin/Sieve/Tests.antt =====
-- The primes up to 30.
use wasmi_plugin_framework.Base.{ℕ, ◌≡◌, refl, some, List, [], ◌∷◌, arith}
use wasmi_plugin_framework.TestPlugin.Sieve.{sieve_of_eratosthenes}
use wasmi_plugin_framework.TestPlugin.Sieve.Correct.{IsPrimesUpTo, sieve_of_eratosthenes_lem}

up_to_30 :
    sieve_of_eratosthenes (λ n. 5) 30 ≡ some (2 ∷ 3 ∷ 5 ∷ 7 ∷ 11 ∷ 13 ∷ 17 ∷ 19 ∷ 23 ∷ 29 ∷ [])
unfolding sieve_of_eratosthenes
up_to_30 = refl

sieve_of_eratosthenes_lem_example :
    (ps : List ℕ) × (sieve_of_eratosthenes (λ n. 5) 30 ≡ some ps) × IsPrimesUpTo 30 ps
sieve_of_eratosthenes_lem_example =
    sieve_of_eratosthenes_lem (λ n. 5) 30 (omega arith) (omega arith) (omega arith)
