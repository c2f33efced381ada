-- ===== src/Wasi/System/Tests.antt =====
-- The clock and the entropy of a small guest.
use wasmi_plugin_framework.Base.{
  ◌≡◌, ◌≢◌, refl, some, [], ◌∷◌, length, replicate, arith, pos, negsuc,
}
use wasmi_plugin_framework.Bytes.{Bytes, from_le}
use wasmi_plugin_framework.Pipe.{Inner}
use wasmi_plugin_framework.Memory.Linear.{Linear, linear_memory}
use wasmi_plugin_framework.Memory.Slices.{IsStored}
use wasmi_plugin_framework.Wasi.Context.{success, new}
use wasmi_plugin_framework.Wasi.Caller.{Caller, returned, panicked}
use wasmi_plugin_framework.Wasi.Guest.{caller, two_vectors}
use wasmi_plugin_framework.Wasi.System.{clock_time_get, random_get}
use wasmi_plugin_framework.Wasi.System.Results.{
  random_get_fills, random_get_panics, clock_time_get_tells,
}

abbrev guest : Caller Linear Inner Inner
guest = caller new two_vectors

random_get_fills_example :
    (m' : Linear) × (random_get (λ n. some (replicate n 7)) (pos 40) (pos 3) guest
      ≡ returned success (record guest { memory = some m' }))
    × IsStored two_vectors m' 40 (7 ∷ 7 ∷ 7 ∷ [])
random_get_fills_example =
    random_get_fills (λ n. some (replicate n 7)) 40 3 guest two_vectors (7 ∷ 7 ∷ 7 ∷ []) refl refl
      refl (omega arith)

random_get_panics_example :
    (random_get (λ n. some (replicate n 7)) (pos 40) (negsuc 0) guest ≡ panicked)
    × (random_get (λ n. some (replicate n 7)) (pos 40) (pos 0) guest ≢ panicked)
random_get_panics_example =
    random_get_panics (λ n. some (replicate n 7)) (pos 40) 0 guest two_vectors refl (omega arith)

clock_time_get_tells_example :
    (m' : Linear) × (bs : Bytes) × (clock_time_get (some 1700000000) (pos 1) (pos 48) guest
      ≡ returned success (record guest { memory = some m' }))
    × (from_le bs ≡ 1700000000)
    × (length bs ≡ 8)
    × IsStored two_vectors m' 48 bs
clock_time_get_tells_example =
    clock_time_get_tells 1700000000 1 48 guest two_vectors refl (omega arith) (omega arith)
      (omega arith)
