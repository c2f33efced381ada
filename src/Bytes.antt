-- ===== src/Bytes.antt =====
-- The little-endian codes of the fixed-width integers: Rust's `to_le_bytes` and `from_le_bytes`,
-- which crates/wasmi-plugin-hdk/src/wasi/wasi_ctx.rs applies to u16, u32 and u64.
use wasmi_plugin_framework.Base.{
  ℕ, zero, suc, ◌+◌, ◌*◌, ◌/◌, ◌%◌, ◌^◌, ◌<◌, ◌≡◌, refl, ap, List, [], ◌∷◌, length, arith,
}
use native.Mathlib.Nat.{pow-suc}

abbrev pub Bytes : Type 0
Bytes = List ℕ

-- The `k` low bytes of `n`, lowest first.
unfoldable pub to_le : ℕ → ℕ → Bytes
to_le zero n = []
to_le (suc k) n = (n % 256) ∷ to_le k (n / 256)

unfoldable pub from_le : Bytes → ℕ
from_le [] = 0
from_le (b ∷ bs) = b + 256 * from_le bs

pub length-to_le : (k n : ℕ) → length (to_le k n) ≡ k
unfolding to_le
length-to_le zero n = refl
length-to_le (suc k) n = ap suc (length-to_le k (n / 256))

pub from_le-to_le : (k n : ℕ) → n < 256 ^ k → from_le (to_le k n) ≡ n
unfolding to_le from_le
from_le-to_le zero n h = omega arith
from_le-to_le (suc k) n h =
    let q : n / 256 < 256 ^ k = omega (arith, pow-suc 256 k) in
    omega (arith, from_le-to_le k (n / 256) q)
