-- ===== src/Wasi/Args/Sizes.antt =====
-- `args_sizes_get` and `environ_sizes_get` tell the guest the sizes that `args_get` and `env_get`
-- need.
use wasmi_plugin_framework.Base.{
  ℕ, ◌+◌, ◌%◌, ◌^◌, ◌≤◌, ◌<◌, ◌≡◌, refl, ◌∙◌, subst, sym, some, List, [], ◌∷◌, ◌++◌, length, arith,
  length-append,
}
use wasmi_plugin_framework.Bytes.{Bytes, to_le, length-to_le}
use native.Mathlib.Nat.{mod-eq_of_lt}
use wasmi_plugin_framework.Memory.{GuestMemory}
use wasmi_plugin_framework.Wasi.Context.{success}
use wasmi_plugin_framework.Wasi.Caller.{Caller, returned, finish}
use wasmi_plugin_framework.Wasi.Args.{block_len, write_sizes, args_sizes_get, env_sizes_get}
use wasmi_plugin_framework.Wasi.Args.Strings.{block, Apart}

-- The u32 sum is the true length where that is below 2 ^ 32.
pub block_len-block :
    (ss : List Bytes) → length (block ss) < 2 ^ 32 → block_len ss ≡ length (block ss)
unfolding block_len
block_len-block [] h = refl
block_len-block (s ∷ ss) h =
    let len = length-append s (0 ∷ []) in
    let more = length-append (s ++ (0 ∷ [])) (block ss) in
    let ih : block_len ss ≡ length (block ss) = block_len-block ss (omega (arith, len, more)) in
    omega (arith, len, more)

module _ {M : Type 0} ⦃mem : GuestMemory M⦄ where
  -- `m'` is `m` but for the two counts of `ss`.
  pub record IsCounted (m m' : M) (offset0 offset1 : ℕ) (ss : List Bytes) : Type 0 where
    pub same_size : mem.size m' ≡ mem.size m
    pub count : mem.read m' offset0 4 ≡ some (to_le 4 (length ss))
    pub bytes : mem.read m' offset1 4 ≡ some (to_le 4 (length (block ss)))

  read_word :
      (m : M) (off n : ℕ) (m' : M)
      → mem.write m off (to_le 4 n) ≡ some m'
      → mem.read m' off 4 ≡ some (to_le 4 n)
  read_word m off n m' e =
      subst (λ k. mem.read m' off k ≡ some (to_le 4 n)) (length-to_le 4 n)
        (mem.read-write_self m off (to_le 4 n) m' e)

  pub write_word :
      (m : M) (off n : ℕ)
      → off + 4 ≤ mem.size m
      → (m' : M) × (mem.write m off (to_le 4 n) ≡ some m')
  write_word m off n h = mem.write_in m off (to_le 4 n) (omega (arith, length-to_le 4 n))

  counted :
      (m m1 m2 : M) (offset0 offset1 : ℕ) (ss : List Bytes)
      → Apart offset0 4 offset1 4
      → mem.write m offset0 (to_le 4 (length ss)) ≡ some m1
      → mem.write m1 offset1 (to_le 4 (length (block ss))) ≡ some m2
      → IsCounted m m2 offset0 offset1 ss
  counted m m1 m2 offset0 offset1 ss apart e1 e2 = record {
    same_size = mem.size-write m1 offset1 _ m2 e2 ∙ mem.size-write m offset0 _ m1 e1;
    count =
        mem.read-write_apart m1 offset1 (to_le 4 (length (block ss))) m2 offset0 4 e2
          (subst (λ k. Apart offset0 4 offset1 k) (sym (length-to_le 4 (length (block ss)))) apart)
        ∙ read_word m offset0 (length ss) m1 e1;
    bytes = read_word m1 offset1 (length (block ss)) m2 e2;
  }

module _ {M R W : Type 0} ⦃mem : GuestMemory M⦄ where
  write_sizes_run :
      (ss : List Bytes) (c : Caller M R W) (m m1 m2 : M) (offset0 offset1 : ℕ)
      → c.memory ≡ some m
      → mem.write m offset0 (to_le 4 (length ss % 2 ^ 32)) ≡ some m1
      → mem.write m1 offset1 (to_le 4 (block_len ss)) ≡ some m2
      → finish (write_sizes ss offset0 offset1 c) ≡ returned success (record c { memory = some m2 })
  write_sizes_run ss c m m1 m2 offset0 offset1 e e1 e2 = ground arith

  write_sizes_lem :
      (ss : List Bytes) (c : Caller M R W) (m : M) (offset0 offset1 : ℕ)
      → c.memory ≡ some m
      → offset0 + 4 ≤ mem.size m
      → offset1 + 4 ≤ mem.size m
      → Apart offset0 4 offset1 4
      → length ss < 2 ^ 32
      → length (block ss) < 2 ^ 32
      → (m' : M) × (finish (write_sizes ss offset0 offset1 c)
          ≡ returned success (record c { memory = some m' }))
        × IsCounted m m' offset0 offset1 ss
  write_sizes_lem ss c m offset0 offset1 e h0 h1 apart few short =
      first (write_word m offset0 (length ss) h0)
    where
      few_mod : length ss % 2 ^ 32 ≡ length ss
      few_mod = mod-eq_of_lt few

      Goal : Type 0
      Goal =
          (m' : M) × (finish (write_sizes ss offset0 offset1 c)
            ≡ returned success (record c { memory = some m' }))
          × IsCounted m m' offset0 offset1 ss

      second :
          (m1 : M)
          → mem.write m offset0 (to_le 4 (length ss)) ≡ some m1
          → (m2 : M) × (mem.write m1 offset1 (to_le 4 (length (block ss))) ≡ some m2)
          → Goal
      second m1 e1 (m2, e2) = (
        m2,
        write_sizes_run ss c m m1 m2 offset0 offset1 e (rw few_mod e1)
            (rw (block_len-block ss short) e2),
        counted m m1 m2 offset0 offset1 ss apart e1 e2,
      )

      first : (m1 : M) × (mem.write m offset0 (to_le 4 (length ss)) ≡ some m1) → Goal
      first (m1, e1) = second m1 e1 (
          write_word m1 offset1 (length (block ss))
            (omega (arith, mem.size-write m offset0 (to_le 4 (length ss)) m1 e1)))

  -- With room for two words apart from one another, and fewer than 2 ^ 32 arguments and bytes of
  -- them, `args_sizes_get` returns success, keeps the context, and stores the number of arguments
  -- and the length of the block that `args_get` writes.
  pub args_sizes_get_counts :
      (c : Caller M R W) (m : M) (offset0 offset1 : ℕ)
      → c.memory ≡ some m
      → offset0 + 4 ≤ mem.size m
      → offset1 + 4 ≤ mem.size m
      → Apart offset0 4 offset1 4
      → length c.ctx.args < 2 ^ 32
      → length (block c.ctx.args) < 2 ^ 32
      → (m' : M) × (args_sizes_get offset0 offset1 c
          ≡ returned success (record c { memory = some m' }))
        × IsCounted m m' offset0 offset1 c.ctx.args
  unfolding args_sizes_get
  args_sizes_get_counts c = write_sizes_lem c.ctx.args c

  -- With room for two words apart from one another, and fewer than 2 ^ 32 strings in the environment
  -- and bytes of them, `env_sizes_get` returns success, keeps the context, and stores the number of
  -- strings and the length of the block that `env_get` writes.
  env_sizes_get_counts :
      (c : Caller M R W) (m : M) (offset0 offset1 : ℕ)
      → c.memory ≡ some m
      → offset0 + 4 ≤ mem.size m
      → offset1 + 4 ≤ mem.size m
      → Apart offset0 4 offset1 4
      → length c.ctx.env < 2 ^ 32
      → length (block c.ctx.env) < 2 ^ 32
      → (m' : M) × (env_sizes_get offset0 offset1 c
          ≡ returned success (record c { memory = some m' }))
        × IsCounted m m' offset0 offset1 c.ctx.env
  unfolding env_sizes_get
  env_sizes_get_counts c = write_sizes_lem c.ctx.env c
