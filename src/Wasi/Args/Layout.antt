-- ===== src/Wasi/Args/Layout.antt =====
-- What `args_get` and `env_get` leave in guest memory, against the layout that WASI describes.
use wasmi_plugin_framework.Base.{
  ℕ, suc, ◌+◌, ◌*◌, ◌%◌, ◌^◌, ◌≤◌, ◌≡◌, refl, ◌∙◌, some, List, [], ◌∷◌, ◌++◌, length, arith,
  length-append,
}
use wasmi_plugin_framework.Bytes.{Bytes, to_le, length-to_le}
use wasmi_plugin_framework.Memory.{GuestMemory}
use wasmi_plugin_framework.Wasi.Context.{success}
use wasmi_plugin_framework.Wasi.Caller.{Caller, next, returned, finish}
use wasmi_plugin_framework.Wasi.Args.{
  get_strings, write_pointer_and_string, write_strings, args_get, env_get,
}
use wasmi_plugin_framework.Wasi.Args.Strings.{
  block, Apart, Apart-parts, IsLaid, IsLaid-nil, IsLaid-cons,
}

module _ {M : Type 0} ⦃mem : GuestMemory M⦄ where
  pub two_writes :
      (m : M) (t b : ℕ) (s : Bytes)
      → t + 4 ≤ mem.size m
      → b + (length s + 1) ≤ mem.size m
      → (m1 m2 : M) × (mem.write m t (to_le 4 (b % 2 ^ 32)) ≡ some m1)
        × (mem.write m1 b (s ++ (0 ∷ [])) ≡ some m2)
        × (mem.size m2 ≡ mem.size m)
  two_writes m t b s ht hb = second (mem.write_in m t (to_le 4 (b % 2 ^ 32)) room)
    where
      room : t + length (to_le 4 (b % 2 ^ 32)) ≤ mem.size m
      room = omega (arith, length-to_le 4 (b % 2 ^ 32))

      second :
          (m1 : M) × (mem.write m t (to_le 4 (b % 2 ^ 32)) ≡ some m1)
          → (m1 m2 : M) × (mem.write m t (to_le 4 (b % 2 ^ 32)) ≡ some m1)
            × (mem.write m1 b (s ++ (0 ∷ [])) ≡ some m2)
            × (mem.size m2 ≡ mem.size m)
      second (m1, e1) =
          let same : mem.size m1 ≡ mem.size m = mem.size-write m t _ m1 e1 in
          let (m2, e2) =
            mem.write_in m1 b (s ++ (0 ∷ [])) (omega (arith, length-append s (0 ∷ []))) in
          (m1, m2, e1, e2, mem.size-write m1 b _ m2 e2 ∙ same)

  module _ {R W : Type 0} where
    -- The store of one pointer and one string, where both fit.
    pub write_pointer_and_string_lem :
        (c : Caller M R W) (m m1 m2 : M) (t b : ℕ) (s : Bytes)
        → c.memory ≡ some m
        → t + 4 ≤ mem.size m
        → b + (length s + 1) ≤ mem.size m
        → mem.write m t (to_le 4 (b % 2 ^ 32)) ≡ some m1
        → mem.write m1 b (s ++ (0 ∷ [])) ≡ some m2
        → write_pointer_and_string t b s c
          ≡ next (some (t + 4, b + (length s + 1))) (record c { memory = some m2 })
    unfolding write_pointer_and_string
    write_pointer_and_string_lem c m m1 m2 t b s e ht hb e1 e2 = ground (arith, mem.size-le m)

-- `write_strings` succeeds on `ss` wherever the table and the block fit in memory and do not overlap,
-- and lays the strings out.
abbrev pub Lays : (M R W : Type 0) ⦃mem : GuestMemory M⦄ → List Bytes → Type 0
Lays M R W ⦃mem⦄ ss =
    (c : Caller M R W) (m : M) (t b : ℕ)
    → c.memory ≡ some m
    → t + 4 * length ss ≤ mem.size m
    → b + length (block ss) ≤ mem.size m
    → Apart t (4 * length ss) b (length (block ss))
    → (m' : M) × (write_strings ss t b c ≡ next success (record c { memory = some m' }))
      × IsLaid m m' t b ss

module _ {M R W : Type 0} ⦃mem : GuestMemory M⦄ where
  Lays-cons : (s : Bytes) (ss : List Bytes) → Lays M R W ss → Lays M R W (s ∷ ss)
  unfolding write_strings
  Lays-cons s ss rest c m t b e ht hb apart =
      let len = length-append s (0 ∷ []) in
      let more = length-append (s ++ (0 ∷ [])) (block ss) in
      step (two_writes m t b s (omega arith) (omega (arith, len, more)))
    where
      step :
          (m1 m2 : M) × (mem.write m t (to_le 4 (b % 2 ^ 32)) ≡ some m1)
            × (mem.write m1 b (s ++ (0 ∷ [])) ≡ some m2)
            × (mem.size m2 ≡ mem.size m)
          → (m' : M) × (write_strings (s ∷ ss) t b c ≡ next success (record c { memory = some m' }))
            × IsLaid m m' t b (s ∷ ss)
      step (m1, m2, e1, e2, same) =
          let len = length-append s (0 ∷ []) in
          let more = length-append (s ++ (0 ∷ [])) (block ss) in
          let (m', run, laid) =
            rest (record c { memory = some m2 }) m2 (t + 4) (b + (length s + 1)) refl (omega arith)
              (omega (arith, len, more))
              (Apart-parts t (4 * suc (length ss)) b (length (block (s ∷ ss))) (t + 4)
                (4 * length ss) (b + (length s + 1)) (length (block ss)) apart (omega arith)
                (omega arith) (omega arith) (omega (arith, len, more))) in
          (
            m',
            rw
                (write_pointer_and_string_lem c m m1 m2 t b s e (omega arith)
                  (omega (arith, len, more)) e1 e2)
                run,
            IsLaid-cons m m1 m2 m' t b s ss e1 e2 apart laid,
          )

  pub write_strings_lem : (ss : List Bytes) → Lays M R W ss
  write_strings_lem [] c m t b e ht hb apart = (
    m,
    unfold write_strings in λ i. next success (record c { memory = e i }),
    IsLaid-nil m t b (omega arith) (omega arith),
  )
  write_strings_lem (s ∷ ss) c m t b e ht hb apart =
      Lays-cons s ss (write_strings_lem ss) c m t b e ht hb apart

  get_strings_lem :
      (ss : List Bytes) (c : Caller M R W) (m : M) (t b : ℕ) {c' : Caller M R W}
      → c.memory ≡ some m
      → write_strings ss t b c ≡ next success c'
      → finish (get_strings ss t b c) ≡ returned success c'
  get_strings_lem ss c m t b e run = ground arith

  -- Where memory holds a table of a pointer for each argument and, apart from it, the block of
  -- NUL-terminated arguments, `args_get` returns success. It leaves the pointers at `argv`, the
  -- arguments at `argv_buf`, and every other byte of memory and all of the context as they were.
  pub args_get_lays :
      (c : Caller M R W) (m : M) (argv argv_buf : ℕ)
      → c.memory ≡ some m
      → argv + 4 * length c.ctx.args ≤ mem.size m
      → argv_buf + length (block c.ctx.args) ≤ mem.size m
      → Apart argv (4 * length c.ctx.args) argv_buf (length (block c.ctx.args))
      → (m' : M) × (args_get argv argv_buf c ≡ returned success (record c { memory = some m' }))
        × IsLaid m m' argv argv_buf c.ctx.args
  unfolding args_get
  args_get_lays c m argv argv_buf e ht hb apart =
      let (m', run, laid) = write_strings_lem c.ctx.args c m argv argv_buf e ht hb apart in
      (m', get_strings_lem _ c m argv argv_buf e run, laid)

  -- Where memory holds a table of a pointer for each `key=value` string of the environment and,
  -- apart from it, the block of those strings with a NUL behind each, `env_get` returns success. It
  -- leaves the pointers at `environ`, the strings at `environ_buf`, and every other byte of memory and
  -- all of the context as they were.
  env_get_lays :
      (c : Caller M R W) (m : M) (environ environ_buf : ℕ)
      → c.memory ≡ some m
      → environ + 4 * length c.ctx.env ≤ mem.size m
      → environ_buf + length (block c.ctx.env) ≤ mem.size m
      → Apart environ (4 * length c.ctx.env) environ_buf (length (block c.ctx.env))
      → (m' : M) × (env_get environ environ_buf c
          ≡ returned success (record c { memory = some m' }))
        × IsLaid m m' environ environ_buf c.ctx.env
  unfolding env_get
  env_get_lays c m environ environ_buf e ht hb apart =
      let (m', run, laid) = write_strings_lem c.ctx.env c m environ environ_buf e ht hb apart in
      (m', get_strings_lem _ c m environ environ_buf e run, laid)
