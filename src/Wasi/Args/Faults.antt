-- ===== src/Wasi/Args/Faults.antt =====
-- `args_get` and `environ_get` where memory is too small.
use wasmi_plugin_framework.Base.{
  ℕ, suc, ◌∙◌, ◌+◌, ◌*◌, ◌%◌, ◌^◌, ◌≤◌, ◌<◌, ◌≡◌, ◌≢◌, refl, ◌⊎◌, inl, inr, none, some, List, [],
  ◌∷◌, ◌++◌, length, arith, length-append,
}
use native.Mathlib.Decide.{dec_le}
use wasmi_plugin_framework.Bytes.{Bytes, to_le, length-to_le}
use wasmi_plugin_framework.Memory.{GuestMemory}
use wasmi_plugin_framework.Wasi.Context.{fault, Errno}
use wasmi_plugin_framework.Wasi.Caller.{Caller, Flow, next, leave, returned, finish}
use wasmi_plugin_framework.Wasi.Args.{
  write_strings, write_pointer_and_string, args_get, get_strings,
}
use wasmi_plugin_framework.Wasi.Args.Strings.{block}
use wasmi_plugin_framework.Wasi.Args.Layout.{write_pointer_and_string_lem, two_writes}
use wasmi_plugin_framework.Wasi.Args.Sizes.{write_word}

module _ {M R W : Type 0} ⦃mem : GuestMemory M⦄ where
  -- The call ends in `Fault`, with the context and the fuel of `c`.
  abbrev pub Faults : Caller M R W → Flow M R W Errno → Type 0
  Faults c flow =
      (c' : Caller M R W) × (flow ≡ leave fault c') × (c'.ctx ≡ c.ctx) × (c'.fuel ≡ c.fuel)

  no_table :
      (c : Caller M R W) (m : M) (t b : ℕ) (s : Bytes)
      → c.memory ≡ some m
      → mem.size m < t + 4
      → write_pointer_and_string t b s c ≡ next none c
  unfolding write_pointer_and_string
  no_table c m t b s e h =
      ground (arith, mem.write_out m t (to_le 4 (b % 2 ^ 32)), length-to_le 4 (b % 2 ^ 32))

  no_buffer :
      (c : Caller M R W) (m m1 : M) (t b : ℕ) (s : Bytes)
      → c.memory ≡ some m
      → mem.write m t (to_le 4 (b % 2 ^ 32)) ≡ some m1
      → mem.size m < b + (length s + 1)
      → write_pointer_and_string t b s c ≡ next none (record c { memory = some m1 })
  unfolding write_pointer_and_string
  no_buffer c m m1 t b s e e1 h = ground (
    arith,
    mem.size-write m t (to_le 4 (b % 2 ^ 32)) m1 e1,
    mem.write_out m1 b (s ++ (0 ∷ [])),
    length-append s (0 ∷ []),
  )

  fault_now :
      (s : Bytes) (ss : List Bytes) (c c' : Caller M R W) (t b : ℕ)
      → write_pointer_and_string t b s c ≡ next none c'
      → write_strings (s ∷ ss) t b c ≡ leave fault c'
  unfolding write_strings
  fault_now s ss c c' t b e = ground (arith, e)

  go_on :
      (s : Bytes) (ss : List Bytes) (c c' : Caller M R W) (t b t' b' : ℕ)
      → write_pointer_and_string t b s c ≡ next (some (t', b')) c'
      → write_strings (s ∷ ss) t b c ≡ write_strings ss t' b' c'
  unfolding write_strings
  go_on s ss c c' t b t' b' e = ground (arith, e)

  -- The first string does not fit, or it does and `rest` is about the others.
  first-Faults :
      (s : Bytes) (ss : List Bytes) (c : Caller M R W) (m : M) (t b : ℕ)
      → c.memory ≡ some m
      → ((m2 : M)
          → t + 4 ≤ mem.size m
          → b + (length s + 1) ≤ mem.size m
          → mem.size m2 ≡ mem.size m
          → Faults c
              (write_strings ss (t + 4) (b + (length s + 1)) (record c { memory = some m2 })))
      → Faults c (write_strings (s ∷ ss) t b c)
  first-Faults s ss c m t b e rest = elim (dec_le (t + 4) (mem.size m)) [
    | no h ↦ (c, fault_now s ss c c t b (no_table c m t b s e (omega arith)), refl, refl)
    | yes ht ↦ elim (dec_le (b + (length s + 1)) (mem.size m)) [
      | no h ↦
          let (m1, e1) = write_word m t (b % 2 ^ 32) ht in
          let c' : Caller M R W = record c { memory = some m1 } in
          (c', fault_now s ss c c' t b (no_buffer c m m1 t b s e e1 (omega arith)), refl, refl)
      | yes hb ↦
          let (m1, m2, e1, e2, same) = two_writes m t b s ht hb in
          let run = write_pointer_and_string_lem c m m1 m2 t b s e ht hb e1 e2 in
          let (c', faults, ctx, fuel) = rest m2 ht hb same in
          (c', go_on s ss c (record c { memory = some m2 }) t b _ _ run ∙ faults, ctx, fuel)
    ]
  ]

  write_strings-Faults :
      (ss : List Bytes) (c : Caller M R W) (m : M) (t b : ℕ)
      → c.memory ≡ some m
      → (ss ≡ [] → (t ≤ mem.size m) × (b ≤ mem.size m))
      → (mem.size m < t + 4 * length ss) ⊎ (mem.size m < b + length (block ss))
      → Faults c (write_strings ss t b c)
  write_strings-Faults [] c m t b e start (inl h) = let p = start refl in absurd (omega arith)
  write_strings-Faults [] c m t b e start (inr h) = let p = start refl in absurd (omega arith)
  write_strings-Faults (s ∷ ss) c m t b e start h = first-Faults s ss c m t b e λ m2 ht hb same.
      write_strings-Faults ss (record c { memory = some m2 }) m2 (t + 4) (b + (length s + 1)) refl
        (λ _. (omega arith, omega arith)) (shorter m2 same h)
    where
      shorter :
          (m2 : M)
          → mem.size m2 ≡ mem.size m
          → (mem.size m < t + 4 * suc (length ss)) ⊎ (mem.size m < b + length (block (s ∷ ss)))
          → (mem.size m2 < t + 4 + 4 * length ss)
            ⊎ (mem.size m2 < b + (length s + 1) + length (block ss))
      shorter m2 same (inl p) = inl (omega arith)
      shorter m2 same (inr p) =
          inr (omega (arith, length-append s (0 ∷ []), length-append (s ++ (0 ∷ [])) (block ss)))

  -- With an argument at least, and memory that ends before the table or the block does, `args_get`
  -- returns `Fault`, and leaves the context and the fuel as they were.
  pub args_get_faults :
      (c : Caller M R W) (m : M) (argv argv_buf : ℕ)
      → c.memory ≡ some m
      → c.ctx.args ≢ []
      → (mem.size m < argv + 4 * length c.ctx.args)
        ⊎ (mem.size m < argv_buf + length (block c.ctx.args))
      → (c' : Caller M R W) × (args_get argv argv_buf c ≡ returned fault c')
        × (c'.ctx ≡ c.ctx)
        × (c'.fuel ≡ c.fuel)
  unfolding args_get
  args_get_faults c m argv argv_buf e some_arg h =
      let (c', faults, ctx, fuel) =
        write_strings-Faults c.ctx.args c m argv argv_buf e
          (λ none_left. absurd (some_arg none_left)) h in
      (c', end c c' m argv argv_buf e faults, ctx, fuel)
    where
      end :
          (c c' : Caller M R W) (m : M) (t b : ℕ)
          → c.memory ≡ some m
          → write_strings c.ctx.args t b c ≡ leave fault c'
          → finish (get_strings c.ctx.args t b c) ≡ returned fault c'
      end c c' m t b e faults = ground (arith, faults)
