-- ===== src/Wasi/Imports/Table.antt =====
-- What a guest finds in the linker.
use Prim.Native.String.{String}
use text.Mathlib.Text.{◌==◌}
use text.Mathlib.TextEquality.{eq_iff}
use text.Mathlib.TextPositions.{eq_refl}
use wasmi_plugin_framework.Base.{
  ◌≡◌, refl, ap, ◌∙◌, subst, Bool, true, false, not, Option, none, some, List, [], ◌∷◌, ◌&&◌, ◌||◌,
  if◌then◌else◌, arith, Bool-cases, inl, inr,
}
use wasmi_plugin_framework.Wasi.Imports.{
  FuncLinker, WasiCalls, wasi_module, imports, wrap_all, add_to_linker,
}

module _ {C : Type 0} where
  -- The function under a name.
  unfoldable pub find : String → List (String × C) → Option C
  find name [] = none
  find name ((n, c) ∷ rest) = if n == name then some c else find name rest

  unfoldable pub has : String → List (String × C) → Bool
  has name [] = false
  has name ((n, c) ∷ rest) = (n == name) || has name rest

  pub is_distinct : List (String × C) → Bool
  unfolding has
  is_distinct [] = true
  is_distinct ((n, c) ∷ rest) = not (has n rest) && is_distinct rest

  find-has : (name : String) (cs : List (String × C)) → has name cs ≡ false → find name cs ≡ none
  unfolding has find
  find-has name [] h = refl
  find-has name ((n, c) ∷ rest) h = ground (arith, find-has name rest)

  -- A table, in front of what the linker has.
  abbrev pub in_front : Option C → Option C → Option C
  in_front none other = other
  in_front (some c) other = some c

  in_front-none : (o other : Option C) → other ≡ none → in_front o other ≡ o
  in_front-none none other e = e
  in_front-none (some c) other e = refl

  imports-is_distinct : (calls : WasiCalls C) → is_distinct (imports calls) ≡ true
  unfolding is_distinct has
  imports-is_distinct calls = refl

module _ {L C : Type 0} ⦃funcs : FuncLinker L C⦄ where
  wrap_all_lem :
      (cs : List (String × C)) (l : L)
      → is_distinct cs ≡ true
      → ((n : String) → has n cs ≡ true → funcs.get l wasi_module n ≡ none)
      → (l' : L) × (wrap_all cs l ≡ some l')
        × ((n : String)
            → funcs.get l' wasi_module n ≡ in_front (find n cs) (funcs.get l wasi_module n))
        × ((m n : String) → (wasi_module == m) ≡ false → funcs.get l' m n ≡ funcs.get l m n)
  unfolding wrap_all is_distinct has find
  wrap_all_lem [] l d free = (l, refl, λ n. refl, λ m n e. refl)
  wrap_all_lem ((name, c) ∷ rest) l d free =
      let (l1, wraps) =
        funcs.func_wrap_new l wasi_module name c (free name (rw (eq_refl name) refl)) in
      let others : has name rest ≡ false = ground (arith, d) in
      let looked : (n : String)
          → funcs.get l1 wasi_module n ≡ (if name == n then some c else funcs.get l wasi_module n) =
        λ n. funcs.get-func_wrap l l1 wasi_module name c wasi_module n wraps in
      let (l', runs, inside, outside) =
        wrap_all_lem rest l1 (ground (arith, d))
          (λ n h. looked n ∙ still_free n h others (free n)) in
      (
        l',
        rw (wraps) runs,
        (λ n. inside n ∙ ap (in_front (find n rest)) (looked n) ∙ put_in_front n others),
        (λ m n e.
            outside m n e ∙ funcs.get-func_wrap l l1 wasi_module name c m n wraps ∙ rw (e) refl),
      )
    where
      same_name : (n : String) → (name == n) ≡ true → has name rest ≡ false → has n rest ≡ false
      same_name n e h = subst (λ x. has x rest ≡ false) ((eq_iff name n).0 e) h

      still_free :
          (n : String)
          → has n rest ≡ true
          → has name rest ≡ false
          → (((name == n) || has n rest) ≡ true → funcs.get l wasi_module n ≡ none)
          → (if name == n then some c else funcs.get l wasi_module n) ≡ none
      still_free n h others was_free = elim (Bool-cases (name == n)) [
        | inl e ↦ cc (h, same_name n e others)
        | inr e ↦ rw (e) (was_free (rw (e) h))
      ]

      put_in_front :
          (n : String)
          → has name rest ≡ false
          → in_front (find n rest) (if name == n then some c else funcs.get l wasi_module n)
            ≡ in_front (if name == n then some c else find n rest) (funcs.get l wasi_module n)
      put_in_front n others = elim (Bool-cases (name == n)) [
        | inl e ↦ rw (e, find-has n rest (same_name n e others)) refl
        | inr e ↦ rw (e) refl
      ]

  -- In a linker that has none of the WASI calls, `add_to_linker` succeeds. The WASI module then has the
  -- call of each of the fourteen names and of no other name, and other modules are as they were.
  pub add_to_linker_lem :
      (calls : WasiCalls C) (l : L)
      → ((n : String) → funcs.get l wasi_module n ≡ none)
      → (l' : L) × (add_to_linker calls l ≡ some l')
        × ((m n : String)
            → funcs.get l' m n
              ≡ (if wasi_module == m then find n (imports calls) else funcs.get l m n))
  unfolding add_to_linker
  add_to_linker_lem calls l free =
      let (l', runs, inside, outside) =
        wrap_all_lem (imports calls) l (imports-is_distinct calls) (λ n h. free n) in
      (
        l',
        runs,
        λ m n. elim (Bool-cases (wasi_module == m)) [
          | inl e ↦ rw (e) (
              subst (λ x. funcs.get l' x n ≡ find n (imports calls)) ((eq_iff wasi_module m).0 e)
                (inside n ∙ in_front-none (find n (imports calls)) _ (free n)))
          | inr e ↦ rw (e) (outside m n e)
        ],
      )
