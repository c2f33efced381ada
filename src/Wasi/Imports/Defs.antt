-- ===== src/Wasi/Imports/Defs.antt =====
-- For the tests, a linker as a list of what was defined in it.
use Prim.Native.String.{String}
use text.Mathlib.Text.{◌==◌}
use wasmi_plugin_framework.Base.{
  ◌≡◌, refl, sym, Option, none, some, List, [], ◌∷◌, ◌&&◌, if◌then◌else◌,
}
use wasmi_plugin_framework.Wasi.Imports.{FuncLinker}

abbrev pub Defs : Type 0 → Type 0
Defs C = List (String × String × C)

module _ {C : Type 0} where
  abbrev lookup : Defs C → String → String → Option C
  lookup [] m n = none
  lookup ((m', n', f) ∷ l) m n = if (m' == m) && (n' == n) then some f else lookup l m n

  abbrev define_in : Option C → Defs C → String → String → C → Option (Defs C)
  define_in none l m n f = some ((m, n, f) ∷ l)
  define_in (some g) l m n f = none

  abbrev is_defined :
      (o : Option C) (l l' : Defs C) (m n : String) (f : C)
      → define_in o l m n f ≡ some l'
      → l' ≡ ((m, n, f) ∷ l)
  is_defined none l l' m n f e = sym (cc e)
  is_defined (some g) l l' m n f e = absurd (cc e)

  instance abbrev pub defs_linker : FuncLinker (Defs C) C
  defs_linker = record {
    func_wrap = λ l m n f. define_in (lookup l m n) l m n f;
    get = lookup;
    func_wrap_new = λ l m n f e. ((m, n, f) ∷ l, rw (e) refl);
    get-func_wrap = λ l l' m n f m' n' e. rw (is_defined (lookup l m n) l l' m n f e) refl;
  }
