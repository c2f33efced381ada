-- ===== src/Wasi/Imports.antt =====
-- `add_to_linker`: the names under which a guest imports the calls. wasmi's linker is the interface
-- `FuncLinker`, and a host function of it is of type `C`.
pub mod Calls
pub mod Types
pub mod Table
pub mod Defs
mod Tests
use Prim.Native.String.{String}
use text.Mathlib.Text.{◌==◌}
use wasmi_plugin_framework.Base.{◌≡◌, Option, none, some, List, [], ◌∷◌, ◌&&◌, if◌then◌else◌}

-- `func_wrap` fails on a name that is defined, and defines no other.
pub record FuncLinker (L C : Type 0) : Type 0 where
  pub func_wrap : L → String → String → C → Option L
  pub get : L → String → String → Option C
  pub func_wrap_new :
      (l : L) (module_ name : String) (func : C)
      → get l module_ name ≡ none
      → (l' : L) × (func_wrap l module_ name func ≡ some l')
  pub get-func_wrap :
      (l l' : L) (module_ name : String) (func : C) (m n : String)
      → func_wrap l module_ name func ≡ some l'
      → get l' m n ≡ (if (module_ == m) && (name == n) then some func else get l m n)

-- The functions that are wrapped.
pub record WasiCalls (C : Type 0) : Type 0 where
  pub args_get : C
  pub args_sizes_get : C
  pub env_get : C
  pub env_sizes_get : C
  pub fd_read : C
  pub fd_fdstat_get : C
  pub fd_write : C
  pub clock_time_get : C
  pub fd_close : C
  pub random_get : C
  pub sched_yield : C
  pub poll_oneoff : C
  pub proc_raise : C
  pub proc_exit : C

abbrev pub wasi_module : String
wasi_module = "wasi_snapshot_preview1"

module _ {C : Type 0} where
  abbrev pub imports : WasiCalls C → List (String × C)
  imports calls =
      ("args_get", calls.args_get)
      ∷ ("args_sizes_get", calls.args_sizes_get)
      ∷ ("environ_get", calls.env_get)
      ∷ ("environ_sizes_get", calls.env_sizes_get)
      ∷ ("fd_read", calls.fd_read)
      ∷ ("fd_fdstat_get", calls.fd_fdstat_get)
      ∷ ("fd_write", calls.fd_write)
      ∷ ("clock_time_get", calls.clock_time_get)
      ∷ ("fd_close", calls.fd_close)
      ∷ ("random_get", calls.random_get)
      ∷ ("sched_yield", calls.sched_yield)
      ∷ ("poll_oneoff", calls.poll_oneoff)
      ∷ ("proc_raise", calls.proc_raise)
      ∷ ("proc_exit", calls.proc_exit)
      ∷ []

module _ {L : Type 0} where
  -- `?`
  abbrev pub and_then : Option L → (L → Option L) → Option L
  and_then none k = none
  and_then (some l) k = k l

module _ {L C : Type 0} ⦃funcs : FuncLinker L C⦄ where
  -- `linker.func_wrap(…)?`, one after the other.
  pub wrap_all : List (String × C) → L → Option L
  wrap_all [] l = some l
  wrap_all ((name, func) ∷ rest) l =
      and_then (funcs.func_wrap l wasi_module name func) (wrap_all rest)

  pub add_to_linker : WasiCalls C → L → Option L
  unfolding wrap_all
  add_to_linker calls l = wrap_all (imports calls) l
