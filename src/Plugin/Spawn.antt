-- ===== src/Plugin/Spawn.antt =====
-- crates/wasmi-plugin-hdk/src/plugin_instance.rs: `spawn_plugin`. wasmi is the interface `Linker`, and
-- `FuncLinker` of Wasi/Imports. The three pipes are shared with the guest: they stand in a list, and both ends name a
-- pipe by its place there.
pub mod Imported
pub mod Fresh
pub mod Sample
mod Tests
use Prim.Native.String.{String}
use wasmi_plugin_framework.Base.{ℕ, ◌≡◌, Bool, true, Option, none, some, List, [], ◌∷◌}
use wasmi_plugin_framework.Pipe.{Inner, non_blocking_pipe}
use wasmi_plugin_framework.Wasi.Context.{WasiCtx, new, set_stdin, set_stdout, set_stderr}
use wasmi_plugin_framework.Wasi.Imports.{FuncLinker, WasiCalls, add_to_linker}

pub data SpawnError : Type 0 where
  io_error start_not_found wasmi_error : SpawnError

pub data SpawnResult (A : Type 0) : Type 0 where
  spawned : A → SpawnResult A
  fails : SpawnError → SpawnResult A

-- `E` is the engine, `Mod` a module, `L` a linker, in which nothing is defined when it is new, `I` an
-- instance and the store with it, `F` a function of a guest, and `C` a host function.
pub record Linker (E Mod L C I F : Type 0) ⦃funcs : FuncLinker L C⦄ : Type 0 where
  pub new_linker : E → L
  pub instantiate_and_start : L → Mod → WasiCtx ℕ ℕ → Option I
  pub get_func : I → String → Option F
  pub new_linker_get : (e : E) (m n : String) → funcs.get (new_linker e) m n ≡ none

-- What `spawn_plugin` returns: the ends of the pipes that the host keeps, the flag, and what the
-- guest's task runs.
pub record Instance (I F : Type 0) : Type 0 where
  pub pipes : List Inner
  pub stdin_writer : ℕ
  pub stdout_reader : ℕ
  pub stderr_reader : ℕ
  pub is_running : Bool
  pub store : I
  pub start_func : F
  pub max_fuel : Option ℕ

abbrev pub fresh_pipes : List Inner
fresh_pipes = non_blocking_pipe ∷ non_blocking_pipe ∷ non_blocking_pipe ∷ []

-- The guest has the other ends.
abbrev pub guest_ctx : WasiCtx ℕ ℕ
guest_ctx = set_stderr (set_stdout (set_stdin new 0) 1) 2

module _ {I F : Type 0} where
  abbrev pub started : Option ℕ → I → Option F → SpawnResult (Instance I F)
  started max_fuel store none = fails start_not_found
  started max_fuel store (some start_func) = spawned (record {
    pipes = fresh_pipes;
    stdin_writer = 0;
    stdout_reader = 1;
    stderr_reader = 2;
    is_running = true;
    store = store;
    start_func = start_func;
    max_fuel = max_fuel;
  })

module _ {E Mod L C I F : Type 0} ⦃funcs : FuncLinker L C⦄ where
  abbrev pub instantiated : Linker E Mod L C I F → Option ℕ → Option I → SpawnResult (Instance I F)
  instantiated linker max_fuel none = fails wasmi_error
  instantiated linker max_fuel (some store) =
      started max_fuel store (linker.get_func store "_start")

  abbrev pub linked : Linker E Mod L C I F → Mod → Option ℕ → Option L → SpawnResult (Instance I F)
  linked linker module_ max_fuel none = fails wasmi_error
  linked linker module_ max_fuel (some l) =
      instantiated linker max_fuel (linker.instantiate_and_start l module_ guest_ctx)

module _ {E Mod L C I F : Type 0} ⦃funcs : FuncLinker L C⦄ where
  unfoldable pub spawn_plugin :
      Linker E Mod L C I F → WasiCalls C → E → Mod → Option ℕ → SpawnResult (Instance I F)
  spawn_plugin linker calls engine module_ max_fuel =
      linked linker module_ max_fuel (add_to_linker calls (linker.new_linker engine))
