-- ===== src/Plugin/Spawn/Imported.antt =====
-- What a guest that is spawned can import.
use Prim.Native.String.{String}
use text.Mathlib.Text.{◌==◌}
use wasmi_plugin_framework.Base.{ℕ, ◌≡◌, refl, ap, ◌∙◌, Option, none, some, [], if◌then◌else◌}
use wasmi_plugin_framework.Wasi.Context.{WasiCtx, new}
use wasmi_plugin_framework.Wasi.Imports.{FuncLinker, WasiCalls, wasi_module, imports}
use wasmi_plugin_framework.Wasi.Imports.Table.{find, add_to_linker_lem}
use wasmi_plugin_framework.Plugin.Spawn.{Linker, instantiated, spawn_plugin}

-- The pipes 0, 1 and 2, stdin in a `BufReader`.
abbrev pub streams : WasiCtx ℕ ℕ
streams = record new {
  stdin_reader = some (record { buf = []; inner = 0 });
  stdout_writer = some 1;
  stderr_writer = some 2;
}

module _ {E Mod L C I F : Type 0} ⦃funcs : FuncLinker L C⦄ (linker : Linker E Mod L C I F) where
  -- `spawn_plugin` never fails to define the WASI calls. It instantiates the module, with the pipes 0,
  -- 1 and 2 as its stdin, stdout and stderr, in a linker which has the WASI calls under the WASI
  -- module and nothing else, and what it returns is made of the result of that alone.
  pub spawn_plugin_lem :
      (calls : WasiCalls C) (engine : E) (module_ : Mod) (max_fuel : Option ℕ)
      → (l : L) × ((m n : String)
          → funcs.get l m n ≡ (if wasi_module == m then find n (imports calls) else none))
        × (spawn_plugin linker calls engine module_ max_fuel
            ≡ instantiated linker max_fuel (linker.instantiate_and_start l module_ streams))
  unfolding spawn_plugin
  spawn_plugin_lem calls engine module_ max_fuel =
      let (l, runs, table) =
        add_to_linker_lem calls (linker.new_linker engine)
          (linker.new_linker_get engine wasi_module) in
      (
        l,
        (λ m n.
            table m n
            ∙ ap (λ x. if wasi_module == m then find n (imports calls) else x)
                (linker.new_linker_get engine m n)),
        rw (runs) refl,
      )
