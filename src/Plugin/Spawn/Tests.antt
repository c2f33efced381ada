-- ===== src/Plugin/Spawn/Tests.antt =====
-- A guest that starts.
use Prim.Native.String.{String}
use text.Mathlib.Text.{◌==◌}
use wasmi_plugin_framework.Base.{ℕ, ◌≡◌, none, some, if◌then◌else◌}
use wasmi_plugin_framework.Wasi.Imports.{wasi_module, imports}
use wasmi_plugin_framework.Wasi.Imports.Table.{find}
use wasmi_plugin_framework.Wasi.Imports.Defs.{Defs, defs_linker}
use wasmi_plugin_framework.Plugin.Spawn.{spawn_plugin, instantiated}
use wasmi_plugin_framework.Plugin.Spawn.Imported.{streams, spawn_plugin_lem}
use wasmi_plugin_framework.Plugin.Spawn.Sample.{linker, calls}

spawn_plugin_lem_example :
    (l : Defs ℕ) × ((m n : String)
      → defs_linker.get l m n ≡ (if wasi_module == m then find n (imports calls) else none))
    × (spawn_plugin linker calls 1 2 (some 500)
        ≡ instantiated linker (some 500) (linker.instantiate_and_start l 2 streams))
spawn_plugin_lem_example = spawn_plugin_lem linker calls 1 2 (some 500)
