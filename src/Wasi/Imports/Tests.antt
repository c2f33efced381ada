-- ===== src/Wasi/Imports/Tests.antt =====
-- The calls in an empty linker.
use Prim.Native.String.{String}
use text.Mathlib.Text.{◌==◌}
use wasmi_plugin_framework.Base.{◌≡◌, refl, some, [], ◌∷◌, if◌then◌else◌}
use wasmi_plugin_framework.Pipe.{Inner}
use wasmi_plugin_framework.Pipe.Stream.{pipe_reader, pipe_writer}
use wasmi_plugin_framework.Memory.Linear.{Linear, linear_memory}
use wasmi_plugin_framework.Wasi.Imports.{WasiCalls, wasi_module, add_to_linker}
use wasmi_plugin_framework.Wasi.Imports.Calls.{HostFn, wasi_calls}
use wasmi_plugin_framework.Wasi.Imports.Table.{find}
use wasmi_plugin_framework.Wasi.Imports.Types.{
  typed, func_type, i32, wasi_types, HasCalls, add_to_linker_types,
}
use wasmi_plugin_framework.Wasi.Imports.Defs.{Defs, defs_linker}

abbrev Func : Type 0
Func = HostFn Linear Inner Inner

abbrev calls : WasiCalls Func
calls = wasi_calls {M = Linear} {R = Inner} {W = Inner}

add_to_linker_types_example :
    (l' : Defs Func) × (add_to_linker calls [] ≡ some l')
    × HasCalls Linear Inner Inner (defs_linker.get l' wasi_module)
    × ((n : String)
        → typed func_type (defs_linker.get l' wasi_module n) ≡ (
            if "proc_raise" == n
            then some (record { params = i32 ∷ []; results = [] })
            else find n wasi_types))
add_to_linker_types_example = add_to_linker_types Linear Inner Inner (Defs Func) [] (λ n. refl)
