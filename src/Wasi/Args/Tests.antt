-- ===== src/Wasi/Args/Tests.antt =====
-- The argument calls at a concrete guest.
use wasmi_plugin_framework.Base.{◌≡◌, refl, some, [], ◌∷◌, arith, inl, inr}
use wasmi_plugin_framework.Bytes.{to_le}
use wasmi_plugin_framework.Pipe.{Inner}
use wasmi_plugin_framework.Memory.Linear.{Linear, linear_memory}
use wasmi_plugin_framework.Wasi.Context.{WasiCtx, new, add_arg, add_env, success, fault}
use wasmi_plugin_framework.Wasi.Caller.{Caller, returned}
use wasmi_plugin_framework.Wasi.Guest.{caller, memory_of}
use wasmi_plugin_framework.Wasi.Args.{args_get, args_sizes_get}
use wasmi_plugin_framework.Wasi.Args.Strings.{IsLaid, block, table}
use wasmi_plugin_framework.Wasi.Args.Layout.{args_get_lays}
use wasmi_plugin_framework.Wasi.Args.Sizes.{IsCounted, args_sizes_get_counts}
use wasmi_plugin_framework.Wasi.Args.Faults.{args_get_faults}

-- Run as `a bc`, with K=v.
abbrev ctx : WasiCtx Inner Inner
ctx = add_env (add_arg (add_arg new (b'a' ∷ [])) (b'b' ∷ b'c' ∷ [])) (b'K' ∷ []) (b'v' ∷ [])

abbrev blank : Linear
blank = memory_of []

abbrev start : Caller Linear Inner Inner
start = caller ctx blank

block-args : block ctx.args ≡ b'a' ∷ 0 ∷ b'b' ∷ b'c' ∷ 0 ∷ []
block-args = refl

table-args : table 32 ctx.args ≡ 32 ∷ 0 ∷ 0 ∷ 0 ∷ 34 ∷ 0 ∷ 0 ∷ 0 ∷ []
unfolding to_le
table-args = refl

args_get_lays_example :
    (m' : Linear) × (args_get 0 32 start ≡ returned success (record start { memory = some m' }))
    × IsLaid blank m' 0 32 ctx.args
args_get_lays_example =
    args_get_lays start blank 0 32 refl (omega arith) (omega arith) (inl (omega arith))

args_sizes_get_counts_example :
    (m' : Linear) × (args_sizes_get 8 12 start
      ≡ returned success (record start { memory = some m' }))
    × IsCounted blank m' 8 12 ctx.args
args_sizes_get_counts_example =
    args_sizes_get_counts start blank 8 12 refl (omega arith) (omega arith) (inl (omega arith))
      (omega arith) (omega arith)

-- The block would end behind the 128 bytes of memory.
args_get_faults_example :
    (c' : Caller Linear Inner Inner) × (args_get 0 124 start ≡ returned fault c')
    × (c'.ctx ≡ start.ctx)
    × (c'.fuel ≡ start.fuel)
args_get_faults_example = args_get_faults start blank 0 124 refl (λ e. cc) (inr (omega arith))
