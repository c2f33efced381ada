-- ===== src/Wasi/Guest.antt =====
-- A small guest for the tests: 128 bytes of memory, and pipes for its streams.
use wasmi_plugin_framework.Base.{false, none, some, [], ◌∷◌, get_or}
use wasmi_plugin_framework.Bytes.{Bytes}
use wasmi_plugin_framework.Pipe.{Inner}
use wasmi_plugin_framework.Memory.Linear.{Linear}
use wasmi_plugin_framework.Wasi.Context.{WasiCtx, new, set_stdin, set_stdout}
use wasmi_plugin_framework.Wasi.Caller.{Caller}

abbrev pub memory_of : Bytes → Linear
memory_of bs = record { bytes = 128; cell = λ a. get_or bs a 0 }

abbrev pub pipe_of : Bytes → Inner
pipe_of bs = record { buf = bs; closed = false; waker = none }

abbrev pub caller : WasiCtx Inner Inner → Linear → Caller Linear Inner Inner
caller ctx m = record { ctx = ctx; memory = some m; fuel = 100 }

-- Two vectors at 0: 2 bytes at 16, and 4 bytes at 20.
abbrev pub two_vectors : Linear
two_vectors = memory_of (
    16 ∷ 0 ∷ 0 ∷ 0 ∷ 2 ∷ 0 ∷ 0 ∷ 0 ∷ 20 ∷ 0 ∷ 0 ∷ 0 ∷ 4 ∷ 0 ∷ 0 ∷ 0 ∷ 65 ∷ 66 ∷ 0 ∷ 0 ∷ 67 ∷ 68 ∷ 69
    ∷ 70 ∷ [])

abbrev pub with_stdin : Bytes → WasiCtx Inner Inner
with_stdin bs = set_stdin new (pipe_of bs)

abbrev pub with_stdout : Bytes → WasiCtx Inner Inner
with_stdout bs = set_stdout new (pipe_of bs)
