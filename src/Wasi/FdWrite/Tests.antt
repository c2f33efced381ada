-- ===== src/Wasi/FdWrite/Tests.antt =====
-- `fd_write` at a concrete guest.
use wasmi_plugin_framework.Base.{◌≡◌, refl, some, [], ◌∷◌, arith, pos, length}
use wasmi_plugin_framework.Bytes.{Bytes, from_le}
use wasmi_plugin_framework.Io.{ok}
use wasmi_plugin_framework.Pipe.{Inner, write}
use wasmi_plugin_framework.Pipe.Stream.{pipe_writer, write_all_of}
use wasmi_plugin_framework.Memory.Linear.{Linear, linear_memory}
use wasmi_plugin_framework.Wasi.Caller.{Caller}
use wasmi_plugin_framework.Wasi.Guest.{caller, two_vectors, pipe_of, with_stdout}
use wasmi_plugin_framework.Wasi.FdWrite.Gather.{gather}
use wasmi_plugin_framework.Wasi.FdWrite.Send.{HasWritten, fd_write_gathers}

-- The pipe takes all that it is given.
pipe_takes_all : (inner : Inner) (bs : Bytes) → (write_all_of inner bs).0 ≡ ok (length bs)
unfolding write
pipe_takes_all inner bs = refl

abbrev start : Caller Linear Inner Inner
start = caller (with_stdout (1 ∷ [])) two_vectors

abbrev text : Bytes
text = 65 ∷ 66 ∷ 67 ∷ 68 ∷ 69 ∷ 70 ∷ []

gather-two_vectors : gather two_vectors 2 0 0 ≡ some text
unfolding gather from_le
gather-two_vectors = refl

fd_write_gathers_example :
    HasWritten pipe_takes_all
      (pos 1)
      (pos 0)
      (pos 2)
      (pos 32)
      start
      two_vectors
      (pipe_of (1 ∷ []))
      text
fd_write_gathers_example =
    fd_write_gathers pipe_takes_all (pos 1) (pos 0) (pos 2) (pos 32) start two_vectors
      (pipe_of (1 ∷ [])) text refl refl gather-two_vectors (omega arith)
