-- ===== src/Wasi/FdRead/Tests.antt =====
-- `fd_read` at concrete guests.
use wasmi_plugin_framework.Base.{ℕ, ◌≡◌, refl, true, some, [], ◌∷◌, ◌++◌, arith, pos}
use wasmi_plugin_framework.Bytes.{Bytes, from_le, to_le}
use wasmi_plugin_framework.Pipe.{Inner, read}
use wasmi_plugin_framework.Pipe.Stream.{pipe_reader}
use wasmi_plugin_framework.Io.Buffered.{BufReader, buf_read}
use wasmi_plugin_framework.Memory.Linear.{Linear, overlay, linear_memory}
use wasmi_plugin_framework.Wasi.Context.{success, again, badf}
use wasmi_plugin_framework.Wasi.Caller.{Caller, returned}
use wasmi_plugin_framework.Wasi.Guest.{pipe_of, caller, two_vectors, with_stdin}
use wasmi_plugin_framework.Wasi.Fd.{fd_close}
use wasmi_plugin_framework.Wasi.FdRead.{fd_read}
use wasmi_plugin_framework.Wasi.FdRead.Available.{asked, Answers, stdin_available_lem}
use wasmi_plugin_framework.Wasi.FdRead.Closed.{fd_close_ends_fd_read}
use wasmi_plugin_framework.Wasi.FdRead.Taken.{pending}
use wasmi_plugin_framework.Wasi.FdRead.Results.{HasServed, fd_read_serves, fd_read_error_keeps}
use wasmi_plugin_framework.Wasi.FdRead.Loss.{fd_read_again_loses}

abbrev reader : Bytes → BufReader Inner
reader buf = record { buf = buf; inner = pipe_of [] }

abbrev three : Caller Linear Inner Inner
three = caller (with_stdin (7 ∷ 8 ∷ 9 ∷ [])) two_vectors

-- Two bytes in the first buffer, one in the second, and the count at 32.
abbrev three_read : Caller Linear Inner Inner
three_read =
    caller (record (with_stdin []) { stdin_reader = some (reader []) })
      (record two_vectors {
        cell =
            overlay (overlay (overlay two_vectors.cell 16 (7 ∷ 8 ∷ [])) 20 (9 ∷ [])) 32
              (3 ∷ 0 ∷ 0 ∷ 0 ∷ []);
      })

fd_read-three : fd_read 0 (pos 0) (pos 2) (pos 32) three ≡ returned success three_read
unfolding fd_read buf_read read from_le to_le
fd_read-three = refl

fd_read_serves_example :
    (◌≡◌ {A = ℕ} 0 0) × HasServed (pos 0) (pos 2) (pos 32) two_vectors three three_read
fd_read_serves_example =
    fd_read_serves 0 (pos 0) (pos 2) (pos 32) three three_read two_vectors refl fd_read-three

abbrev dry : Caller Linear Inner Inner
dry = caller (with_stdin []) two_vectors

abbrev dry_read : Caller Linear Inner Inner
dry_read = record dry {
  ctx = record (dry.ctx) { stdin_reader = some (reader []); awaiting_stdin = true };
  fuel = 0;
}

fd_read-dry : fd_read 0 (pos 0) (pos 1) (pos 32) dry ≡ returned again dry_read
unfolding fd_read buf_read read from_le to_le
fd_read-dry = refl

fd_read_error_keeps_example :
    (pending dry ≡ pending dry_read)
    × (again ≡ again → (dry_read.ctx.awaiting_stdin ≡ true) × (dry_read.fuel ≡ 0))
fd_read_error_keeps_example =
    fd_read_error_keeps (pos 0) (pos 1) (pos 32) dry dry_read two_vectors again refl (omega arith)
      (λ e. cc) fd_read-dry

abbrev two : Caller Linear Inner Inner
two = caller (with_stdin (7 ∷ 8 ∷ [])) two_vectors

fd_read_again_loses_example :
    (c' : Caller Linear Inner Inner) × (fd_read 0 (pos 0) (pos 2) (pos 32) two ≡ returned again c')
    × (pending two ≡ (7 ∷ 8 ∷ []) ++ pending c')
unfolding buf_read read from_le
fd_read_again_loses_example =
    fd_read_again_loses (pos 0) (pos 2) (pos 32) two two_vectors
      (record two_vectors { cell = overlay two_vectors.cell 16 (7 ∷ 8 ∷ []) })
      (record { buf = []; inner = pipe_of (7 ∷ 8 ∷ []) }) (reader []) (reader []) 16 2 20 4 7
      (8 ∷ []) refl refl (omega arith) (16 ∷ 0 ∷ 0 ∷ 0 ∷ [], refl, refl)
      (2 ∷ 0 ∷ 0 ∷ 0 ∷ [], refl, refl) (20 ∷ 0 ∷ 0 ∷ 0 ∷ [], refl, refl)
      (4 ∷ 0 ∷ 0 ∷ 0 ∷ [], refl, refl) refl refl refl refl

fd_close_ends_fd_read_example :
    (c' : Caller Linear Inner Inner) × (fd_close (pos 0) three ≡ returned success c')
    × (c'.memory ≡ some two_vectors)
    × (c'.fuel ≡ three.fuel)
    × (fd_read 0 (pos 0) (pos 2) (pos 32) c' ≡ returned badf c')
unfolding from_le
fd_close_ends_fd_read_example =
    fd_close_ends_fd_read (pos 0) (pos 2) (pos 32) 16 2 three two_vectors refl (omega arith)
      (16 ∷ 0 ∷ 0 ∷ 0 ∷ [], refl, refl) (2 ∷ 0 ∷ 0 ∷ 0 ∷ [], refl, refl)

stdin_available_lem_example : (pending (asked three) ≡ pending three) × Answers 2 three
stdin_available_lem_example = stdin_available_lem three 2 (omega arith)
