-- ===== src/Session/Tests.antt =====
-- The host sends three bytes; the guest reads two, and sends them back; the host takes them.
use wasmi_plugin_framework.Base.{◌≡◌, refl, some, List, [], ◌∷◌, ◌++◌, inr, arith, pos}
use wasmi_plugin_framework.Bytes.{from_le, to_le}
use wasmi_plugin_framework.Pipe.{Inner, read, write}
use wasmi_plugin_framework.Pipe.Stream.{pipe_reader, pipe_writer}
use wasmi_plugin_framework.Io.Buffered.{buf_read}
use wasmi_plugin_framework.Memory.Linear.{Linear, overlay, linear_memory}
use wasmi_plugin_framework.Wasi.Context.{success, new, set_stdin, set_stdout}
use wasmi_plugin_framework.Wasi.Caller.{Caller, returned}
use wasmi_plugin_framework.Wasi.Guest.{pipe_of, caller, two_vectors}
use wasmi_plugin_framework.Wasi.FdRead.{fd_read}
use wasmi_plugin_framework.Wasi.FdRead.Taken.{pending}
use wasmi_plugin_framework.Wasi.FdWrite.{fd_write}
use wasmi_plugin_framework.Wasi.FdWrite.Gather.{gather}
use wasmi_plugin_framework.Session.{
  Label, sends, gets, puts, takes, all_sent, all_got, all_put, all_taken, queued, OneVector, Finds,
  Step, host_writes, host_reads, guest_reads, guest_writes, Session, here, step, with_stdin,
  with_stdout,
}
use wasmi_plugin_framework.Session.Streams.{IsAllowed, queues, Step-IsAllowed, session_delivers}

abbrev started : Caller Linear Inner Inner
started = caller (set_stdout (set_stdin new (pipe_of [])) (pipe_of [])) two_vectors

abbrev told : Caller Linear Inner Inner
told = with_stdin started (record { buf = []; inner = pipe_of (7 ∷ 8 ∷ 9 ∷ []) })

abbrev with_two : Linear
with_two = record two_vectors {
  cell = overlay (overlay two_vectors.cell 16 (7 ∷ 8 ∷ [])) 32 (2 ∷ 0 ∷ 0 ∷ 0 ∷ []);
}

abbrev served : Caller Linear Inner Inner
served = record (with_stdin told (record { buf = 9 ∷ []; inner = pipe_of [] })) {
  memory = some with_two;
}

abbrev answered : Caller Linear Inner Inner
answered = record (with_stdout served (pipe_of (7 ∷ 8 ∷ []))) {
  memory = some (record with_two { cell = overlay with_two.cell 36 (2 ∷ 0 ∷ 0 ∷ 0 ∷ []) });
}

abbrev heard : Caller Linear Inner Inner
heard = with_stdout answered (pipe_of [])

read-two : fd_read 0 (pos 0) (pos 1) (pos 32) told ≡ returned success served
unfolding fd_read buf_read read from_le to_le
read-two = refl

gather-two : gather with_two 1 0 0 ≡ some (7 ∷ 8 ∷ [])
unfolding gather from_le
gather-two = refl

write-two : fd_write (pos 1) (pos 0) (pos 1) (pos 36) served ≡ returned success answered
unfolding fd_write write from_le to_le
write-two = refl

tells : Step started (sends (7 ∷ 8 ∷ 9 ∷ [])) told
unfolding write
tells = host_writes (7 ∷ 8 ∷ 9 ∷ []) (record { buf = []; inner = pipe_of [] }) refl

finds : Finds with_two (pos 32) 16 (7 ∷ 8 ∷ [])
unfolding from_le
finds = (2, (2 ∷ 0 ∷ 0 ∷ 0 ∷ [], refl, refl), refl)

one_vector : OneVector (pos 0) (pos 32) two_vectors 16 2
unfolding from_le
one_vector = record {
  addr_word = (16 ∷ 0 ∷ 0 ∷ 0 ∷ [], refl, refl);
  len_word = (2 ∷ 0 ∷ 0 ∷ 0 ∷ [], refl, refl);
  small = omega arith;
  apart = inr (omega arith);
}

serves : Step told (gets (7 ∷ 8 ∷ [])) served
serves =
    guest_reads (pos 0) (pos 32) 16 2 two_vectors with_two (7 ∷ 8 ∷ []) served refl one_vector
      read-two refl finds

answers : Step served (puts (7 ∷ 8 ∷ [])) answered
answers =
    guest_writes (pos 0) (pos 1) (pos 36) with_two (pipe_of []) (7 ∷ 8 ∷ []) answered refl refl
      gather-two (omega arith) write-two

hears : Step answered (takes (7 ∷ 8 ∷ [])) heard
unfolding read
hears = host_reads (pipe_of (7 ∷ 8 ∷ [])) 10 refl

abbrev labels : List Label
labels = sends (7 ∷ 8 ∷ 9 ∷ []) ∷ gets (7 ∷ 8 ∷ []) ∷ puts (7 ∷ 8 ∷ []) ∷ takes (7 ∷ 8 ∷ []) ∷ []

session : Session started labels heard
session = step tells (step serves (step answers (step hears here)))

Step-IsAllowed_example : IsAllowed (queues told) (gets (7 ∷ 8 ∷ [])) (queues served)
Step-IsAllowed_example = Step-IsAllowed told served (gets (7 ∷ 8 ∷ [])) serves

session_delivers_example :
    (all_got labels ++ pending heard ≡ pending started ++ all_sent labels)
    × (all_taken labels ++ queued heard ≡ queued started ++ all_put labels)
session_delivers_example = session_delivers started heard labels session
