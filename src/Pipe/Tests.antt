-- ===== src/Pipe/Tests.antt =====
-- The pipe at work, and its theorems at concrete pipes.
use wasmi_plugin_framework.Base.{◌≡◌, refl, false, none, some, take, List, [], ◌∷◌, ◌++◌, arith}
use wasmi_plugin_framework.Io.{would_block, ok, err}
use wasmi_plugin_framework.Pipe.{
  Inner, ready, non_blocking_pipe, read, poll_read, write, drop_writer,
}
use wasmi_plugin_framework.Pipe.Fifo.{Op, reads, polls, writes, closes, run, written, run_stream}
use wasmi_plugin_framework.Pipe.Wakers.{read_all, write_wakes, drop_writer_wakes_nobody}

abbrev full : Inner
full = record { buf = 1 ∷ 2 ∷ 3 ∷ []; closed = false; waker = none }

abbrev script : List Op
script = reads 2 ∷ writes (4 ∷ 5 ∷ []) ∷ closes ∷ polls 7 2 ∷ []

abbrev parked : List Op
parked = writes (1 ∷ []) ∷ polls 7 4 ∷ polls 7 4 ∷ []

run-script : (run script full).0 ≡ 1 ∷ 2 ∷ 3 ∷ 4 ∷ []
unfolding read poll_read write drop_writer
run-script = refl

read-empty : (read non_blocking_pipe 4).0 ≡ err would_block
unfolding read non_blocking_pipe
read-empty = refl

run_stream_example : (run script full).0 ++ (run script full).1.buf ≡ full.buf ++ written script
run_stream_example = run_stream script full

-- The pipe holds the waker of task 7, and task 8 polls.
write_wakes_example :
    let waiting = read_all (3 ∷ []) (poll_read (run parked non_blocking_pipe).1 8 4).1 in
    (waiting.buf ≡ [])
    × (waiting.closed ≡ false)
    × ((write waiting (9 ∷ [])).1 ≡ some 8)
    × ((poll_read (write waiting (9 ∷ [])).2 8 4).0 ≡ ready (ok (take 4 (9 ∷ []))))
unfolding poll_read write non_blocking_pipe
write_wakes_example =
    write_wakes (run parked non_blocking_pipe).1 8 4 (3 ∷ []) 9 [] (omega arith) refl

drop_writer_wakes_nobody_example :
    let (woken, inner) = drop_writer (run parked non_blocking_pipe).1 in
    (woken ≡ none) × (inner.waker ≡ none) × ((poll_read inner 7 4).0 ≡ ready (ok []))
unfolding poll_read write non_blocking_pipe
drop_writer_wakes_nobody_example = drop_writer_wakes_nobody parked 7 4 (omega arith) refl
