-- ===== src/Pipe/Fifo.antt =====
-- The bytes of a pipe come out once each and in the order in which they went in.
use wasmi_plugin_framework.Base.{
  ℕ, zero, suc, ◌≡◌, refl, ap, sym, Option, none, List, [], ◌∷◌, ◌++◌, append-nil, append_assoc,
  length, min, arith, is_empty, if◌then◌else◌, eq_nil_of_length, take, drop,
}
use wasmi_plugin_framework.Bytes.{Bytes}
use wasmi_plugin_framework.Io.{IoResult, would_block, ok, err}
use wasmi_plugin_framework.Pipe.{
  Inner, Poll, ready, pending, pop_into, read, poll_read, write, drop_writer,
}

pub pop_into_lem : (n : ℕ) (queue : Bytes) → pop_into n queue ≡ (take n queue, drop n queue)
unfolding pop_into
pop_into_lem zero queue = refl
pop_into_lem (suc n) [] = refl
pop_into_lem (suc n) (b ∷ queue) =
    ap {B = Bytes × Bytes} (λ p. (b ∷ p.0, p.1)) (pop_into_lem n queue)

pub pop_into-append : (n : ℕ) (queue : Bytes) → (pop_into n queue).0 ++ (pop_into n queue).1 ≡ queue
unfolding pop_into
pop_into-append zero queue = refl
pop_into-append (suc n) [] = refl
pop_into-append (suc n) (b ∷ queue) = ap (λ t. b ∷ t) (pop_into-append n queue)

pub length-pop_into : (n : ℕ) (queue : Bytes) → length (pop_into n queue).0 ≡ min n (length queue)
unfolding pop_into
length-pop_into zero queue = omega arith
length-pop_into (suc n) [] = omega arith
length-pop_into (suc n) (b ∷ queue) = omega (arith, length-pop_into n queue)

-- What a user of the pipe can do.
pub data Op : Type 0 where
  reads : ℕ → Op
  polls : ℕ → ℕ → Op
  writes : Bytes → Op
  closes : Op

abbrev pub bytes_of : IoResult Bytes → Bytes
bytes_of (ok bs) = bs
bytes_of (err e) = []

abbrev pub bytes_of_poll : Poll (IoResult Bytes) → Bytes
bytes_of_poll (ready r) = bytes_of r
bytes_of_poll pending = []

-- One operation: the bytes that it hands to a reader, the task that it wakes, and the pipe.
abbrev pub step : Op → Inner → Bytes × Option ℕ × Inner
step (reads n) inner = let (r, inner') = read inner n in (bytes_of r, none, inner')
step (polls cx n) inner = let (r, inner') = poll_read inner cx n in (bytes_of_poll r, none, inner')
step (writes bs) inner = let (_, woken, inner') = write inner bs in ([], woken, inner')
step closes inner = let (woken, inner') = drop_writer inner in ([], woken, inner')

-- A sequence of operations: all that was delivered, and the pipe that is left.
abbrev pub run : List Op → Inner → Bytes × Inner
run [] inner = ([], inner)
run (op ∷ ops) inner =
    let (bs, _, inner') = step op inner in let (rest, last) = run ops inner' in (bs ++ rest, last)

abbrev pub written : List Op → Bytes
written [] = []
written (reads n ∷ ops) = written ops
written (polls cx n ∷ ops) = written ops
written (writes bs ∷ ops) = bs ++ written ops
written (closes ∷ ops) = written ops

pub read_buf :
    (inner : Inner) (n : ℕ) → bytes_of (read inner n).0 ++ (read inner n).1.buf ≡ inner.buf
unfolding read
read_buf inner n =
    ground (arith, pop_into-append n inner.buf, eq_nil_of_length (pop_into n inner.buf).0)

pub write_buf : (inner : Inner) (bs : Bytes) → (write inner bs).2.buf ≡ inner.buf ++ bs
unfolding write
write_buf inner bs = refl

pub drop_writer_buf : (inner : Inner) → (drop_writer inner).1.buf ≡ inner.buf
unfolding drop_writer
drop_writer_buf inner = refl

poll_read_buf :
    (inner : Inner) (cx n : ℕ)
    → bytes_of_poll (poll_read inner cx n).0 ++ (poll_read inner cx n).1.buf ≡ inner.buf
unfolding poll_read
poll_read_buf inner cx n =
    ground (arith, pop_into-append n inner.buf, eq_nil_of_length (pop_into n inner.buf).0)

-- Whatever is done to a pipe, in whatever order, the bytes delivered followed by the bytes still
-- queued are the bytes queued at the start followed by the bytes written: none is lost, repeated
-- or reordered, also once the writer is dropped.
pub run_stream :
    (ops : List Op) (inner : Inner)
    → (run ops inner).0 ++ (run ops inner).1.buf ≡ inner.buf ++ written ops
run_stream [] inner = sym (append-nil inner.buf)
run_stream (reads n ∷ ops) inner =
    rw (append_assoc, run_stream ops (read inner n).1, ← append_assoc, read_buf inner n)
run_stream (polls cx n ∷ ops) inner = rw (
  append_assoc,
  run_stream ops (poll_read inner cx n).1,
  ← append_assoc,
  poll_read_buf inner cx n,
)
run_stream (writes bs ∷ ops) inner =
    rw (run_stream ops (write inner bs).2) (unfold write in append_assoc inner.buf bs (written ops))
run_stream (closes ∷ ops) inner =
    rw (run_stream ops (drop_writer inner).1) (unfold drop_writer in refl)

-- `read` on every branch. With `n` bytes of room it returns the first `n` bytes that are queued;
-- if that is nothing, end of file on a closed pipe and `WouldBlock` on an open one.
pub read_lem :
    (inner : Inner) (n : ℕ)
    → read inner n ≡ (
      (if is_empty (take n inner.buf)
          then (if inner.closed then ok [] else err would_block)
          else ok (take n inner.buf)),
      record inner { buf = drop n inner.buf },
    )
unfolding read
read_lem inner n = rw (pop_into_lem n inner.buf, read) (ground arith)
