-- ===== src/Pipe/Wakers.antt =====
-- Which parked reader is woken, and when.
use wasmi_plugin_framework.Base.{
  ℕ, zero, suc, ◌<◌, ◌≡◌, ◌≢◌, refl, ap, ◌++◌, false, none, some, List, [], ◌∷◌, arith, All,
  eq_nil_of_length, take,
}
use wasmi_plugin_framework.Bytes.{Bytes}
use wasmi_plugin_framework.Io.{ok}
use wasmi_plugin_framework.Pipe.{
  Inner, ready, pending, pop_into, read, poll_read, write, drop_writer, non_blocking_pipe,
}
use wasmi_plugin_framework.Pipe.Fifo.{
  Op, reads, polls, writes, closes, step, run, length-pop_into, pop_into_lem,
}

-- A parked task has nothing to wait for but a write: the queue is empty and the pipe is open.
abbrev pub IsParkedWell : Inner → Type 0
IsParkedWell inner = inner.waker ≢ none → (inner.buf ≡ []) × (inner.closed ≡ false)

-- A poll that has room in its buffer.
abbrev pub HasRoom : Op → Type 0
HasRoom (reads n) = Unit
HasRoom (polls cx n) = 0 < n
HasRoom (writes bs) = Unit
HasRoom closes = Unit

pop_into-nil : (n : ℕ) → (pop_into n []).1 ≡ []
unfolding pop_into
pop_into-nil zero = refl
pop_into-nil (suc n) = refl

read-IsParkedWell : (n : ℕ) (inner : Inner) → IsParkedWell inner → IsParkedWell (read inner n).1
unfolding read
read-IsParkedWell n inner h = ground (arith, pop_into-nil n, h)

poll_read-IsParkedWell : (cx n : ℕ) (inner : Inner) → 0 < n → IsParkedWell (poll_read inner cx n).1
unfolding poll_read
poll_read-IsParkedWell cx n inner room = ground (
  arith,
  pop_into_lem n inner.buf,
  length-pop_into n inner.buf,
  eq_nil_of_length inner.buf,
  pop_into-nil n,
)

step-IsParkedWell :
    (op : Op) (inner : Inner) → HasRoom op → IsParkedWell inner → IsParkedWell (step op inner).2
step-IsParkedWell (reads n) inner room h = read-IsParkedWell n inner h
step-IsParkedWell (polls cx n) inner room h = poll_read-IsParkedWell cx n inner room
step-IsParkedWell (writes bs) inner room h = unfold write in λ waits. absurd (waits refl)
step-IsParkedWell closes inner room h = unfold drop_writer in λ waits. absurd (waits refl)

run-IsParkedWell :
    (ops : List Op) (inner : Inner)
    → All HasRoom ops
    → IsParkedWell inner
    → IsParkedWell (run ops inner).1
run-IsParkedWell [] inner rooms h = h
run-IsParkedWell (op ∷ ops) inner rooms h =
    run-IsParkedWell ops (step op inner).2 rooms.1 (step-IsParkedWell op inner rooms.0 h)

fresh-IsParkedWell : IsParkedWell non_blocking_pipe
unfolding non_blocking_pipe
fresh-IsParkedWell waits = absurd (waits refl)

parked_lem :
    (ops : List Op) (t : ℕ)
    → All HasRoom ops
    → (run ops non_blocking_pipe).1.waker ≡ some t
    → ((run ops non_blocking_pipe).1.buf ≡ []) × ((run ops non_blocking_pipe).1.closed ≡ false)
parked_lem ops t rooms e =
    run-IsParkedWell ops non_blocking_pipe rooms fresh-IsParkedWell (λ n. cc (e, n))

-- Reads with these sizes, one after the other.
abbrev pub read_all : List ℕ → Inner → Inner
read_all [] inner = inner
read_all (n ∷ ns) inner = read_all ns (read inner n).1

-- A pipe that `t` waits on, whatever was parked on it before.
abbrev IsParkedBy : ℕ → Inner → Type 0
IsParkedBy t inner = (inner.buf ≡ []) × (inner.closed ≡ false) × (inner.waker ≡ some t)

pending-IsParkedBy :
    (inner : Inner) (t n : ℕ)
    → 0 < n
    → (poll_read inner t n).0 ≡ pending
    → IsParkedBy t (poll_read inner t n).1
unfolding poll_read
pending-IsParkedBy inner t n room e = ground (
  arith,
  pop_into_lem n inner.buf,
  length-pop_into n inner.buf,
  eq_nil_of_length inner.buf,
  pop_into-nil n,
)

read_all-IsParkedBy :
    (ns : List ℕ) (t : ℕ) (inner : Inner) → IsParkedBy t inner → IsParkedBy t (read_all ns inner)
unfolding read
read_all-IsParkedBy [] t inner h = h
read_all-IsParkedBy (n ∷ ns) t inner (idle, is_open, parked) =
    read_all-IsParkedBy ns t (read inner n).1
      (ground (arith, idle, is_open, parked, pop_into-nil n))

poll_read_there :
    (inner : Inner) (t n b : ℕ) (bs : Bytes)
    → 0 < n
    → inner.buf ≡ b ∷ bs
    → (poll_read inner t n).0 ≡ ready (ok (take n (b ∷ bs)))
unfolding poll_read pop_into
poll_read_there inner t zero b bs room e = absurd (omega arith)
poll_read_there inner t (suc n) b bs room e = rw (e, pop_into_lem n bs) (ground arith)

-- No write is missed. When a poll of task `t` with room in its buffer is pending, in whatever state
-- the pipe is, then nothing is queued and the writer is still there; and after any number of reads in
-- between, the next write wakes `t`, whose next poll gets the first of the bytes that were written.
pub write_wakes :
    (inner : Inner) (t n : ℕ) (ns : List ℕ) (b : ℕ) (bs : Bytes)
    → 0 < n
    → (poll_read inner t n).0 ≡ pending
    → let waiting = read_all ns (poll_read inner t n).1 in
      (waiting.buf ≡ [])
      × (waiting.closed ≡ false)
      × ((write waiting (b ∷ bs)).1 ≡ some t)
      × ((poll_read (write waiting (b ∷ bs)).2 t n).0 ≡ ready (ok (take n (b ∷ bs))))
unfolding write
write_wakes inner t n ns b bs room e =
    let waiting = read_all ns (poll_read inner t n).1 in
    let (idle, is_open, parked) =
      read_all-IsParkedBy ns t (poll_read inner t n).1 (pending-IsParkedBy inner t n room e) in
    (
      idle,
      is_open,
      parked,
      poll_read_there (write waiting (b ∷ bs)).2 t n b bs room (ap (λ q. q ++ (b ∷ bs)) idle),
    )

-- The close is missed. After any sequence of operations on a new pipe whose polls have room in
-- their buffers, if a task is parked on the pipe then dropping the writer wakes no task and forgets
-- the parked one, though a poll would from then on be answered with the end of the file.
pub drop_writer_wakes_nobody :
    (ops : List Op) (t n : ℕ)
    → All HasRoom ops
    → (run ops non_blocking_pipe).1.waker ≡ some t
    → let (woken, inner) = drop_writer (run ops non_blocking_pipe).1 in
      (woken ≡ none) × (inner.waker ≡ none) × ((poll_read inner t n).0 ≡ ready (ok []))
unfolding drop_writer poll_read
drop_writer_wakes_nobody ops t n rooms e =
    let (idle, is_open) = parked_lem ops t rooms e in
    (
      refl,
      refl,
      ground (arith, idle, pop_into-nil n, length-pop_into n (run ops non_blocking_pipe).1.buf),
    )
