-- ===== src/Pipe/Polls.antt =====
-- `poll_read` on each of its answers.
use wasmi_plugin_framework.Base.{
  ℕ, zero, suc, ◌<◌, ◌≡◌, ◌≢◌, refl, true, false, Option, some, [], ◌∷◌, ◌++◌, arith,
  eq_nil_of_length,
}
use wasmi_plugin_framework.Bytes.{Bytes}
use wasmi_plugin_framework.Io.{IoError, IoResult, ok, err}
use wasmi_plugin_framework.Pipe.{Poll, Inner, ready, pending, pop_into, poll_read}
use wasmi_plugin_framework.Pipe.Fifo.{length-pop_into, pop_into-append}

pub poll_read-end :
    (inner inner' : Inner) (cx n : ℕ)
    → 0 < n
    → poll_read inner cx n ≡ (ready (ok []), inner')
    → (inner.buf ≡ []) × (inner'.buf ≡ []) × (inner'.closed ≡ true)
unfolding poll_read
poll_read-end inner inner' cx n room e = ground (
  arith,
  pop_into-append n inner.buf,
  length-pop_into n inner.buf,
  eq_nil_of_length inner.buf,
  eq_nil_of_length (pop_into n inner.buf).0,
)

pub poll_read-bytes :
    (inner inner' : Inner) (cx n b : ℕ) (bs : Bytes)
    → poll_read inner cx n ≡ (ready (ok (b ∷ bs)), inner')
    → inner.buf ≡ (b ∷ bs) ++ inner'.buf
unfolding poll_read
poll_read-bytes inner inner' cx n b bs e = ground (arith, pop_into-append n inner.buf)

pub poll_read-pending :
    (inner inner' : Inner) (cx n : ℕ)
    → poll_read inner cx n ≡ (pending, inner')
    → inner'.buf ≡ inner.buf
unfolding poll_read
poll_read-pending inner inner' cx n e =
    ground (arith, pop_into-append n inner.buf, eq_nil_of_length (pop_into n inner.buf).0)

pub poll_read-no_err :
    (inner inner' : Inner) (cx n : ℕ) (x : IoError) → poll_read inner cx n ≢ (ready (err x), inner')
unfolding poll_read
poll_read-no_err inner inner' cx n x e = ground arith

pub poll_read-closed :
    (inner inner' : Inner) (cx n : ℕ) (r : Poll (IoResult Bytes))
    → inner.closed ≡ true
    → poll_read inner cx n ≡ (r, inner')
    → (r ≢ pending) × (inner'.closed ≡ true)
unfolding poll_read
poll_read-closed inner inner' cx n r shut e =
    (λ p. ground (arith, e, p, shut), ground (arith, e, shut))

pub poll_read-dry :
    (waker : Option ℕ) (cx n : ℕ)
    → poll_read (record { buf = []; closed = false; waker = waker }) cx n
      ≡ (pending, record { buf = []; closed = false; waker = some cx })
unfolding poll_read pop_into
poll_read-dry waker cx zero = refl
poll_read-dry waker cx (suc n) = refl

-- A poll does not close the pipe.
pub poll_read-keeps :
    (inner inner' : Inner) (cx n : ℕ) (r : Poll (IoResult Bytes))
    → poll_read inner cx n ≡ (r, inner')
    → inner'.closed ≡ inner.closed
unfolding poll_read
poll_read-keeps inner inner' cx n r e = ground (arith, e)
