-- ===== src/Io/Buffered.antt =====
-- `std::io::BufReader`, in which `WasiCtx::set_stdin` wraps the guest's stdin: it refills a buffer
-- of 8 KiB from the inner reader, and passes large reads through when the buffer is empty.
use wasmi_plugin_framework.Base.{
  ℕ, ◌≤◌, ◌≡◌, refl, [], ◌++◌, ◌&&◌, append_assoc, leb, is_empty, length, take, drop, arith,
  if◌then◌else◌, Bool-cases, inl, inr, length-take, take-append-drop,
}
use wasmi_plugin_framework.Bytes.{Bytes}
use wasmi_plugin_framework.Io.{IoError, IoResult, ok, err, Read}

-- `buf` is the part of the buffer that has not been consumed.
pub record BufReader (R : Type 0) : Type 0 where
  pub buf : Bytes
  pub inner : R

abbrev capacity : ℕ
capacity = 8192

module _ {R : Type 0} ⦃rd : Read R⦄ where
  -- The buffer after a refill.
  abbrev pub refilled : IoResult Bytes × R → IoResult Bytes × BufReader R
  refilled (ok bs, inner') = (ok bs, record { buf = bs; inner = inner' })
  refilled (err e, inner') = (err e, record { buf = []; inner = inner' })

  -- `BufRead::fill_buf`
  unfoldable pub fill_buf : BufReader R → IoResult Bytes × BufReader R
  fill_buf b = if is_empty b.buf then refilled (rd.read b.inner capacity) else (ok b.buf, b)

  -- The first `n` bytes of what is buffered go to the caller and are consumed.
  abbrev pub served : ℕ → IoResult Bytes × BufReader R → IoResult Bytes × BufReader R
  served n (ok bs, b) = (ok (take n bs), record b { buf = drop n bs })
  served n (err e, b) = (err e, b)

  -- The buffer is bypassed.
  abbrev pub direct : IoResult Bytes × R → IoResult Bytes × BufReader R
  direct (r, inner') = (r, record { buf = []; inner = inner' })

  -- `Read::read` into a buffer of `n` bytes.
  unfoldable pub buf_read : BufReader R → ℕ → IoResult Bytes × BufReader R
  unfolding fill_buf
  buf_read b n =
      if is_empty b.buf && leb capacity n then direct (rd.read b.inner n) else served n (fill_buf b)

  -- All that the reader can still hand out.
  abbrev pub remaining : BufReader R → Bytes
  remaining b = b.buf ++ rd.remaining b.inner

  fill_buf_ok :
      (b : BufReader R) (bs : Bytes)
      → (fill_buf b).0 ≡ ok bs
      → remaining b ≡ bs ++ rd.remaining (fill_buf b).1.inner
  unfolding fill_buf
  fill_buf_ok b bs e = ground (arith, rd.read_ok b.inner capacity bs)

  pub fill_buf_err :
      (b : BufReader R) (e : IoError)
      → (fill_buf b).0 ≡ err e
      → remaining (fill_buf b).1 ≡ remaining b
  unfolding fill_buf
  fill_buf_err b e h = ground (arith, rd.read_err b.inner capacity e)

  served_ok :
      (n : ℕ) (p : IoResult Bytes × BufReader R) (all bs : Bytes)
      → ((cs : Bytes) → p.0 ≡ ok cs → all ≡ cs ++ rd.remaining p.1.inner)
      → (served n p).0 ≡ ok bs
      → (all ≡ bs ++ remaining (served n p).1) × (length bs ≤ n)
  served_ok n (ok cs, b) all bs h e = ground (
    arith,
    h cs refl,
    take-append-drop n cs,
    append_assoc (take n cs) (drop n cs) (rd.remaining b.inner),
    length-take n cs,
  )
  served_ok n (err x, b) all bs h e = cc

  served_err :
      (n : ℕ) (p : IoResult Bytes × BufReader R) (all : Bytes) (e : IoError)
      → (p.0 ≡ err e → remaining p.1 ≡ all)
      → (served n p).0 ≡ err e
      → remaining (served n p).1 ≡ all
  served_err n (ok cs, b) all e h k = cc
  served_err n (err x, b) all e h k = h k

  -- What `buf_read` returns comes off the front of what the reader holds, and fits the buffer.
  pub buf_read_ok :
      (b : BufReader R) (n : ℕ) (bs : Bytes)
      → (buf_read b n).0 ≡ ok bs
      → (remaining b ≡ bs ++ remaining (buf_read b n).1) × (length bs ≤ n)
  unfolding buf_read
  buf_read_ok b n bs = elim (Bool-cases (is_empty b.buf && leb capacity n)) [
    | inl bypass ↦ rw bypass (λ e. ground (arith, rd.read_ok b.inner n bs e))
    | inr buffered ↦
        rw buffered (served_ok n (fill_buf b) (remaining b) bs (λ cs. fill_buf_ok b cs))
  ]

  -- A read that fails consumes nothing.
  pub buf_read_err :
      (b : BufReader R) (n : ℕ) (e : IoError)
      → (buf_read b n).0 ≡ err e
      → remaining (buf_read b n).1 ≡ remaining b
  unfolding buf_read
  buf_read_err b n e = elim (Bool-cases (is_empty b.buf && leb capacity n)) [
    | inl bypass ↦ rw bypass (λ h. ground (arith, rd.read_err b.inner n e h))
    | inr buffered ↦
        rw buffered (served_err n (fill_buf b) (remaining b) e (λ h. fill_buf_err b e h))
  ]
