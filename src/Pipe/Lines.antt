-- ===== src/Pipe/Lines.antt =====
-- A line read from a pipe through a `BufReader`, in however many parts it comes.
use wasmi_plugin_framework.Base.{
  ℕ, zero, suc, ◌+◌, ◌<◌, ◌≡◌, refl, ap, ◌∙◌, subst, Bool, true, false, ◌||◌, Option, [], ◌∷◌, ◌++◌,
  length, min, arith, if◌then◌else◌, take, drop, take-append-drop, length-drop, length-append,
  Bool-cases, inl, inr,
}
use wasmi_plugin_framework.Bytes.{Bytes}
use wasmi_plugin_framework.Io.{IoResult, ok, err, would_block}
use wasmi_plugin_framework.Io.Buffered.{BufReader, fill_buf}
use wasmi_plugin_framework.Io.Lines.{
  split_line, split_line-none, split_line_found, split_line_on, behind, on_chunk, read_until,
  read_line,
}
use wasmi_plugin_framework.Pipe.{Inner}
use wasmi_plugin_framework.Pipe.Fifo.{read_lem}
use wasmi_plugin_framework.Pipe.Stream.{pipe_reader}

-- What a read has returned, where the line, what is behind it, and whether it ends, are these.
pub record IsLine (head rest : Bytes) (found closed : Bool)
    (out : IoResult ℕ × Bytes × BufReader Inner) : Type 0 where
  pub line : out.1 ≡ head
  pub left : out.2.buf ++ out.2.inner.buf ≡ rest
  pub same_end : out.2.inner.closed ≡ closed
  pub result : out.0 ≡ (if found || closed then ok (length head) else err would_block)

abbrev pub HasLine : Bytes → Bool → IoResult ℕ × Bytes × BufReader Inner → Type 0
HasLine all closed out = IsLine (split_line all).0 (split_line all).1 (split_line all).2 closed out

-- The result behind `head`: the count goes up, and an error stays.
behind-result :
    (head bytes : Bytes) (goes : Bool) (r : IoResult ℕ) (line : Bytes) (b : BufReader Inner)
    → r ≡ (if goes then ok (length bytes) else err would_block)
    → (behind head (r, line, b)).0 ≡ (if goes then ok (length (head ++ bytes)) else err would_block)
behind-result head bytes true (ok n) line b h = ground (arith, length-append head bytes, h)
behind-result head bytes true (err e) line b h = cc h
behind-result head bytes false (ok n) line b h = cc h
behind-result head bytes false (err e) line b h = h

behind-parts :
    (head : Bytes) (out : IoResult ℕ × Bytes × BufReader Inner)
    → ((behind head out).1 ≡ head ++ out.1) × ((behind head out).2 ≡ out.2)
behind-parts head (ok n, line, b) = (refl, refl)
behind-parts head (err e, line, b) = (refl, refl)

-- What comes behind a part without a newline.
behind-HasLine :
    (head more : Bytes) (closed : Bool) (out : IoResult ℕ × Bytes × BufReader Inner)
    → (split_line head).2 ≡ false
    → HasLine more closed out
    → HasLine (head ++ more) closed (behind head out)
behind-HasLine head more closed (r, line, b) none_found x =
    let (l, o) = behind-parts head (r, line, b) in
    let whole : IsLine (head ++ (split_line more).0) (split_line more).1 (split_line more).2 closed
        (behind head (r, line, b)) =
      record {
        line = l ∙ ap (λ t. head ++ t) x.line;
        left = ap (λ (t : BufReader Inner). t.buf ++ t.inner.buf) o ∙ x.left;
        same_end = ap (λ (t : BufReader Inner). t.inner.closed) o ∙ x.same_end;
        result = behind-result head (split_line more).0 _ r line b x.result;
      } in
    rw (split_line_on head more none_found) whole

-- A part of the stream in the buffer, with `more` behind it.
chunk_lem :
    (again : BufReader Inner → IoResult ℕ × Bytes × BufReader Inner) (cs : Bytes) (inner : Inner)
    → HasLine inner.buf inner.closed (again (record { buf = []; inner = inner }))
    → HasLine (cs ++ inner.buf) inner.closed (
        on_chunk again
          (split_line cs).2
          (split_line cs).0
          (split_line cs).1
          (record { buf = cs; inner = inner }))
chunk_lem again cs inner ih = elim (Bool-cases (split_line cs).2) [
  | inl found ↦
      rw (split_line_found cs inner.buf found, found)
        (record { line = refl; left = refl; same_end = refl; result = refl })
  | inr not_found ↦
      let (whole, none_left) = split_line-none cs not_found in
      rw (not_found, whole) (behind-HasLine cs inner.buf inner.closed _ not_found ih)
]

read_until_lem :
    (fuel : ℕ) (buf queue : Bytes) (closed : Bool) (waker : Option ℕ)
    → length queue + min 1 (length buf) < fuel
    → HasLine (buf ++ queue) closed (
        read_until fuel
          (record { buf = buf; inner = record { buf = queue; closed = closed; waker = waker } }))
unfolding read_until fill_buf
read_until_lem zero buf queue closed waker enough = absurd (omega arith)
read_until_lem (suc fuel) (c ∷ cs) queue closed waker enough =
    chunk_lem (read_until fuel) (c ∷ cs) (record { buf = queue; closed = closed; waker = waker })
      (read_until_lem fuel [] queue closed waker (omega arith))
read_until_lem (suc fuel) [] [] true waker enough =
    rw (read_lem (record { buf = []; closed = true; waker = waker }) 8192)
      (record { line = refl; left = refl; same_end = refl; result = refl })
read_until_lem (suc fuel) [] [] false waker enough =
    rw (read_lem (record { buf = []; closed = false; waker = waker }) 8192)
      (record { line = refl; left = refl; same_end = refl; result = refl })
read_until_lem (suc fuel) [] (q ∷ queue) closed waker enough =
    rw (read_lem (record { buf = q ∷ queue; closed = closed; waker = waker }) 8192) (
      subst
        (λ all. HasLine (q ∷ all) closed (
          on_chunk (read_until fuel) (split_line (q ∷ take 8191 queue)).2
            (split_line (q ∷ take 8191 queue)).0 (split_line (q ∷ take 8191 queue)).1
            (record { buf = q ∷ take 8191 queue; inner = rest })))
        (take-append-drop 8191 queue)
        (chunk_lem (read_until fuel) (q ∷ take 8191 queue) rest (
          read_until_lem fuel [] (drop 8191 queue) closed waker
            (omega (arith, length-drop 8191 queue)))))
  where
    rest : Inner
    rest = record { buf = drop 8191 queue; closed = closed; waker = waker }

-- From a pipe `read_line` returns the first line, and leaves what is behind it, in however many parts
-- the buffer is filled. Where there is no newline it takes all there is, and returns that as the last
-- line of a closed pipe, with the count 0 at its end, or `WouldBlock` on an open one.
pub read_line_lem :
    (b : BufReader Inner) → HasLine (b.buf ++ b.inner.buf) b.inner.closed (read_line b)
unfolding read_line
read_line_lem b =
    read_until_lem (length (b.buf ++ b.inner.buf) + 2) b.buf b.inner.buf b.inner.closed
      b.inner.waker (omega (arith, length-append b.buf b.inner.buf))

-- A line that is there whole is returned whole.
pub read_line_whole :
    (b : BufReader Inner) (bytes : Bytes)
    → (split_line bytes).2 ≡ false
    → b.buf ++ b.inner.buf ≡ bytes ++ (b'\n' ∷ [])
    → read_line b ≡ (ok (suc (length bytes)), bytes ++ (b'\n' ∷ []), (read_line b).2)
unfolding split_line
read_line_whole b bytes plain there =
    let x = read_line_lem b in
    let e : split_line (b.buf ++ b.inner.buf) ≡ (bytes ++ (b'\n' ∷ []), [], true) =
      ap split_line there ∙ split_line_on bytes (b'\n' ∷ []) plain in
    let line : (read_line b).1 ≡ bytes ++ (b'\n' ∷ []) = x.line ∙ ap (λ s. s.0) e in
    let result : (read_line b).0 ≡ ok (suc (length bytes)) =
      (rw (e) at x.result) ∙ ap ok (omega (arith, length-append bytes (b'\n' ∷ []))) in
    λ i. (result i, line i, (read_line b).2)
