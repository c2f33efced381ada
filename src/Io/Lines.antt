-- ===== src/Io/Lines.antt =====
-- Lines of a stream. `read_line` is that of `std::io::BufRead`, written out from its documentation: it
-- reads up to a newline and with it, or to the end of the stream; what it has read before an error
-- stays in the line. The test of the line as UTF-8 is left to the parser of the line.
use wasmi_plugin_framework.Base.{
  ℕ, zero, suc, ◌+◌, ◌<◌, ◌≡◌, refl, ap, Bool-cases, inl, inr, Bool, true, false, [], ◌∷◌, ◌++◌,
  ◌==◌, length, arith, if◌then◌else◌,
}
use wasmi_plugin_framework.Bytes.{Bytes}
use wasmi_plugin_framework.Io.{IoResult, ok, err, other, Read}
use wasmi_plugin_framework.Io.Buffered.{BufReader, fill_buf, remaining}

-- The bytes up to the first newline and with it, those behind it, and whether there is one.
unfoldable pub split_line : Bytes → Bytes × Bytes × Bool
split_line [] = ([], [], false)
split_line (b ∷ bs) =
    let (head, rest, found) = split_line bs in
    if b == b'\n' then (b ∷ [], bs, true) else (b ∷ head, rest, found)

pub split_line-append : (bs : Bytes) → (split_line bs).0 ++ (split_line bs).1 ≡ bs
unfolding split_line
split_line-append [] = refl
split_line-append (b ∷ bs) = ground (arith, split_line-append bs)

pub split_line-none :
    (bs : Bytes) → (split_line bs).2 ≡ false → ((split_line bs).0 ≡ bs) × ((split_line bs).1 ≡ [])
unfolding split_line
split_line-none [] h = (refl, refl)
split_line-none (b ∷ bs) h = ground (arith, split_line-none bs)

pub length-split_line :
    (bs : Bytes) → (split_line bs).2 ≡ true → length (split_line bs).1 < length bs
unfolding split_line
length-split_line [] h = cc h
length-split_line (b ∷ bs) h = ground (arith, length-split_line bs)

-- A line that was found ends with its newline.
pub split_line_last :
    (bs : Bytes)
    → (split_line bs).2 ≡ true
    → (front : Bytes) × ((split_line bs).0 ≡ front ++ (b'\n' ∷ []))
unfolding split_line
split_line_last [] h = cc h
split_line_last (b ∷ bs) h = elim (Bool-cases (b == b'\n')) [
  | inl e ↦ ([], ground (arith, e))
  | inr e ↦
      let (front, last) = split_line_last bs (rw (e) at h) in
      (b ∷ front, rw (e) (ap (λ x. b ∷ x) last))
]

-- Where the first part has a newline, it has the line.
pub split_line_found :
    (bs more : Bytes)
    → (split_line bs).2 ≡ true
    → split_line (bs ++ more) ≡ ((split_line bs).0, (split_line bs).1 ++ more, true)
unfolding split_line
split_line_found [] more h = cc h
split_line_found (b ∷ bs) more h = ground (arith, split_line_found bs more)

-- Where it has none, it is the front of the line.
pub split_line_on :
    (bs more : Bytes)
    → (split_line bs).2 ≡ false
    → split_line (bs ++ more)
      ≡ (bs ++ (split_line more).0, (split_line more).1, (split_line more).2)
unfolding split_line
split_line_on [] more h = refl
split_line_on (b ∷ bs) more h = ground (arith, split_line_on bs more)

module _ {R : Type 0} where
  -- `bytes` were there before what the rest of the read gives.
  abbrev pub behind : Bytes → IoResult ℕ × Bytes × BufReader R → IoResult ℕ × Bytes × BufReader R
  behind bytes (ok n, line, b) = (ok (length bytes + n), bytes ++ line, b)
  behind bytes (err e, line, b) = (err e, bytes ++ line, b)

  abbrev pub on_chunk :
      (BufReader R → IoResult ℕ × Bytes × BufReader R)
      → Bool
      → Bytes
      → Bytes
      → BufReader R
      → IoResult ℕ × Bytes × BufReader R
  on_chunk again true head rest b = (ok (length head), head, record b { buf = rest })
  on_chunk again false head rest b = behind head (again (record b { buf = [] }))

  abbrev pub after_fill :
      (BufReader R → IoResult ℕ × Bytes × BufReader R)
      → IoResult Bytes
      → BufReader R
      → IoResult ℕ × Bytes × BufReader R
  after_fill again (err e) b = (err e, [], b)
  after_fill again (ok []) b = (ok 0, [], b)
  after_fill again (ok (c ∷ cs)) b =
      let (head, rest, found) = split_line (c ∷ cs) in on_chunk again found head rest b

module _ {R : Type 0} ⦃rd : Read R⦄ where
  -- The rounds of `read_until`, one for each time that the buffer is filled.
  unfoldable pub read_until : ℕ → BufReader R → IoResult ℕ × Bytes × BufReader R
  unfolding fill_buf split_line
  read_until zero b = (err other, [], b)
  read_until (suc fuel) b = let (r, b') = fill_buf b in after_fill (read_until fuel) r b'

  -- Each fill that goes on takes a byte at least, so the rounds are enough.
  unfoldable pub read_line : BufReader R → IoResult ℕ × Bytes × BufReader R
  unfolding read_until
  read_line b = read_until (length (remaining b) + 2) b
