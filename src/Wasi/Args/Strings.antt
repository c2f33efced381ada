-- ===== src/Wasi/Args/Strings.antt =====
-- A table of pointers and a block of NUL-terminated strings in memory, as WASI describes them.
use wasmi_plugin_framework.Base.{
  ℕ, suc, ◌+◌, ◌*◌, ◌%◌, ◌^◌, ◌≤◌, ◌≡◌, refl, sym, ◌∙◌, subst, ◌⊎◌, inl, inr, some, List, [], ◌∷◌,
  ◌++◌, length, arith, length-append, eq_nil_of_length,
}
use wasmi_plugin_framework.Bytes.{Bytes, to_le, length-to_le}
use wasmi_plugin_framework.Memory.{GuestMemory}

-- The strings, each with its terminator.
abbrev pub block : List Bytes → Bytes
block [] = []
block (s ∷ ss) = (s ++ (0 ∷ [])) ++ block ss

-- The table of pointers to the strings of a block that starts at `b`.
abbrev pub table : ℕ → List Bytes → Bytes
table b [] = []
table b (s ∷ ss) = to_le 4 (b % 2 ^ 32) ++ table (b + (length s + 1)) ss

-- The bytes `[o, o + n)` and `[p, p + k)` do not meet.
abbrev pub Apart : ℕ → ℕ → ℕ → ℕ → Type 0
Apart o n p k = (o + n ≤ p) ⊎ (p + k ≤ o)

pub Apart-within : (o n p k p' k' : ℕ) → Apart o n p k → p ≤ p' → p' + k' ≤ p + k → Apart o n p' k'
Apart-within o n p k p' k' (inl h) lo hi = inl (omega arith)
Apart-within o n p k p' k' (inr h) lo hi = inr (omega arith)

-- Parts of two ranges that do not meet do not meet.
pub Apart-parts :
    (o n p k o' n' p' k' : ℕ)
    → Apart o n p k
    → o ≤ o'
    → o' + n' ≤ o + n
    → p ≤ p'
    → p' + k' ≤ p + k
    → Apart o' n' p' k'
Apart-parts o n p k o' n' p' k' (inl h) a b c d = inl (omega arith)
Apart-parts o n p k o' n' p' k' (inr h) a b c d = inr (omega arith)

pub Apart-sym : (o n p k : ℕ) → Apart o n p k → Apart p k o n
Apart-sym o n p k (inl h) = inr h
Apart-sym o n p k (inr h) = inl h

module _ {M : Type 0} ⦃mem : GuestMemory M⦄ where
  -- The strings `ss` lie in `m'` with their table at `t` and their block at `b`, and nothing else of
  -- `m` has changed.
  pub record IsLaid (m m' : M) (t b : ℕ) (ss : List Bytes) : Type 0 where
    pub same_size : mem.size m' ≡ mem.size m
    pub pointers : mem.read m' t (4 * length ss) ≡ some (table b ss)
    pub strings : mem.read m' b (length (block ss)) ≡ some (block ss)
    pub frame :
        (o n : ℕ)
        → Apart o n t (4 * length ss)
        → Apart o n b (length (block ss))
        → mem.read m' o n ≡ mem.read m o n

  read_nothing : (m : M) (o : ℕ) → o ≤ mem.size m → mem.read m o 0 ≡ some []
  read_nothing m o h =
      let (bs, e) = mem.read_in m o 0 (omega arith) in
      e ∙ (λ i. some (eq_nil_of_length bs (mem.length-read m o 0 bs e) i))

  pub IsLaid-nil : (m : M) (t b : ℕ) → t ≤ mem.size m → b ≤ mem.size m → IsLaid m m t b []
  IsLaid-nil m t b ht hb = record {
    same_size = refl;
    pointers = read_nothing m t ht;
    strings = read_nothing m b hb;
    frame = λ o n p q. refl;
  }

  -- A pointer and a string, and behind them the rest.
  pub IsLaid-cons :
      (m m1 m2 m' : M) (t b : ℕ) (s : Bytes) (ss : List Bytes)
      → mem.write m t (to_le 4 (b % 2 ^ 32)) ≡ some m1
      → mem.write m1 b (s ++ (0 ∷ [])) ≡ some m2
      → Apart t (4 * suc (length ss)) b (length (block (s ∷ ss)))
      → IsLaid m2 m' (t + 4) (b + (length s + 1)) ss
      → IsLaid m m' t b (s ∷ ss)
  IsLaid-cons m m1 m2 m' t b s ss e1 e2 apart laid = record {
    same_size =
        laid.same_size
        ∙ mem.size-write m1 b (s ++ (0 ∷ [])) m2 e2
        ∙ mem.size-write m t (to_le 4 (b % 2 ^ 32)) m1 e1;
    pointers =
        rw (four_more (length ss))
          (mem.read-append m' t 4 (4 * length ss) (to_le 4 (b % 2 ^ 32)) _ pointer laid.pointers);
    strings = rw (length-append (s ++ (0 ∷ [])) (block ss)) (
        mem.read-append m' b (length (s ++ (0 ∷ []))) (length (block ss)) _ _ string
          (rw (len) laid.strings));
    frame = λ o n p q.
        laid.frame o n
          (Apart-within o n t (4 * suc (length ss)) (t + 4) (4 * length ss) p (omega arith)
            (omega arith))
          (Apart-within o n b whole (b + (length s + 1)) (length (block ss)) q (omega arith)
            (omega (arith, len, more)))
        ∙ below o n (Apart-within o n t (4 * suc (length ss)) t 4 p (omega arith) (omega arith)) (
            Apart-within o n b whole b (length (s ++ (0 ∷ []))) q (omega arith)
              (omega (arith, more)));
  }
    where
      len : length (s ++ (0 ∷ [])) ≡ length s + 1
      len = length-append s (0 ∷ [])

      whole : ℕ
      whole = length (block (s ∷ ss))

      more : whole ≡ length (s ++ (0 ∷ [])) + length (block ss)
      more = length-append (s ++ (0 ∷ [])) (block ss)

      four_more : (n : ℕ) → 4 * suc n ≡ 4 + 4 * n
      four_more n = omega arith

      below :
          (o n : ℕ)
          → Apart o n t 4
          → Apart o n b (length (s ++ (0 ∷ [])))
          → mem.read m2 o n ≡ mem.read m o n
      below o n p q =
          mem.read-write_apart m1 b (s ++ (0 ∷ [])) m2 o n e2 q
          ∙ mem.read-write_apart m t (to_le 4 (b % 2 ^ 32)) m1 o n e1
              (subst (λ k. Apart o n t k) (sym (length-to_le 4 (b % 2 ^ 32))) p)

      head_apart : Apart t 4 b whole
      head_apart =
          Apart-parts t (4 * suc (length ss)) b whole t 4 b whole apart (omega arith) (omega arith)
            (omega arith) (omega arith)

      pointer : mem.read m' t 4 ≡ some (to_le 4 (b % 2 ^ 32))
      pointer =
          laid.frame t 4 (inl (omega arith)) (
            Apart-within t 4 b whole (b + (length s + 1)) (length (block ss)) head_apart
              (omega arith) (omega (arith, len, more)))
          ∙ mem.read-write_apart m1 b (s ++ (0 ∷ [])) m2 t 4 e2 (
              Apart-within t 4 b whole b (length (s ++ (0 ∷ []))) head_apart (omega arith)
                (omega (arith, more)))
          ∙ subst (λ k. mem.read m1 t k ≡ some (to_le 4 (b % 2 ^ 32))) (length-to_le 4 (b % 2 ^ 32))
              (mem.read-write_self m t (to_le 4 (b % 2 ^ 32)) m1 e1)

      string : mem.read m' b (length (s ++ (0 ∷ []))) ≡ some (s ++ (0 ∷ []))
      string =
          laid.frame b (length (s ++ (0 ∷ [])))
            (Apart-within b (length (s ++ (0 ∷ []))) t (4 * suc (length ss)) (t + 4) (4 * length ss)
              (Apart-sym t (4 * suc (length ss)) b (length (s ++ (0 ∷ []))) (
                Apart-within t (4 * suc (length ss)) b whole b (length (s ++ (0 ∷ []))) apart
                  (omega arith) (omega (arith, more))))
              (omega arith) (omega arith))
            (inl (omega (arith, len)))
          ∙ mem.read-write_self m1 b (s ++ (0 ∷ [])) m2 e2
