-- ===== src/Memory/Slices.antt =====
-- Parts of what is read from a memory.
use wasmi_plugin_framework.Base.{
  ℕ, ◌+◌, ◌≤◌, ◌≡◌, refl, sym, ap, ◌∙◌, ◌⊎◌, some, [], ◌∷◌, ◌++◌, length, take, drop, arith, inl,
  inr, ltb, Bool-cases, ltb→lt, ltb→ge,
}
use wasmi_plugin_framework.Bytes.{Bytes}
use wasmi_plugin_framework.Memory.Interface.{GuestMemory}

-- The middle of three lists.
take-drop-append : (xs ys zs : Bytes) → take (length ys) (drop (length xs) (xs ++ (ys ++ zs))) ≡ ys
take-drop-append [] [] zs = refl
take-drop-append [] (y ∷ ys) zs = ap (λ t. y ∷ t) (take-drop-append [] ys zs)
take-drop-append (x ∷ xs) ys zs = take-drop-append xs ys zs

module _ {M : Type 0} ⦃mem : GuestMemory M⦄ where
  in_bounds : (m : M) (off n : ℕ) (bs : Bytes) → mem.read m off n ≡ some bs → off + n ≤ mem.size m
  in_bounds m off n bs e = elim (Bool-cases (ltb (mem.size m) (off + n))) [
    | inl out ↦ cc (e, mem.read_out m off n (ltb→lt (mem.size m) (off + n) out))
    | inr fits ↦ ltb→ge (mem.size m) (off + n) fits
  ]

  -- The bytes `[a, a + n)` of what is read.
  pub read_part :
      (m : M) (off a n rest : ℕ) (bs : Bytes)
      → mem.read m off (a + (n + rest)) ≡ some bs
      → mem.read m (off + a) n ≡ some (take n (drop a bs))
  read_part m off a n rest bs e =
      let room = in_bounds m off (a + (n + rest)) bs e in
      let (xs, ex) = mem.read_in m off a (omega (arith, room)) in
      let (ys, ey) = mem.read_in m (off + a) n (omega (arith, room)) in
      let (zs, ez) = mem.read_in m (off + a + n) rest (omega (arith, room)) in
      let whole =
        mem.read-append m off a (n + rest) xs (ys ++ zs) ex
          (mem.read-append m (off + a) n rest ys zs ey ez) in
      let same : bs ≡ xs ++ (ys ++ zs) = cc (whole, e) in
      ey
      ∙ ap some (
          parts xs ys zs (mem.length-read m off a xs ex) (mem.length-read m (off + a) n ys ey) same)
    where
      parts :
          (xs ys zs : Bytes)
          → length xs ≡ a
          → length ys ≡ n
          → bs ≡ xs ++ (ys ++ zs)
          → ys ≡ take n (drop a bs)
      parts xs ys zs la ln e' = sym (rw (← la, ← ln, e') (take-drop-append xs ys zs))

  -- `bs` lies at `p` in `m'`, and nothing else of `m` has changed.
  pub record IsStored (m m' : M) (p : ℕ) (bs : Bytes) : Type 0 where
    pub there : mem.read m' p (length bs) ≡ some bs
    pub frame : (o n : ℕ) → (o + n ≤ p) ⊎ (p + length bs ≤ o) → mem.read m' o n ≡ mem.read m o n

  pub write-IsStored :
      (m : M) (p : ℕ) (bs : Bytes)
      → p + length bs ≤ mem.size m
      → (m' : M) × (mem.write m p bs ≡ some m') × IsStored m m' p bs
  write-IsStored m p bs room =
      let (m', w) = mem.write_in m p bs room in
      (
        m',
        w,
        record {
          there = mem.read-write_self m p bs m' w;
          frame = λ o k apart. mem.read-write_apart m p bs m' o k w apart;
        },
      )
