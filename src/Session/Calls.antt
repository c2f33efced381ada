-- ===== src/Session/Calls.antt =====
-- What a guest finds after a read with one vector.
use wasmi_plugin_framework.Base.{
  ℕ, ◌+◌, ◌%◌, ◌<◌, ◌≤◌, ◌^◌, ◌≡◌, refl, sym, ap, ◌∙◌, subst, ◌⊎◌, inl, inr, some, [], ◌∷◌, length,
  leb, leb→le, leb→gt, arith, if◌then◌else◌, Bool-cases, ℤ, as_usize, take, drop, length-drop,
  eq_nil_of_length,
}
use wasmi_plugin_framework.Bytes.{Bytes, to_le, from_le, length-to_le, from_le-to_le}
use wasmi_plugin_framework.Memory.{GuestMemory}
use wasmi_plugin_framework.Memory.Words.{when, when-some}
use wasmi_plugin_framework.Pipe.Stream.{pipe_reader}
use wasmi_plugin_framework.Wasi.Caller.{record_addr}
use wasmi_plugin_framework.Wasi.Caller.Invert.{IsWord}
use wasmi_plugin_framework.Wasi.FdRead.Scatter.{scatter}
use wasmi_plugin_framework.Session.{OneVector, Finds}

module _ {M : Type 0} ⦃mem : GuestMemory M⦄ where
  no_room : (i p : ℕ) (m m1 : M) (bs : Bytes) → scatter 0 i p m bs ≡ some m1 → length bs ≡ 0
  unfolding scatter
  no_room i p m m1 [] h = refl
  no_room i p m m1 (b ∷ bs) h = cc h

  scatter_one_lem :
      (i p : ℕ) (m : M) (b : ℕ) (bs : Bytes) (addr len : ℕ)
      → IsWord m (record_addr p 8 i) addr
      → IsWord m (record_addr (record_addr p 8 i) 4 1) len
      → scatter 1 i p m (b ∷ bs) ≡ (
          if leb (length (b ∷ bs)) len
          then mem.write m addr (b ∷ bs)
          else when
              (mem.write m addr (take len (b ∷ bs)))
              (λ m1. scatter 0 (i + 1) p m1 (drop len (b ∷ bs))))
  unfolding scatter
  scatter_one_lem i p m b bs addr len (xs, ex, ax) (ys, ey, ay) = ground arith

  scatter_one :
      (p : ℕ) (m m1 : M) (b : ℕ) (bs : Bytes) (addr len : ℕ)
      → IsWord m (record_addr p 8 0) addr
      → IsWord m (record_addr (record_addr p 8 0) 4 1) len
      → scatter 1 0 p m (b ∷ bs) ≡ some m1
      → (length (b ∷ bs) ≤ len) × (mem.write m addr (b ∷ bs) ≡ some m1)
  scatter_one p m m1 b bs addr len x y h =
      let h1 = sym (scatter_one_lem 0 p m b bs addr len x y) ∙ h in
      elim (Bool-cases (leb (length (b ∷ bs)) len)) [
        | inl fits ↦ (leb→le (length (b ∷ bs)) len fits, (rw (fits) at h1))
        | inr over ↦
            let (m2, w, rest) =
              when-some (mem.write m addr (take len (b ∷ bs))) _ (rw (over) at h1) in
            absurd (
              omega (
                arith,
                leb→gt (length (b ∷ bs)) len over,
                no_room 1 p m2 m1 (drop len (b ∷ bs)) rest,
                length-drop len (b ∷ bs),
              ))
      ]

  -- The count that the call leaves at `nread_ptr`.
  count_lem :
      (nread k n : ℕ) (m1 m' : M)
      → k < 2 ^ 32
      → mem.write m1 nread (to_le 4 (k % 2 ^ 32)) ≡ some m'
      → IsWord m' nread n
      → n ≡ k
  count_lem nread k n m1 m' small w (ws, ew, aw) =
      let word = to_le 4 (k % 2 ^ 32) in
      let read_back : mem.read m' nread 4 ≡ some word =
        subst (λ l. mem.read m' nread l ≡ some word) (length-to_le 4 (k % 2 ^ 32))
          (mem.read-write_self m1 nread word m' w) in
      let same : ws ≡ word = cc (read_back, ew) in
      aw ∙ ap from_le same ∙ from_le-to_le 4 (k % 2 ^ 32) (omega arith) ∙ omega arith

  -- The guest finds the bytes that it was served.
  pub served_bytes :
      (iov_ptr nread_ptr : ℤ) (m m1 m' : M) (addr len : ℕ) (bs got : Bytes)
      → OneVector iov_ptr nread_ptr m addr len
      → scatter 1 0 (as_usize iov_ptr) m bs ≡ some m1
      → mem.write m1 (as_usize nread_ptr) (to_le 4 (length bs % 2 ^ 32)) ≡ some m'
      → Finds m' nread_ptr addr got
      → got ≡ bs
  served_bytes iov_ptr nread_ptr m m1 m' addr len [] got v s w (n, word, there) =
      let zero_read : n ≡ 0 = count_lem (as_usize nread_ptr) 0 n m1 m' (omega arith) w word in
      eq_nil_of_length got (mem.length-read m' addr n got there ∙ zero_read)
  served_bytes iov_ptr nread_ptr m m1 m' addr len (b ∷ bs) got v s w (n, word, there) =
      let (fits, put) =
        scatter_one (as_usize iov_ptr) m m1 b bs addr len v.addr_word v.len_word s in
      let all = b ∷ bs in
      let counted : n ≡ length all =
        count_lem (as_usize nread_ptr) (length all) n m1 m' (omega (arith, v.small)) w word in
      let stays : mem.read m' addr (length all) ≡ mem.read m1 addr (length all) =
        mem.read-write_apart m1 (as_usize nread_ptr) (to_le 4 (length all % 2 ^ 32)) m' addr
          (length all) w (apart_from v.apart fits) in
      cc (there, counted, stays, mem.read-write_self m addr all m1 put)
    where
      apart_from :
          (as_usize nread_ptr + 4 ≤ addr) ⊎ (addr + len ≤ as_usize nread_ptr)
          → length (b ∷ bs) ≤ len
          → (addr + length (b ∷ bs) ≤ as_usize nread_ptr)
            ⊎ (as_usize nread_ptr + length (to_le 4 (length (b ∷ bs) % 2 ^ 32)) ≤ addr)
      apart_from (inl before) fits = inr (omega (arith, length-to_le 4 (length (b ∷ bs) % 2 ^ 32)))
      apart_from (inr behind) fits = inl (omega arith)
