-- ===== src/Wasi/FdRead/Deliver.antt =====
-- `fd_read` hands the guest the bytes that it takes off stdin: all of them, in order, in the buffers
-- that the guest's vectors name.
use wasmi_plugin_framework.Base.{
  ℕ, zero, suc, ◌+◌, ◌≡◌, refl, sym, ◌∙◌, subst, ap, Bool, true, false, some, [], ◌∷◌, ◌++◌, ltb,
  length, arith, if◌then◌else◌, append_assoc, length-append, ◌==◌,
}
use wasmi_plugin_framework.Bytes.{Bytes}
use wasmi_plugin_framework.Io.{Read}
use wasmi_plugin_framework.Memory.{GuestMemory}
use wasmi_plugin_framework.Wasi.Caller.{
  Caller, Flow, next, record_addr, read_u32, pure, ◌>>◌, write_or_panic,
}
use wasmi_plugin_framework.Wasi.Caller.Invert.{
  and_then-next, IsWord, read_u32-next, write_or_panic-next,
}
use wasmi_plugin_framework.Wasi.FdRead.{stdin_read, fd_read_loop}
use wasmi_plugin_framework.Wasi.FdRead.Taken.{pending, HasRead, stdin_read-next}
use wasmi_plugin_framework.Wasi.FdRead.Scatter.{scatter, scatter-nil, scatter_last, scatter_full}

module _ {M R W : Type 0} ⦃mem : GuestMemory M⦄ ⦃rd : Read R⦄ where
  -- The loop, entered with `total` bytes read, has gone on with `total'`: what it has taken off
  -- stdin, and where that went.
  pub record HasDelivered (rounds i p : ℕ) (m : M) (total total' : ℕ) (c c' : Caller M R W)
      : Type 0 where
    pub bs : Bytes
    pub m' : M
    pub taken : pending c ≡ bs ++ pending c'
    pub count : total' ≡ total + length bs
    pub memory : c'.memory ≡ some m'
    pub placed : scatter rounds i p m bs ≡ some m'

  delivered_nothing :
      (rounds i p : ℕ) (m : M) (total : ℕ) (c c' : Caller M R W)
      → pending c ≡ pending c'
      → c'.memory ≡ some m
      → HasDelivered rounds i p m total total c c'
  delivered_nothing rounds i p m total c c' same e = record {
    bs = [];
    m' = m;
    taken = same;
    count = omega arith;
    memory = e;
    placed = scatter-nil rounds i p m;
  }

  -- What the loop does in a round once it has read `bs`.
  abbrev pub round_end : ℕ → ℕ → ℕ → ℕ → ℕ → ℕ → Bytes → Caller M R W → Flow M R W ℕ
  round_end rounds i p total addr len bs = if length bs == 0 then pure total else do
    write_or_panic addr bs
    if ltb (length bs) len
        then pure (total + length bs)
        else fd_read_loop rounds (i + 1) p (total + length bs)

  round_end-next :
      (rounds i p total addr len : ℕ) (bs : Bytes) (c c3 c' : Caller M R W) (m : M) (total' : ℕ)
      → ((m1 : M) (t : ℕ) (c4 : Caller M R W)
          → c4.memory ≡ some m1
          → fd_read_loop rounds (i + 1) p t c4 ≡ next total' c'
          → HasDelivered rounds (i + 1) p m1 t total' c4 c')
      → c.memory ≡ some m
      → IsWord m (record_addr p 8 i) addr
      → IsWord m (record_addr (record_addr p 8 i) 4 1) len
      → HasRead len c bs c3
      → round_end rounds i p total addr len bs c3 ≡ next total' c'
      → HasDelivered (suc rounds) i p m total total' c c'
  round_end-next rounds i p total addr len [] c c3 c' m total' rest e wa wl r h = record {
    bs = [];
    m' = m;
    taken = ground arith;
    count = ground arith;
    memory = ground arith;
    placed = scatter-nil (suc rounds) i p m;
  }
  round_end-next rounds i p total addr len (b ∷ bs) c c3 c' m total' rest e wa wl r h =
      stored (and_then-next (write_or_panic addr (b ∷ bs) c3) _ (rw nonempty at h))
    where
      nonempty : (length (b ∷ bs) == 0) ≡ false
      nonempty = ground arith

      e3 : c3.memory ≡ some m
      e3 = r.same_memory ∙ e

      further : Bool → Caller M R W → Flow M R W ℕ
      further short =
          if short
          then pure (total + length (b ∷ bs))
          else fd_read_loop rounds (i + 1) p (total + length (b ∷ bs))

      continued :
          (m1 : M)
          → mem.write m addr (b ∷ bs) ≡ some m1
          → (short : Bool) → ltb (length (b ∷ bs)) len ≡ short
          → further short (record c3 { memory = some m1 }) ≡ next total' c'
          → HasDelivered (suc rounds) i p m total total' c c'
      continued m1 w true q k = record {
        bs = b ∷ bs;
        m' = m1;
        taken = ground (arith, r.taken);
        count = ground arith;
        memory = ground arith;
        placed = scatter_last rounds i p m m1 b bs addr len wa wl r.fits w;
      }
      continued m1 w false q k =
          let d = rest m1 (total + length (b ∷ bs)) (record c3 { memory = some m1 }) refl k in
          record {
            bs = (b ∷ bs) ++ d.bs;
            m' = d.m';
            taken =
                r.taken
                ∙ ap (λ t. (b ∷ bs) ++ t) d.taken
                ∙ sym (append_assoc (b ∷ bs) d.bs (pending c'));
            count = omega (arith, d.count, length-append (b ∷ bs) d.bs);
            memory = d.memory;
            placed =
                scatter_full rounds i p m m1 b bs d.bs addr len wa wl (ground (arith, r.fits)) w
                ∙ d.placed;
          }

      stored :
          (u : Unit {0}) × (c4 : Caller M R W) × (write_or_panic addr (b ∷ bs) c3 ≡ next u c4)
            × (further (ltb (length (b ∷ bs)) len) c4 ≡ next total' c')
          → HasDelivered (suc rounds) i p m total total' c c'
      stored (u, c4, w, k) =
          let (m1, w1, e4) = write_or_panic-next addr (b ∷ bs) c3 c4 m e3 w in
          continued m1 w1 (ltb (length (b ∷ bs)) len) refl (rw e4 at k)

  pub fd_read_loop-next :
      (rounds i p total : ℕ) (c c' : Caller M R W) (m : M) (total' : ℕ)
      → c.memory ≡ some m
      → fd_read_loop rounds i p total c ≡ next total' c'
      → HasDelivered rounds i p m total total' c c'
  unfolding fd_read_loop
  fd_read_loop-next zero i p total c c' m total' e h = record {
    bs = [];
    m' = m;
    taken = ground arith;
    count = ground arith;
    memory = ground arith;
    placed = scatter-nil zero i p m;
  }
  fd_read_loop-next (suc rounds) i p total c c' m total' e h =
      let (addr, c1, h1, k1) = and_then-next (read_u32 (record_addr p 8 i) c) _ h in
      let (s1, wa) = read_u32-next (record_addr p 8 i) addr c c1 m e h1 in
      let (len, c2, h2, k2) =
        and_then-next (read_u32 (record_addr (record_addr p 8 i) 4 1) c1) _ k1 in
      let (s2, wl) = read_u32-next (record_addr (record_addr p 8 i) 4 1) len c1 c2 m (rw s1 e) h2 in
      let (bs, c3, h3, k3) = and_then-next (stdin_read len c2) _ k2 in
      round_end-next rounds i p total addr len bs c c3 c' m total'
        (λ m1 t c4 e4 h4. fd_read_loop-next rounds (i + 1) p t c4 c' m1 total' e4 h4) e wa wl
        (subst (λ d. HasRead len d bs c3) (s2 ∙ s1) (stdin_read-next len c2 bs c3 h3)) k3
