-- ===== src/Wasi/FdRead/Errors.antt =====
-- `fd_read` where it does not succeed.
use wasmi_plugin_framework.Base.{
  ℕ, zero, suc, ◌+◌, ◌≤◌, ◌≡◌, refl, sym, ◌∙◌, ◌≢◌, ap, ◌⊎◌, inl, inr, Bool, true, false, some, [],
  ◌∷◌, ◌++◌, ltb, length, arith, if◌then◌else◌, append_assoc, ◌==◌,
}
use wasmi_plugin_framework.Bytes.{Bytes}
use wasmi_plugin_framework.Io.{Read}
use wasmi_plugin_framework.Memory.{GuestMemory}
use wasmi_plugin_framework.Wasi.Context.{Errno, success, again}
use wasmi_plugin_framework.Wasi.Caller.{
  Caller, Flow, next, leave, record_addr, and_then, read_u32, pure, write_or_panic,
}
use wasmi_plugin_framework.Wasi.Caller.Invert.{
  and_then-leave, read_u32-next, read_u32-leave, write_or_panic-next, write_or_panic-leave,
}
use wasmi_plugin_framework.Wasi.FdRead.{stdin_read, fd_read_loop}
use wasmi_plugin_framework.Wasi.FdRead.Taken.{pending, HasRead, stdin_read-next, stdin_read-leave}
use wasmi_plugin_framework.Wasi.FdRead.Deliver.{round_end}

module _ {M R W : Type 0} ⦃mem : GuestMemory M⦄ ⦃rd : Read R⦄ where
  -- The loop has left the call: what is gone from stdin by then, and what the error says.
  pub record HasLeft (rounds : ℕ) (c c' : Caller M R W) (e : Errno) : Type 0 where
    pub bs : Bytes
    pub taken : pending c ≡ bs ++ pending c'
    pub ran : 1 ≤ rounds
    pub first_kept : rounds ≤ 1 → bs ≡ []
    pub fails : e ≢ success
    pub waits : e ≡ again → (c'.ctx.awaiting_stdin ≡ true) × (c'.fuel ≡ 0)

  round_end-leave :
      (rounds i p total addr len : ℕ) (bs : Bytes) (c c3 c' : Caller M R W) (m : M) (e : Errno)
      → ((m1 : M) (t : ℕ) (c4 : Caller M R W)
          → c4.memory ≡ some m1
          → fd_read_loop rounds (i + 1) p t c4 ≡ leave e c'
          → HasLeft rounds c4 c' e)
      → c.memory ≡ some m
      → HasRead len c bs c3
      → round_end rounds i p total addr len bs c3 ≡ leave e c'
      → HasLeft (suc rounds) c c' e
  round_end-leave rounds i p total addr len [] c c3 c' m e rest em r h = cc
  round_end-leave rounds i p total addr len (b ∷ bs) c c3 c' m e rest em r h =
      stored (and_then-leave (write_or_panic addr (b ∷ bs) c3) _ (rw nonempty at h))
    where
      nonempty : (length (b ∷ bs) == 0) ≡ false
      nonempty = ground arith

      further : Bool → Caller M R W → Flow M R W ℕ
      further short =
          if short
          then pure (total + length (b ∷ bs))
          else fd_read_loop rounds (i + 1) p (total + length (b ∷ bs))

      continued :
          (m1 : M) (short : Bool)
          → further short (record c3 { memory = some m1 }) ≡ leave e c'
          → HasLeft (suc rounds) c c' e
      continued m1 true k = cc
      continued m1 false k =
          let d = rest m1 (total + length (b ∷ bs)) (record c3 { memory = some m1 }) refl k in
          record {
            bs = (b ∷ bs) ++ d.bs;
            taken =
                r.taken
                ∙ ap (λ t. (b ∷ bs) ++ t) d.taken
                ∙ sym (append_assoc (b ∷ bs) d.bs (pending c'));
            ran = omega arith;
            first_kept = λ few. let started = d.ran in absurd (omega arith);
            fails = d.fails;
            waits = d.waits;
          }

      stored :
          (write_or_panic addr (b ∷ bs) c3 ≡ leave e c')
            ⊎ ((u : Unit {0}) × (c4 : Caller M R W) × (write_or_panic addr (b ∷ bs) c3 ≡ next u c4)
                × (further (ltb (length (b ∷ bs)) len) c4 ≡ leave e c'))
          → HasLeft (suc rounds) c c' e
      stored (inl left) = absurd (write_or_panic-leave addr (b ∷ bs) e c3 c' left)
      stored (inr (u, c4, w, k)) =
          let (m1, w1, e4) = write_or_panic-next addr (b ∷ bs) c3 c4 m (r.same_memory ∙ em) w in
          continued m1 (ltb (length (b ∷ bs)) len) (rw e4 at k)

  pub fd_read_loop-leave :
      (rounds i p total : ℕ) (c c' : Caller M R W) (m : M) (e : Errno)
      → c.memory ≡ some m
      → fd_read_loop rounds i p total c ≡ leave e c'
      → HasLeft rounds c c' e
  unfolding fd_read_loop
  fd_read_loop-leave zero i p total c c' m e em h = cc
  fd_read_loop-leave (suc rounds) i p total c c' m e em h =
      with_addr (and_then-leave (read_u32 (record_addr p 8 i) c) _ h)
        (λ m1 t c4 e4 h4. fd_read_loop-leave rounds (i + 1) p t c4 c' m1 e e4 h4)
    where
      Rest : Type 0
      Rest =
          (m1 : M) (t : ℕ) (c4 : Caller M R W)
          → c4.memory ≡ some m1
          → fd_read_loop rounds (i + 1) p t c4 ≡ leave e c'
          → HasLeft rounds c4 c' e

      with_bytes :
          (addr len : ℕ)
          → (stdin_read len c ≡ leave e c')
            ⊎ ((bs : Bytes) × (c3 : Caller M R W) × (stdin_read len c ≡ next bs c3)
                × (round_end rounds i p total addr len bs c3 ≡ leave e c'))
          → Rest
          → HasLeft (suc rounds) c c' e
      with_bytes addr len (inl left) rest =
          let (kept, same, fails, waits) = stdin_read-leave len c e c' left in
          record {
            bs = [];
            taken = sym kept;
            ran = omega arith;
            first_kept = λ few. refl;
            fails = fails;
            waits = waits;
          }
      with_bytes addr len (inr (bs, c3, h3, k3)) rest =
          round_end-leave rounds i p total addr len bs c c3 c' m e rest em
            (stdin_read-next len c bs c3 h3) k3

      with_len :
          (addr : ℕ)
          → (read_u32 (record_addr (record_addr p 8 i) 4 1) c ≡ leave e c')
            ⊎ ((len : ℕ) × (c2 : Caller M R W) × (read_u32 (record_addr (record_addr p 8 i) 4 1) c
                  ≡ next len c2)
                × (and_then (stdin_read len c2) (round_end rounds i p total addr len) ≡ leave e c'))
          → Rest
          → HasLeft (suc rounds) c c' e
      with_len addr (inl left) rest = absurd (read_u32-leave _ e c c' left)
      with_len addr (inr (len, c2, h2, k2)) rest =
          let (s2, wl) = read_u32-next _ len c c2 m em h2 in
          with_bytes addr len (and_then-leave (stdin_read len c) _ (rw s2 at k2)) rest

      with_addr :
          (read_u32 (record_addr p 8 i) c ≡ leave e c')
            ⊎ ((addr : ℕ) × (c1 : Caller M R W) × (read_u32 (record_addr p 8 i) c ≡ next addr c1)
                × (and_then
                      (read_u32 (record_addr (record_addr p 8 i) 4 1) c1)
                      (λ len c2. and_then (stdin_read len c2) (round_end rounds i p total addr len))
                    ≡ leave e c'))
          → Rest
          → HasLeft (suc rounds) c c' e
      with_addr (inl left) rest = absurd (read_u32-leave _ e c c' left)
      with_addr (inr (addr, c1, h1, k1)) rest =
          let (s1, wa) = read_u32-next _ addr c c1 m em h1 in
          with_len addr
            (and_then-leave (read_u32 (record_addr (record_addr p 8 i) 4 1) c) _ (rw s1 at k1)) rest
