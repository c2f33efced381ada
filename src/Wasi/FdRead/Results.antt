-- ===== src/Wasi/FdRead/Results.antt =====
-- The results of `fd_read` as a whole call.
use wasmi_plugin_framework.Base.{
  ℕ, ◌%◌, ◌^◌, ◌≤◌, ◌≡◌, ◌≢◌, refl, sym, ◌∙◌, ap, subst, Option-cases, ◌⊎◌, inl, inr, true, some,
  ◌++◌, length, arith, if◌then◌else◌, Bool-cases, ℤ, pos_part, as_usize, ◌==◌,
}
use wasmi_plugin_framework.Bytes.{Bytes, to_le}
use wasmi_plugin_framework.Io.{Read}
use wasmi_plugin_framework.Memory.{GuestMemory}
use wasmi_plugin_framework.Wasi.Context.{Errno, success, again, badf}
use wasmi_plugin_framework.Wasi.Caller.{
  Caller, Flow, next, leave, returned, finish, and_then, write_or_panic, pure, ◌>>◌, Action,
}
use wasmi_plugin_framework.Wasi.Caller.Invert.{and_then-next, and_then-leave, finish-returned}
use wasmi_plugin_framework.Wasi.FdRead.{fd_read_loop, fd_read}
use wasmi_plugin_framework.Wasi.FdRead.Taken.{pending}
use wasmi_plugin_framework.Wasi.FdRead.Scatter.{scatter}
use wasmi_plugin_framework.Wasi.FdRead.Deliver.{fd_read_loop-next}
use wasmi_plugin_framework.Wasi.FdRead.Errors.{HasLeft, fd_read_loop-leave}

module _ {M R W : Type 0} ⦃mem : GuestMemory M⦄ ⦃rd : Read R⦄ where
  -- The end of the call: the number of bytes goes to the guest.
  abbrev pub report : ℕ → ℕ → Action M R W Errno
  report nread total = write_or_panic nread (to_le 4 (total % 2 ^ 32)) >> pure success

  pub fd_read_lem :
      (fd : ℕ) (iov_ptr iov_len nread_ptr : ℤ) (c : Caller M R W) (m : M)
      → c.memory ≡ some m
      → fd_read fd iov_ptr iov_len nread_ptr c ≡ (
          if fd == 0
          then finish (
              and_then
                (fd_read_loop (pos_part iov_len) 0 (as_usize iov_ptr) 0 c)
                (report (as_usize nread_ptr)))
          else returned badf c)
  unfolding fd_read
  fd_read_lem fd iov_ptr iov_len nread_ptr c m e = ground arith

  report-next :
      (nread total : ℕ) (e : Errno) (c c' : Caller M R W) (m : M)
      → c.memory ≡ some m
      → report nread total c ≡ next e c'
      → (m' : M) × (mem.write m nread (to_le 4 (total % 2 ^ 32)) ≡ some m')
        × (c' ≡ record c { memory = some m' })
  report-next nread total e c c' m em h =
      elim (Option-cases (mem.write m nread (to_le 4 (total % 2 ^ 32)))) [
        | inl bad ↦ ground arith
        | inr (m', good) ↦ (m', good, ground arith)
      ]

  report-leave :
      (nread total : ℕ) (e : Errno) (c c' : Caller M R W) → report nread total c ≡ leave e c' → ⊥
  report-leave nread total e c c' h = ground arith

  report-success :
      (nread total : ℕ) (e : Errno) (c c' : Caller M R W)
      → report nread total c ≡ next e c'
      → e ≡ success
  report-success nread total e c c' h = ground arith

  -- What a call that succeeded has done.
  pub record HasServed (iov_ptr iov_len nread_ptr : ℤ) (m : M) (c c' : Caller M R W) : Type 0 where
    pub bs : Bytes
    pub m1 : M
    pub m' : M
    pub taken : pending c ≡ bs ++ pending c'
    pub placed : scatter (pos_part iov_len) 0 (as_usize iov_ptr) m bs ≡ some m1
    pub reported : mem.write m1 (as_usize nread_ptr) (to_le 4 (length bs % 2 ^ 32)) ≡ some m'
    pub memory : c'.memory ≡ some m'

  served_stdin :
      (iov_ptr iov_len nread_ptr : ℤ) (c c' : Caller M R W) (m : M)
      → c.memory ≡ some m
      → and_then
          (fd_read_loop (pos_part iov_len) 0 (as_usize iov_ptr) 0 c)
          (report (as_usize nread_ptr))
        ≡ next success c'
      → HasServed iov_ptr iov_len nread_ptr m c c'
  served_stdin iov_ptr iov_len nread_ptr c c' m e h =
      let (total, c1, h1, k1) =
        and_then-next (fd_read_loop (pos_part iov_len) 0 (as_usize iov_ptr) 0 c) _ h in
      let d = fd_read_loop-next (pos_part iov_len) 0 (as_usize iov_ptr) 0 c c1 m total e h1 in
      let (m2, w2, s2) = report-next (as_usize nread_ptr) total success c1 c' d.m' d.memory k1 in
      let n : total ≡ length d.bs = omega (arith, d.count) in
      record {
        bs = d.bs;
        m1 = d.m';
        m' = m2;
        taken = d.taken ∙ ap (λ t. d.bs ++ t) (sym (ap (λ (x : Caller M R W). pending x) s2));
        placed = d.placed;
        reported =
            subst (λ k. mem.write d.m' (as_usize nread_ptr) (to_le 4 (k % 2 ^ 32)) ≡ some m2) n w2;
        memory = ap (λ (x : Caller M R W). x.memory) s2;
      }

  -- A call never leaves with success from within.
  no_early_success :
      (iov_ptr iov_len nread_ptr : ℤ) (c c' : Caller M R W) (m : M) (e : Errno)
      → c.memory ≡ some m
      → and_then
          (fd_read_loop (pos_part iov_len) 0 (as_usize iov_ptr) 0 c)
          (report (as_usize nread_ptr))
        ≡ leave e c'
      → HasLeft (pos_part iov_len) c c' e
  no_early_success iov_ptr iov_len nread_ptr c c' m e em h =
      split (and_then-leave (fd_read_loop (pos_part iov_len) 0 (as_usize iov_ptr) 0 c) _ h)
    where
      split :
          (fd_read_loop (pos_part iov_len) 0 (as_usize iov_ptr) 0 c ≡ leave e c')
            ⊎ ((total : ℕ) × (c1 : Caller M R W) × (fd_read_loop
                    (pos_part iov_len)
                    0
                    (as_usize iov_ptr)
                    0
                    c
                  ≡ next total c1)
                × (report (as_usize nread_ptr) total c1 ≡ leave e c'))
          → HasLeft (pos_part iov_len) c c' e
      split (inl left) =
          fd_read_loop-leave (pos_part iov_len) 0 (as_usize iov_ptr) 0 c c' m e em left
      split (inr (total, c1, h1, k1)) = absurd (report-leave (as_usize nread_ptr) total e c1 c' k1)

  -- When `fd_read` returns success, the descriptor is stdin. The bytes that are gone from stdin, in
  -- their order, are spread over the guest's vectors, each buffer filled before the next, and their
  -- number is stored at `nread_ptr`.
  pub fd_read_serves :
      (fd : ℕ) (iov_ptr iov_len nread_ptr : ℤ) (c c' : Caller M R W) (m : M)
      → c.memory ≡ some m
      → fd_read fd iov_ptr iov_len nread_ptr c ≡ returned success c'
      → (fd ≡ 0) × HasServed iov_ptr iov_len nread_ptr m c c'
  fd_read_serves fd iov_ptr iov_len nread_ptr c c' m e h = elim (Bool-cases (fd == 0)) [
    | inl stdin ↦ (
      ground arith,
      ended (finish-returned _ (rw (fd_read_lem fd iov_ptr iov_len nread_ptr c m e, stdin) at h)),
    )
    | inr others ↦ cc (rw (fd_read_lem fd iov_ptr iov_len nread_ptr c m e, others) at h)
  ]
    where
      flow : Flow M R W Errno
      flow =
          and_then (fd_read_loop (pos_part iov_len) 0 (as_usize iov_ptr) 0 c)
            (report (as_usize nread_ptr))

      ended :
          (flow ≡ next success c') ⊎ (flow ≡ leave success c')
          → HasServed iov_ptr iov_len nread_ptr m c c'
      ended (inl k) = served_stdin iov_ptr iov_len nread_ptr c c' m e k
      ended (inr k) =
          absurd ((no_early_success iov_ptr iov_len nread_ptr c c' m success e k).fails refl)

  -- When `fd_read` on stdin returns an error and was given at most one vector, stdin holds what it
  -- held. `Again` marks the context as waiting for stdin and takes all of the fuel, so the host
  -- runs before the guest tries again.
  pub fd_read_error_keeps :
      (iov_ptr iov_len nread_ptr : ℤ) (c c' : Caller M R W) (m : M) (e : Errno)
      → c.memory ≡ some m
      → pos_part iov_len ≤ 1
      → e ≢ success
      → fd_read 0 iov_ptr iov_len nread_ptr c ≡ returned e c'
      → (pending c ≡ pending c') × (e ≡ again → (c'.ctx.awaiting_stdin ≡ true) × (c'.fuel ≡ 0))
  fd_read_error_keeps iov_ptr iov_len nread_ptr c c' m e em few fails h =
      ended (finish-returned _ (rw (fd_read_lem 0 iov_ptr iov_len nread_ptr c m em) at h))
    where
      flow : Flow M R W Errno
      flow =
          and_then (fd_read_loop (pos_part iov_len) 0 (as_usize iov_ptr) 0 c)
            (report (as_usize nread_ptr))

      ended :
          (flow ≡ next e c') ⊎ (flow ≡ leave e c')
          → (pending c ≡ pending c') × (e ≡ again → (c'.ctx.awaiting_stdin ≡ true) × (c'.fuel ≡ 0))
      ended (inl k) =
          let (total, c1, h1, k1) =
            and_then-next (fd_read_loop (pos_part iov_len) 0 (as_usize iov_ptr) 0 c) _ k in
          absurd (fails (report-success (as_usize nread_ptr) total e c1 c' k1))
      ended (inr k) =
          let left = no_early_success iov_ptr iov_len nread_ptr c c' m e em k in
          (left.taken ∙ ap (λ t. t ++ pending c') (left.first_kept few), left.waits)
