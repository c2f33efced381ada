-- ===== src/Wasi/FdRead/Available.antt =====
-- What `stdin_available`, which the run loop asks before it wakes a guest, says of the next read.
use wasmi_plugin_framework.Base.{
  sym, ◌⊎◌, ◌∙◌, Bool-cases, ℕ, zero, suc, ◌<◌, ◌≡◌, refl, ap, Bool, true, false, not, Option, some,
  [], ◌∷◌, ◌++◌, is_empty, length, take, drop, arith, Option-cases, inl, inr, take-append-drop,
}
use wasmi_plugin_framework.Bytes.{Bytes}
use wasmi_plugin_framework.Io.{IoResult, ok}
use wasmi_plugin_framework.Io.Buffered.{BufReader, fill_buf, buf_read, refilled}
use wasmi_plugin_framework.Pipe.{Inner, read}
use wasmi_plugin_framework.Pipe.Fifo.{read_lem}
use wasmi_plugin_framework.Pipe.Stream.{pipe_reader}
use wasmi_plugin_framework.Wasi.Context.{is_readable, stdin_available}
use wasmi_plugin_framework.Wasi.Caller.{Caller, next}
use wasmi_plugin_framework.Wasi.FdRead.{stdin_read}
use wasmi_plugin_framework.Wasi.FdRead.Taken.{pending}

-- The pipe's side: the buffer is filled if anything is there, and nothing is lost.
abbrev Tells : BufReader Inner → IoResult Bytes × BufReader Inner → Type 0
Tells b (r, b') =
    (is_readable r ≡ not (is_empty (b.buf ++ b.inner.buf)))
    × (b'.buf ++ b'.inner.buf ≡ b.buf ++ b.inner.buf)
    × (is_readable r ≡ true → is_empty b'.buf ≡ false)

refilled_lem :
    (queue : Bytes) (closed : Bool) (waker : Option ℕ) (n : ℕ)
    → (let inner : Inner = record { buf = queue; closed = closed; waker = waker } in
        Tells (record { buf = []; inner = inner }) (refilled (read inner (suc n))))
refilled_lem [] true waker n =
    rw (read_lem (record { buf = []; closed = true; waker = waker }) (suc n))
      (refl, refl, λ e. cc e)
refilled_lem [] false waker n =
    rw (read_lem (record { buf = []; closed = false; waker = waker }) (suc n))
      (refl, refl, λ e. cc e)
refilled_lem (x ∷ queue) closed waker n =
    rw (read_lem (record { buf = x ∷ queue; closed = closed; waker = waker }) (suc n))
      (refl, ap (λ t. x ∷ t) (take-append-drop n queue), λ e. refl)

fill_parts :
    (buf : Bytes) (inner : Inner)
    → Tells (record { buf = buf; inner = inner }) (fill_buf (record { buf = buf; inner = inner }))
unfolding fill_buf
fill_parts [] inner = refilled_lem inner.buf inner.closed inner.waker 8191
fill_parts (x ∷ buf) inner = (refl, refl, λ e. refl)

is_empty→nil : (xs : Bytes) → not (is_empty xs) ≡ false → xs ≡ []
is_empty→nil [] h = refl
is_empty→nil (x ∷ xs) h = cc h

-- A reader that has something in its buffer hands out a byte at least.
buffered_lem :
    (buf : Bytes) (inner : Inner) (n : ℕ)
    → is_empty buf ≡ false
    → 0 < n
    → (bs : Bytes) × (b' : BufReader Inner) × (buf_read (record { buf = buf; inner = inner }) n
        ≡ (ok bs, b'))
      × (0 < length bs)
unfolding buf_read
buffered_lem [] inner n e h = cc e
buffered_lem (x ∷ buf) inner zero e h = absurd (omega arith)
buffered_lem (x ∷ buf) inner (suc n) e h =
    (x ∷ take n buf, record { buf = drop n buf; inner = inner }, refl, omega arith)

module _ {M W : Type 0} where
  -- The caller once the run loop has asked.
  abbrev pub asked : Caller M Inner W → Caller M Inner W
  asked c = record c { ctx = (stdin_available c.ctx).1 }

  -- Both answers, and what they say of a read into a buffer of `n` bytes.
  abbrev pub Answers : ℕ → Caller M Inner W → Type 0
  Answers n c =
      (((stdin_available c.ctx).0 ≡ false) × (pending c ≡ []))
      ⊎ (((stdin_available c.ctx).0 ≡ true)
          × ((bs : Bytes) × (c' : Caller M Inner W) × (stdin_read n (asked c) ≡ next bs c')
              × (0 < length bs)))

  available_some :
      (c : Caller M Inner W) (n : ℕ) (b : BufReader Inner)
      → c.ctx.stdin_reader ≡ some b
      → 0 < n
      → (pending (asked c) ≡ pending c) × Answers n c
  unfolding stdin_available stdin_read
  available_some c n b e room =
      let (tells, keeps, filled) = fill_parts b.buf b.inner in
      let b' = (fill_buf b).1 in
      elim (Bool-cases (is_readable (fill_buf b).0)) [
        | inl readable ↦
            let (bs, b2, r, some_byte) = buffered_lem b'.buf b'.inner n (filled readable) room in
            rw (e) (
              keeps,
              inr (
                readable,
                (
                  bs,
                  record c { ctx = record (c.ctx) { stdin_reader = some b2 } },
                  rw (r) refl,
                  some_byte,
                ),
              ),
            )
        | inr dry ↦ rw (e) (keeps, inl (dry, is_empty→nil (b.buf ++ b.inner.buf) (sym tells ∙ dry)))
      ]

  -- With stdin on a pipe, `stdin_available` takes no byte. Either it says no, and there is none to
  -- read; or it says yes, and the guest's next read into a buffer that is not empty gets one at least.
  pub stdin_available_lem :
      (c : Caller M Inner W) (n : ℕ) → 0 < n → (pending (asked c) ≡ pending c) × Answers n c
  unfolding stdin_available
  stdin_available_lem c n room = elim (Option-cases c.ctx.stdin_reader) [
    | inl gone ↦ rw (gone) (refl, inl (refl, refl))
    | inr (b, e) ↦ available_some c n b e room
  ]
