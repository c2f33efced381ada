-- ===== src/Wasi/FdWrite/Send.antt =====
-- `fd_write` sends the bytes of the guest's vectors, in order, to the stream that it names.
use wasmi_plugin_framework.Base.{
  ℕ, zero, suc, ◌+◌, ◌%◌, ◌^◌, ◌≤◌, ◌≡◌, refl, sym, ◌∙◌, ap, Option, none, some, ◌++◌, length,
  arith, if◌then◌else◌, append_assoc, append-nil, length-append, take-length, ℤ, pos_part, as_usize,
}
use wasmi_plugin_framework.Bytes.{Bytes, to_le, length-to_le}
use wasmi_plugin_framework.Io.{ok, Write}
use wasmi_plugin_framework.Memory.{GuestMemory}
use wasmi_plugin_framework.Wasi.Context.{success}
use wasmi_plugin_framework.Wasi.Caller.{Caller, Flow, next, returned, is_fd}
use wasmi_plugin_framework.Wasi.FdWrite.{stream_write, fd_write_loop, fd_write}
use wasmi_plugin_framework.Wasi.FdWrite.Gather.{gather, Gathered, gathered, gather-zero}

-- A writer that takes all that it is given, as the pipe does, has been sent it.
sent_all :
    {W : Type 0} ⦃wr : Write W⦄
    → ((w : W) (bs : Bytes) → (wr.write w bs).0 ≡ ok (length bs))
    → (w : W) (bs : Bytes) → wr.accepted (wr.write w bs).1 ≡ wr.accepted w ++ bs
sent_all ⦃wr⦄ all w bs =
    (wr.write_ok w bs (length bs) (all w bs)).0
    ∙ ap (λ t. wr.accepted w ++ t) (take-length (length bs) bs (omega arith))

-- The writer behind a descriptor, and the caller with another in its place.
abbrev pub stream : {M R W : Type 0} → ℤ → Caller M R W → Option W
stream fd c =
    if is_fd fd 1 then c.ctx.stdout_writer else if is_fd fd 2 then c.ctx.stderr_writer else none

abbrev put_stream : {M R W : Type 0} → ℤ → Caller M R W → W → Caller M R W
put_stream fd c w =
    if is_fd fd 1
    then record c { ctx = record (c.ctx) { stdout_writer = some w } }
    else record c { ctx = record (c.ctx) { stderr_writer = some w } }

module _ {M R W : Type 0} ⦃mem : GuestMemory M⦄ ⦃wr : Write W⦄ where
  stream_write_lem :
      (fd : ℤ) (bs : Bytes) (c : Caller M R W) (w : W) (n : ℕ)
      → stream fd c ≡ some w
      → (wr.write w bs).0 ≡ ok n
      → stream_write fd bs c ≡ next n (put_stream fd c (wr.write w bs).1)
  unfolding stream_write
  stream_write_lem fd bs c w n e h = ground arith

  stream-put :
      (fd : ℤ) (c : Caller M R W) (w w' : W)
      → stream fd c ≡ some w
      → (stream fd (put_stream fd c w') ≡ some w') × ((put_stream fd c w').memory ≡ c.memory)
  stream-put fd c w w' e = ground arith

  -- What the loop leaves when it has gone on: all the bytes sent, and memory as it was.
  record HasSent (fd : ℤ) (m : M) (w : W) (bytes : Bytes) (total : ℕ) (flow : Flow M R W ℕ)
      : Type 0 where
    c' : Caller M R W
    w' : W
    run : flow ≡ next (total + length bytes) c'
    memory : c'.memory ≡ some m
    stream : stream fd c' ≡ some w'
    sent : wr.accepted w' ≡ wr.accepted w ++ bytes

  -- One vector, of which the writer takes everything.
  loop_step :
      (fd : ℤ) (rounds i p total : ℕ) (c : Caller M R W) (m : M) (w : W) (bytes : Bytes)
      (g : Gathered m rounds i p bytes)
      → c.memory ≡ some m
      → stream fd c ≡ some w
      → (wr.write w g.head).0 ≡ ok (length g.head)
      → fd_write_loop fd (suc rounds) i p total c
        ≡ fd_write_loop fd rounds
            (i + 1)
            p
            (total + length g.head)
            (put_stream fd c (wr.write w g.head).1)
  unfolding fd_write_loop
  loop_step fd rounds i p total c m w bytes g e es all = ground (
    arith,
    stream_write_lem fd g.head c w (length g.head) es all,
    mem.length-read m g.addr g.len g.head g.buffer,
  )

  module _ (all : (w : W) (bs : Bytes) → (wr.write w bs).0 ≡ ok (length bs)) where
    fd_write_loop_lem :
        (fd : ℤ) (rounds i p total : ℕ) (c : Caller M R W) (m : M) (w : W) (bytes : Bytes)
        → c.memory ≡ some m
        → stream fd c ≡ some w
        → gather m rounds i p ≡ some bytes
        → HasSent fd m w bytes total (fd_write_loop fd rounds i p total c)
    fd_write_loop_lem fd zero i p total c m w bytes e es h = record {
      c' = c;
      w' = w;
      run =
          unfold fd_write_loop in
          ap (λ t. next t c) (omega (arith, ap (λ t. length t) (gather-zero m i p bytes h)));
      memory = e;
      stream = es;
      sent = rw (gather-zero m i p bytes h, append-nil);
    }
    fd_write_loop_lem fd (suc rounds) i p total c m w bytes e es h =
        let g = gathered m rounds i p bytes h in
        let w1 = (wr.write w g.head).1 in
        let c1 = put_stream fd c w1 in
        let (es1, same) = stream-put fd c w w1 es in
        let d =
          fd_write_loop_lem fd rounds (i + 1) p (total + length g.head) c1 m w1 g.tail (same ∙ e)
            es1 g.others in
        record {
          c' = d.c';
          w' = d.w';
          run =
              loop_step fd rounds i p total c m w bytes g e es (all w g.head)
              ∙ d.run
              ∙ ap (λ t. next t d.c')
                  (omega (arith, ap (λ t. length t) g.whole, length-append g.head g.tail));
          memory = d.memory;
          stream = d.stream;
          sent =
              d.sent
              ∙ ap (λ t. t ++ g.tail) (sent_all all w g.head)
              ∙ append_assoc (wr.accepted w) g.head g.tail
              ∙ ap (λ t. wr.accepted w ++ t) (sym g.whole);
        }

    fd_write_run :
        (fd ciov_ptr ciov_len nwrite_ptr : ℤ) (c c1 : Caller M R W) (m m' : M) (n : ℕ)
        → c.memory ≡ some m
        → fd_write_loop fd (pos_part ciov_len) 0 (as_usize ciov_ptr) 0 c ≡ next n c1
        → c1.memory ≡ some m
        → mem.write m (as_usize nwrite_ptr) (to_le 4 (n % 2 ^ 32)) ≡ some m'
        → fd_write fd ciov_ptr ciov_len nwrite_ptr c
          ≡ returned success (record c1 { memory = some m' })
    unfolding fd_write
    fd_write_run fd ciov_ptr ciov_len nwrite_ptr c c1 m m' n e run e1 w = ground (arith, run)

    -- What a successful call has done.
    pub record HasWritten (fd ciov_ptr ciov_len nwrite_ptr : ℤ) (c : Caller M R W) (m : M) (w : W)
        (bytes : Bytes) : Type 0 where
      pub c' : Caller M R W
      pub w' : W
      pub m' : M
      pub run : fd_write fd ciov_ptr ciov_len nwrite_ptr c ≡ returned success c'
      pub behind : stream fd c' ≡ some w'
      pub sent : wr.accepted w' ≡ wr.accepted w ++ bytes
      pub reported : mem.write m (as_usize nwrite_ptr) (to_le 4 (length bytes % 2 ^ 32)) ≡ some m'
      pub memory : c'.memory ≡ some m'

    -- To an open stdout or stderr whose writer accepts all that it is given, with the vectors, their
    -- buffers and the result word in bounds, `fd_write` returns success. It appends the bytes of
    -- the vectors to the stream in order, and changes memory by their number at `nwrite_ptr` alone.
    pub fd_write_gathers :
        (fd ciov_ptr ciov_len nwrite_ptr : ℤ) (c : Caller M R W) (m : M) (w : W) (bytes : Bytes)
        → c.memory ≡ some m
        → stream fd c ≡ some w
        → gather m (pos_part ciov_len) 0 (as_usize ciov_ptr) ≡ some bytes
        → as_usize nwrite_ptr + 4 ≤ mem.size m
        → HasWritten fd ciov_ptr ciov_len nwrite_ptr c m w bytes
    fd_write_gathers fd ciov_ptr ciov_len nwrite_ptr c m w bytes e es h room =
        let d =
          fd_write_loop_lem fd (pos_part ciov_len) 0 (as_usize ciov_ptr) 0 c m w bytes e es h in
        let word = to_le 4 (length bytes % 2 ^ 32) in
        let (m2, w2) =
          mem.write_in m (as_usize nwrite_ptr) word
            (omega (arith, length-to_le 4 (length bytes % 2 ^ 32))) in
        record {
          c' = record (d.c') { memory = some m2 };
          w' = d.w';
          m' = m2;
          run =
              fd_write_run fd ciov_ptr ciov_len nwrite_ptr c d.c' m m2 (length bytes) e
                (d.run ∙ ap (λ t. next t d.c') (omega arith)) d.memory w2;
          behind = d.stream;
          sent = d.sent;
          reported = w2;
          memory = refl;
        }
