-- ===== src/Session/Streams.antt =====
-- A session is one of two queues: what either side sees of the other's bytes.
use wasmi_plugin_framework.Base.{
  ℕ, ◌≡◌, refl, sym, ap, ◌∙◌, some, List, ◌∷◌, ◌++◌, append-nil, append_assoc, arith, ℤ, pos,
  length,
}
use wasmi_plugin_framework.Bytes.{Bytes}
use wasmi_plugin_framework.Io.{ok}
use wasmi_plugin_framework.Io.Buffered.{BufReader}
use wasmi_plugin_framework.Pipe.{Inner, write}
use wasmi_plugin_framework.Pipe.Fifo.{read_buf, write_buf, drop_writer_buf}
use wasmi_plugin_framework.Pipe.Stream.{pipe_reader, pipe_writer, write_all_of}
use wasmi_plugin_framework.Memory.{GuestMemory}
use wasmi_plugin_framework.Wasi.Context.{success}
use wasmi_plugin_framework.Wasi.Caller.{Caller, returned}
use wasmi_plugin_framework.Wasi.FdRead.Taken.{pending}
use wasmi_plugin_framework.Wasi.FdRead.Results.{HasServed, fd_read_serves, fd_read_error_keeps}
use wasmi_plugin_framework.Wasi.FdRead.Keeps.{fd_read-stdout}
use wasmi_plugin_framework.Wasi.FdWrite.{fd_write}
use wasmi_plugin_framework.Wasi.FdWrite.Keeps.{fd_write-stdin}
use wasmi_plugin_framework.Wasi.FdWrite.Send.{HasWritten, fd_write_gathers}
use wasmi_plugin_framework.Session.{
  Label, sends, gets, puts, takes, silent, all_sent, all_got, all_put, all_taken, queued, OneVector,
  Finds, Step, host_writes, host_drops, host_reads, guest_reads, guest_fails, guest_writes,
  guest_runs, Session, here, step,
}
use wasmi_plugin_framework.Session.Calls.{served_bytes}

-- The abstract view: the bytes on their way to the guest, and those on their way to the host.
pub record Queues : Type 0 where
  pub into : Bytes
  pub out : Bytes

-- What a step may do to the queues: bytes come in behind, and leave in front.
abbrev pub IsAllowed : Queues → Label → Queues → Type 0
IsAllowed q (sends bs) q' = (q'.into ≡ q.into ++ bs) × (q'.out ≡ q.out)
IsAllowed q (gets bs) q' = (q.into ≡ bs ++ q'.into) × (q'.out ≡ q.out)
IsAllowed q (puts bs) q' = (q'.into ≡ q.into) × (q'.out ≡ q.out ++ bs)
IsAllowed q (takes bs) q' = (q'.into ≡ q.into) × (q.out ≡ bs ++ q'.out)
IsAllowed q silent q' = (q'.into ≡ q.into) × (q'.out ≡ q.out)

module _ {M : Type 0} where
  abbrev pub queues : Caller M Inner Inner → Queues
  queues c = record { into = pending c; out = queued c }

  pending-same :
      (c c' : Caller M Inner Inner)
      → c'.ctx.stdin_reader ≡ c.ctx.stdin_reader
      → pending c' ≡ pending c
  pending-same c c' e = rw (e) refl

  queued-same :
      (c c' : Caller M Inner Inner)
      → c'.ctx.stdout_writer ≡ c.ctx.stdout_writer
      → queued c' ≡ queued c
  queued-same c c' e = rw (e) refl

  queued-some :
      (c : Caller M Inner Inner) (w : Inner) → c.ctx.stdout_writer ≡ some w → queued c ≡ w.buf
  queued-some c w e = rw (e) refl

  pending-some :
      (c : Caller M Inner Inner) (reader : BufReader Inner)
      → c.ctx.stdin_reader ≡ some reader
      → pending c ≡ reader.buf ++ reader.inner.buf
  pending-some c reader e = rw (e) refl

-- How one step continues a stream: bytes behind, bytes in front, and none.
into_then : (l x y s t : Bytes) → y ≡ x ++ s → l ≡ y ++ t → l ≡ x ++ (s ++ t)
into_then l x y s t e f = rw (f, e) (append_assoc x s t)

out_then : (g a x y z t : Bytes) → x ≡ g ++ y → a ++ z ≡ y ++ t → (g ++ a) ++ z ≡ x ++ t
out_then g a x y z t e f =
    append_assoc g a z ∙ ap (λ u. g ++ u) f ∙ sym (append_assoc g y t) ∙ ap (λ u. u ++ t) (sym e)

same_then : (l x y t : Bytes) → y ≡ x → l ≡ y ++ t → l ≡ x ++ t
same_then l x y t e f = f ∙ ap (λ u. u ++ t) e

write_takes_all : (inner : Inner) (bs : Bytes) → (write_all_of inner bs).0 ≡ ok (length bs)
unfolding write
write_takes_all inner bs = refl

module _ {M : Type 0} ⦃mem : GuestMemory M⦄ where
  reads_allowed :
      (iov_ptr nread_ptr : ℤ) (addr len : ℕ) (m m' : M) (got : Bytes) (c c' : Caller M Inner Inner)
      → OneVector iov_ptr nread_ptr m addr len
      → HasServed iov_ptr (pos 1) nread_ptr m c c'
      → c'.memory ≡ some m'
      → Finds m' nread_ptr addr got
      → pending c ≡ got ++ pending c'
  reads_allowed iov_ptr nread_ptr addr len m m' got c c' v d e f =
      let same : m' ≡ d.m' = cc (e, d.memory) in
      let found : got ≡ d.bs =
        served_bytes iov_ptr nread_ptr m d.m1 m' addr len d.bs got v d.placed
          (d.reported ∙ ap some (sym same)) f in
      d.taken ∙ ap (λ bs. bs ++ pending c') (sym found)

  writes_allowed :
      (ciov_ptr ciov_len nwrite_ptr : ℤ) (m : M) (w : Inner) (bytes : Bytes)
      (c c' : Caller M Inner Inner)
      → c.ctx.stdout_writer ≡ some w
      → fd_write (pos 1) ciov_ptr ciov_len nwrite_ptr c ≡ returned success c'
      → HasWritten write_takes_all (pos 1) ciov_ptr ciov_len nwrite_ptr c m w bytes
      → queued c' ≡ queued c ++ bytes
  writes_allowed ciov_ptr ciov_len nwrite_ptr m w bytes c c' e r d =
      let same : c' ≡ d.c' = cc (r, d.run) in
      queued-some c' d.w' (ap (λ (x : Caller M Inner Inner). x.ctx.stdout_writer) same ∙ d.behind)
      ∙ d.sent
      ∙ ap (λ t. t ++ bytes) (sym (queued-some c w e))

  -- A step of `Session` moves bytes the way two queues do: what the host writes goes behind what
  -- stdin holds, what a read of the guest reports comes off its front, a read that fails leaves it
  -- as it is, what the guest writes goes behind what stdout holds, and what the host takes comes off
  -- its front. The steps are the host's writes, reads and drop of its writer, each `fd_read` of
  -- stdin with one vector whose buffer does not overlap the result word, each `fd_write` to stdout
  -- that succeeds with vectors and result word in bounds, and what leaves both streams alone. An
  -- `fd_read` with several vectors, an `fd_write` that fails and an `fd_close` are not among them.
  pub Step-IsAllowed :
      (c c' : Caller M Inner Inner) (l : Label) → Step c l c' → IsAllowed (queues c) l (queues c')
  Step-IsAllowed c c' l (host_writes bs reader e) = (
    ap (λ t. reader.buf ++ t) (write_buf reader.inner bs)
        ∙ sym (append_assoc reader.buf reader.inner.buf bs)
        ∙ ap (λ t. t ++ bs) (sym (pending-some c reader e)),
    refl,
  )
  Step-IsAllowed c c' l (host_drops reader e) = (
    ap (λ t. reader.buf ++ t) (drop_writer_buf reader.inner) ∙ sym (pending-some c reader e),
    refl,
  )
  Step-IsAllowed c c' l (host_reads w n e) = (refl, queued-some c w e ∙ sym (read_buf w n))
  Step-IsAllowed c c' l (guest_reads iov_ptr nread_ptr addr len m m' got c1 e v h e' f) = (
    reads_allowed iov_ptr nread_ptr addr len m m' got c c' v
        (fd_read_serves 0 iov_ptr (pos 1) nread_ptr c c' m e h).1 e' f,
    queued-same c c' (fd_read-stdout iov_ptr (pos 1) nread_ptr c c' m success e h),
  )
  Step-IsAllowed c c' l (guest_fails iov_ptr nread_ptr m x c1 e f h) = (
    sym (fd_read_error_keeps iov_ptr (pos 1) nread_ptr c c' m x e (omega arith) f h).0,
    queued-same c c' (fd_read-stdout iov_ptr (pos 1) nread_ptr c c' m x e h),
  )
  Step-IsAllowed c c' l (guest_writes ciov_ptr ciov_len nwrite_ptr m w bytes c1 e e' g room h) = (
    pending-same c c' (fd_write-stdin (pos 1) ciov_ptr ciov_len nwrite_ptr c c' success h),
    writes_allowed ciov_ptr ciov_len nwrite_ptr m w bytes c c' e' h (
        fd_write_gathers write_takes_all (pos 1) ciov_ptr ciov_len nwrite_ptr c m w bytes e e' g
          room),
  )
  Step-IsAllowed c c' l (guest_runs c1 e f) = (pending-same c c' e, queued-same c c' f)

  -- Over a session in which each `fd_read` of stdin has one vector, apart from its result word, each
  -- `fd_write` to stdout succeeds with its vectors and its result word in bounds, and the guest closes
  -- neither stream, whatever the order in which host and guest take their steps: what the guest has
  -- found in its buffers, followed by what is left for it, is what stdin held at the start followed by
  -- what the host has sent; and what the host has taken, followed by what is left in stdout, is what
  -- stdout held followed by what the guest has put. So in such a session no byte is lost, repeated or
  -- reordered. Nothing is stated of reads with several vectors, which can lose bytes.
  pub session_delivers :
      (c c' : Caller M Inner Inner) (ls : List Label)
      → Session c ls c'
      → (all_got ls ++ pending c' ≡ pending c ++ all_sent ls)
        × (all_taken ls ++ queued c' ≡ queued c ++ all_put ls)
  session_delivers c c' ls here = (sym (append-nil (pending c)), sym (append-nil (queued c)))
  session_delivers c c' ls (step {l = l} {ls = ls'} {c1 = c1} s rest) =
      joined l (Step-IsAllowed c c1 l s) (session_delivers c1 c' ls' rest)
    where
      joined :
          (l : Label)
          → IsAllowed (queues c) l (queues c1)
          → (all_got ls' ++ pending c' ≡ pending c1 ++ all_sent ls')
            × (all_taken ls' ++ queued c' ≡ queued c1 ++ all_put ls')
          → (all_got (l ∷ ls') ++ pending c' ≡ pending c ++ all_sent (l ∷ ls'))
            × (all_taken (l ∷ ls') ++ queued c' ≡ queued c ++ all_put (l ∷ ls'))
      joined (sends bs) (a, b) (r, q) =
          (into_then _ (pending c) _ bs _ a r, same_then _ (queued c) _ _ b q)
      joined (gets bs) (a, b) (r, q) =
          (out_then bs (all_got ls') (pending c) _ _ _ a r, same_then _ (queued c) _ _ b q)
      joined (puts bs) (a, b) (r, q) =
          (same_then _ (pending c) _ _ a r, into_then _ (queued c) _ bs _ b q)
      joined (takes bs) (a, b) (r, q) =
          (same_then _ (pending c) _ _ a r, out_then bs (all_taken ls') (queued c) _ _ _ b q)
      joined silent (a, b) (r, q) =
          (same_then _ (pending c) _ _ a r, same_then _ (queued c) _ _ b q)
