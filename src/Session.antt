-- ===== src/Session.antt =====
-- A host and a guest that share two pipes, as `spawn_plugin` of
-- crates/wasmi-plugin-hdk/src/plugin_instance.rs joins them: the host writes to the guest's stdin and reads
-- its stdout, the guest calls `fd_read` and `fd_write`. Every step is atomic, and a session is a
-- sequence of steps in any order. The guest keeps to reads of one vector and to writes in bounds that
-- succeed, and closes neither stream: a read with several vectors can lose bytes (Wasi/FdRead/Loss).
pub mod Calls
pub mod Streams
mod Tests
use wasmi_plugin_framework.Base.{
  ℕ, ◌+◌, ◌<◌, ◌^◌, ◌≤◌, ◌≡◌, ◌≢◌, ◌⊎◌, none, some, List, [], ◌∷◌, ◌++◌, ℤ, pos, pos_part, as_usize,
}
use wasmi_plugin_framework.Bytes.{Bytes}
use wasmi_plugin_framework.Pipe.{Inner, read, write, drop_writer}
use wasmi_plugin_framework.Pipe.Fifo.{bytes_of}
use wasmi_plugin_framework.Pipe.Stream.{pipe_reader, pipe_writer}
use wasmi_plugin_framework.Io.Buffered.{BufReader}
use wasmi_plugin_framework.Memory.{GuestMemory}
use wasmi_plugin_framework.Wasi.Context.{Errno, success}
use wasmi_plugin_framework.Wasi.Caller.{Caller, returned, record_addr}
use wasmi_plugin_framework.Wasi.Caller.Invert.{IsWord}
use wasmi_plugin_framework.Wasi.FdRead.{fd_read}
use wasmi_plugin_framework.Wasi.FdRead.Taken.{pending}
use wasmi_plugin_framework.Wasi.FdWrite.{fd_write}
use wasmi_plugin_framework.Wasi.FdWrite.Gather.{gather}

-- What a step moves: to stdin, from stdin to the guest, from the guest to stdout, to the host.
pub data Label : Type 0 where
  sends gets puts takes : Bytes → Label
  silent : Label

abbrev pub all_sent : List Label → Bytes
all_sent [] = []
all_sent (sends bs ∷ ls) = bs ++ all_sent ls
all_sent (gets bs ∷ ls) = all_sent ls
all_sent (puts bs ∷ ls) = all_sent ls
all_sent (takes bs ∷ ls) = all_sent ls
all_sent (silent ∷ ls) = all_sent ls

abbrev pub all_got : List Label → Bytes
all_got [] = []
all_got (sends bs ∷ ls) = all_got ls
all_got (gets bs ∷ ls) = bs ++ all_got ls
all_got (puts bs ∷ ls) = all_got ls
all_got (takes bs ∷ ls) = all_got ls
all_got (silent ∷ ls) = all_got ls

abbrev pub all_put : List Label → Bytes
all_put [] = []
all_put (sends bs ∷ ls) = all_put ls
all_put (gets bs ∷ ls) = all_put ls
all_put (puts bs ∷ ls) = bs ++ all_put ls
all_put (takes bs ∷ ls) = all_put ls
all_put (silent ∷ ls) = all_put ls

abbrev pub all_taken : List Label → Bytes
all_taken [] = []
all_taken (sends bs ∷ ls) = all_taken ls
all_taken (gets bs ∷ ls) = all_taken ls
all_taken (puts bs ∷ ls) = all_taken ls
all_taken (takes bs ∷ ls) = bs ++ all_taken ls
all_taken (silent ∷ ls) = all_taken ls

module _ {M : Type 0} where
  abbrev pub with_stdin : Caller M Inner Inner → BufReader Inner → Caller M Inner Inner
  with_stdin c reader = record c { ctx = record (c.ctx) { stdin_reader = some reader } }

  abbrev pub with_stdout : Caller M Inner Inner → Inner → Caller M Inner Inner
  with_stdout c w = record c { ctx = record (c.ctx) { stdout_writer = some w } }

  -- What waits in stdout for the host.
  abbrev pub queued : Caller M Inner Inner → Bytes
  queued c = elim c.ctx.stdout_writer [ none ↦ [] | some w ↦ w.buf ]

module _ {M : Type 0} ⦃mem : GuestMemory M⦄ where
  -- A read with one vector, whose buffer and result do not overlap.
  pub record OneVector (iov_ptr nread_ptr : ℤ) (m : M) (addr len : ℕ) : Type 0 where
    pub addr_word : IsWord m (record_addr (as_usize iov_ptr) 8 0) addr
    pub len_word : IsWord m (record_addr (record_addr (as_usize iov_ptr) 8 0) 4 1) len
    pub small : len < 2 ^ 32
    pub apart : (as_usize nread_ptr + 4 ≤ addr) ⊎ (addr + len ≤ as_usize nread_ptr)

  -- What the guest finds after the call: a count at `nread_ptr`, and as many bytes in its buffer.
  abbrev pub Finds : M → ℤ → ℕ → Bytes → Type 0
  Finds m nread_ptr addr got =
      (n : ℕ) × IsWord m (as_usize nread_ptr) n × (mem.read m addr n ≡ some got)

  -- One step of either side. Not among them: an `fd_read` of stdin with several vectors, an `fd_write`
  -- to stdout that fails, which may have sent some of its vectors, and an `fd_close` of a stream.
  pub data Step (c : Caller M Inner Inner) : Label → Caller M Inner Inner → Type 0 where
    host_writes :
        (bs : Bytes) (reader : BufReader Inner)
        → c.ctx.stdin_reader ≡ some reader
        → Step c (sends bs) (with_stdin c (record reader { inner = (write (reader.inner) bs).2 }))
    host_drops :
        (reader : BufReader Inner)
        → c.ctx.stdin_reader ≡ some reader
        → Step c silent (with_stdin c (record reader { inner = (drop_writer (reader.inner)).1 }))
    host_reads :
        (w : Inner) (n : ℕ)
        → c.ctx.stdout_writer ≡ some w
        → Step c (takes (bytes_of (read w n).0)) (with_stdout c (read w n).1)
    guest_reads :
        (iov_ptr nread_ptr : ℤ) (addr len : ℕ) (m m' : M) (got : Bytes) (c' : Caller M Inner Inner)
        → c.memory ≡ some m
        → OneVector iov_ptr nread_ptr m addr len
        → fd_read 0 iov_ptr (pos 1) nread_ptr c ≡ returned success c'
        → c'.memory ≡ some m'
        → Finds m' nread_ptr addr got
        → Step c (gets got) c'
    guest_fails :
        (iov_ptr nread_ptr : ℤ) (m : M) (e : Errno) (c' : Caller M Inner Inner)
        → c.memory ≡ some m
        → e ≢ success
        → fd_read 0 iov_ptr (pos 1) nread_ptr c ≡ returned e c'
        → Step c silent c'
    guest_writes :
        (ciov_ptr ciov_len nwrite_ptr : ℤ) (m : M) (w : Inner) (bytes : Bytes)
        (c' : Caller M Inner Inner)
        → c.memory ≡ some m
        → c.ctx.stdout_writer ≡ some w
        → gather m (pos_part ciov_len) 0 (as_usize ciov_ptr) ≡ some bytes
        → as_usize nwrite_ptr + 4 ≤ mem.size m
        → fd_write (pos 1) ciov_ptr ciov_len nwrite_ptr c ≡ returned success c'
        → Step c (puts bytes) c'
    -- What the guest does beside: its own code, and calls that leave both streams as they are.
    guest_runs :
        (c' : Caller M Inner Inner)
        → c'.ctx.stdin_reader ≡ c.ctx.stdin_reader
        → c'.ctx.stdout_writer ≡ c.ctx.stdout_writer
        → Step c silent c'

  pub data Session : Caller M Inner Inner → List Label → Caller M Inner Inner → Type 0 where
    here : {c : Caller M Inner Inner} → Session c [] c
    step :
        {l : Label} {ls : List Label} {c c1 c2 : Caller M Inner Inner}
        → Step c l c1
        → Session c1 ls c2
        → Session c (l ∷ ls) c2
