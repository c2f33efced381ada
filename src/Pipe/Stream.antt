-- ===== src/Pipe/Stream.antt =====
-- A pipe as the `Read` and the `Write` that `spawn_plugin` hands to the WASI context.
use wasmi_plugin_framework.Base.{
  ℕ, ◌≤◌, ◌≡◌, ◌++◌, length, arith, take, take-length, eq_nil_of_length,
}
use wasmi_plugin_framework.Bytes.{Bytes}
use wasmi_plugin_framework.Io.{IoError, IoResult, ok, err, Read, Write}
use wasmi_plugin_framework.Pipe.{Inner, pop_into, read, write}
use wasmi_plugin_framework.Pipe.Fifo.{pop_into-append, length-pop_into, read_buf}

pub read_ok :
    (inner : Inner) (n : ℕ) (bs : Bytes)
    → (read inner n).0 ≡ ok bs
    → (inner.buf ≡ bs ++ (read inner n).1.buf) × (length bs ≤ n)
unfolding read
read_ok inner n bs e = ground (
  arith,
  pop_into-append n inner.buf,
  length-pop_into n inner.buf,
  eq_nil_of_length (pop_into n inner.buf).0,
)

pub read_err :
    (inner : Inner) (n : ℕ) (e : IoError)
    → (read inner n).0 ≡ err e
    → (read inner n).1.buf ≡ inner.buf
read_err inner n e h = rw h at (read_buf inner n)

-- `Read::write` of the pipe without the waker, which the caller of the trait does not see.
abbrev pub write_all_of : Inner → Bytes → IoResult ℕ × Inner
write_all_of inner bs = let (r, _, inner') = write inner bs in (r, inner')

pub write_ok :
    (inner : Inner) (bs : Bytes) (n : ℕ)
    → (write_all_of inner bs).0 ≡ ok n
    → ((write_all_of inner bs).1.buf ≡ inner.buf ++ take n bs) × (n ≤ length bs)
unfolding write
write_ok inner bs n e = ground (arith, take-length n bs)

pub write_err :
    (inner : Inner) (bs : Bytes) (e : IoError)
    → (write_all_of inner bs).0 ≡ err e
    → (write_all_of inner bs).1.buf ≡ inner.buf
unfolding write
write_err inner bs e h = cc

instance abbrev pub pipe_reader : Read Inner
pipe_reader = record {
  read = read;
  remaining = λ inner. inner.buf;
  read_ok = read_ok;
  read_err = read_err;
}

instance abbrev pub pipe_writer : Write Inner
pipe_writer = record {
  write = write_all_of;
  accepted = λ inner. inner.buf;
  write_ok = write_ok;
  write_err = write_err;
}
