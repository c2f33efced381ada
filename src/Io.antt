-- ===== src/Io.antt =====
-- What the crates use of `std::io`: error kinds, results, and the traits `Read` and `Write`, which
-- `WasiCtx` takes as trait objects. A trait is an interface: its operation, a view of the bytes
-- that the source still holds or the sink has been given, and what the trait's documentation
-- promises of the operation in terms of that view.
pub mod Buffered
pub mod Lines
use wasmi_plugin_framework.Base.{ℕ, ◌≤◌, ◌≡◌, ◌++◌, length, take}
use wasmi_plugin_framework.Bytes.{Bytes}

pub data IoError : Type 0 where
  would_block other : IoError

pub data IoResult (A : Type 0) : Type 0 where
  ok : A → IoResult A
  err : IoError → IoResult A

-- `read r n` is a read into a buffer of `n` bytes: the part of the buffer that was filled.
pub record Read (R : Type 0) : Type 0 where
  pub read : R → ℕ → IoResult Bytes × R
  pub remaining : R → Bytes
  pub read_ok :
      (r : R) (n : ℕ) (bs : Bytes)
      → (read r n).0 ≡ ok bs
      → (remaining r ≡ bs ++ remaining (read r n).1) × (length bs ≤ n)
  pub read_err :
      (r : R) (n : ℕ) (e : IoError) → (read r n).0 ≡ err e → remaining (read r n).1 ≡ remaining r

-- `write w bs` returns how many bytes of the front of `bs` were accepted.
pub record Write (W : Type 0) : Type 0 where
  pub write : W → Bytes → IoResult ℕ × W
  pub accepted : W → Bytes
  pub write_ok :
      (w : W) (bs : Bytes) (n : ℕ)
      → (write w bs).0 ≡ ok n
      → (accepted (write w bs).1 ≡ accepted w ++ take n bs) × (n ≤ length bs)
  pub write_err :
      (w : W) (bs : Bytes) (e : IoError)
      → (write w bs).0 ≡ err e
      → accepted (write w bs).1 ≡ accepted w
