-- ===== src/Wasi/Caller.antt =====
-- What a system call works on, `wasmi::Caller<WasiCtx>`, and the ways in which it ends. The guest's
-- memory is an export that may be missing, and `expect` and `unwrap` panic.
pub mod Invert
pub mod Keeps
use wasmi_plugin_framework.Base.{
  ℕ, ◌+◌, ◌*◌, ◌%◌, ◌^◌, Bool, true, false, Option, none, some, ℤ, pos, negsuc, ◌==◌,
}
use wasmi_plugin_framework.Bytes.{Bytes, to_le, from_le}
use wasmi_plugin_framework.Memory.{GuestMemory}
use wasmi_plugin_framework.Wasi.Context.{Errno, success, WasiCtx}

pub record Caller (M R W : Type 0) : Type 0 where
  pub ctx : WasiCtx R W
  pub memory : Option M
  pub fuel : ℕ

-- A step of a call goes on with a value, or returns an error number from the call, or panics.
pub data Flow (M R W A : Type 0) : Type 0 where
  next : A → Caller M R W → Flow M R W A
  leave : Errno → Caller M R W → Flow M R W A
  panic : Flow M R W A

abbrev pub Action : (M R W A : Type 0) → Type 0
Action M R W A = Caller M R W → Flow M R W A

-- What the guest sees of a call.
pub data Outcome (M R W : Type 0) : Type 0 where
  returned : Errno → Caller M R W → Outcome M R W
  panicked : Outcome M R W

module _ {M R W A : Type 0} where
  abbrev pub pure : A → Action M R W A
  pure a c = next a c

  -- `return errno`
  abbrev pub fail : Errno → Action M R W A
  fail e c = leave e c

  abbrev pub unwrap : Option A → Action M R W A
  unwrap none c = panic
  unwrap (some a) c = next a c

  abbrev pub gets : (Caller M R W → A) → Action M R W A
  gets f c = next (f c) c

  abbrev pub and_then : {B : Type 0} → Flow M R W A → (A → Action M R W B) → Flow M R W B
  and_then (next a c) k = k a c
  and_then (leave e c) k = leave e c
  and_then panic k = panic

infixl 5 ◌>>=◌ ◌>>◌
abbrev pub ◌>>=◌ : {M R W A B : Type 0} → Action M R W A → (A → Action M R W B) → Action M R W B
◌>>=◌ m k c = and_then (m c) k

abbrev pub ◌>>◌ : {M R W A B : Type 0} → Action M R W A → Action M R W B → Action M R W B
m >> k = m >>= λ _. k

module _ {M R W : Type 0} where
  -- The whole call: its last expression is the error number that it returns.
  abbrev pub finish : Flow M R W Errno → Outcome M R W
  finish (next e c) = returned e c
  finish (leave e c) = returned e c
  finish panic = panicked

  abbrev pub modify_ctx : (WasiCtx R W → WasiCtx R W) → Action M R W (Unit {0})
  modify_ctx f c = next tt (record c { ctx = f c.ctx })

  -- `caller.set_fuel(0).unwrap()`: the engine meters fuel, so it does not fail.
  abbrev pub set_fuel : ℕ → Action M R W (Unit {0})
  set_fuel n c = next tt (record c { fuel = n })

  -- `get_export("memory").and_then(into_memory).expect("guest must have memory")`
  abbrev pub expect_memory : Action M R W M
  expect_memory c = unwrap c.memory c

-- A test of an `i32` argument against a number.
abbrev pub is_fd : ℤ → ℕ → Bool
is_fd (pos n) k = n == k
is_fd (negsuc n) k = false

-- The address of the `i`-th record of `width` bytes behind `base`, as usize arithmetic.
abbrev pub record_addr : ℕ → ℕ → ℕ → ℕ
record_addr base width i = (base + i * width) % 2 ^ 64

module _ {M R W : Type 0} ⦃mem : GuestMemory M⦄ where
  -- `memory.read(off, &mut [0; n])`: `none` is its error.
  abbrev pub mem_read : ℕ → ℕ → Action M R W (Option Bytes)
  mem_read off n c = elim c.memory [ none ↦ panic | some m ↦ next (mem.read m off n) c ]

  abbrev pub stored : Caller M R W → Option M → Flow M R W Bool
  stored c none = next false c
  stored c (some m') = next true (record c { memory = some m' })

  -- `memory.write(off, bs).is_ok()`
  abbrev pub mem_write : ℕ → Bytes → Action M R W Bool
  mem_write off bs c = elim c.memory [ none ↦ panic | some m ↦ stored c (mem.write m off bs) ]

  -- `memory.read(…).unwrap()` of a little-endian u32
  abbrev pub read_u32 : ℕ → Action M R W ℕ
  read_u32 off = do bs ← mem_read off 4; word ← unwrap bs; pure (from_le word)

  abbrev pub unwrap_ok : Bool → Action M R W (Unit {0})
  unwrap_ok true c = next tt c
  unwrap_ok false c = panic

  -- `memory.write(…).unwrap()`
  abbrev pub write_or_panic : ℕ → Bytes → Action M R W (Unit {0})
  write_or_panic off bs = do done ← mem_write off bs; unwrap_ok done

  abbrev pub ok_or_fault : Bool → Action M R W (Unit {0})
  ok_or_fault true c = next tt c
  ok_or_fault false c = leave Errno.fault c

  -- `if memory.write(…).is_err() { return Errno::Fault }`
  abbrev pub write_or_fault : ℕ → Bytes → Action M R W (Unit {0})
  write_or_fault off bs = do done ← mem_write off bs; ok_or_fault done
