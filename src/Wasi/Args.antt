-- ===== src/Wasi/Args.antt =====
-- `args_get`, `args_sizes_get`, `environ_get` and `environ_sizes_get`: lists of strings laid out in
-- guest memory as a table of pointers and a block of NUL-terminated strings.
pub mod Strings
pub mod Layout
pub mod Sizes
pub mod Faults
mod Tests
use wasmi_plugin_framework.Base.{
  ℕ, ◌+◌, ◌%◌, ◌^◌, Bool, true, false, Option, none, some, List, [], ◌∷◌, ◌++◌, length,
  if◌then◌else◌,
}
use wasmi_plugin_framework.Bytes.{Bytes, to_le}
use wasmi_plugin_framework.Memory.{GuestMemory}
use wasmi_plugin_framework.Wasi.Context.{Errno, success, fault}
use wasmi_plugin_framework.Wasi.Caller.{
  Caller, Action, Outcome, pure, fail, gets, ◌>>=◌, ◌>>◌, finish, expect_memory, mem_write,
  write_or_fault,
}

-- `iter().map(|s| s.len() as u32 + 1).sum()`, in u32 arithmetic.
pub block_len : List Bytes → ℕ
block_len [] = 0
block_len (s ∷ ss) = (length s % 2 ^ 32 + 1 + block_len ss) % 2 ^ 32

module _ {M R W : Type 0} ⦃mem : GuestMemory M⦄ where
  -- The pointers after the string, or `none` for `Err(Errno::Fault)`.
  pub write_pointer_and_string : ℕ → ℕ → Bytes → Action M R W (Option (ℕ × ℕ))
  write_pointer_and_string table_ptr buf_ptr s = do
    pointed ← mem_write table_ptr (to_le 4 (buf_ptr % 2 ^ 32))
    if pointed
        then (do
          copied ← mem_write buf_ptr (s ++ (0 ∷ []))
          pure (
              if copied
              then some ((table_ptr + 4) % 2 ^ 64, (buf_ptr + (length s + 1)) % 2 ^ 64)
              else none))
        else pure none

  -- The loop of `args_get` and `env_get`.
  pub write_strings : List Bytes → ℕ → ℕ → Action M R W Errno
  write_strings [] table_ptr buf_ptr = pure success
  write_strings (s ∷ ss) table_ptr buf_ptr = do
    ptrs ← write_pointer_and_string table_ptr buf_ptr s
    elim ptrs [ none ↦ fail fault | some (t, b) ↦ write_strings ss t b ]

  -- The handlers read the list first, then look for the memory.
  abbrev get_strings : List Bytes → ℕ → ℕ → Action M R W Errno
  get_strings ss table_ptr buf_ptr = do expect_memory; write_strings ss table_ptr buf_ptr

  pub args_get : ℕ → ℕ → Caller M R W → Outcome M R W
  unfolding write_strings
  args_get argv argv_buf c = finish (get_strings c.ctx.args argv argv_buf c)

  pub env_get : ℕ → ℕ → Caller M R W → Outcome M R W
  unfolding write_strings
  env_get environ environ_buf c = finish (get_strings c.ctx.env environ environ_buf c)

  -- The two counts of a list of strings.
  abbrev pub write_sizes : List Bytes → ℕ → ℕ → Action M R W Errno
  write_sizes ss offset0 offset1 = do
    expect_memory
    write_or_fault offset0 (to_le 4 (length ss % 2 ^ 32))
    write_or_fault offset1 (to_le 4 (block_len ss))
    pure success

  pub args_sizes_get : ℕ → ℕ → Caller M R W → Outcome M R W
  args_sizes_get offset0 offset1 c = finish (write_sizes c.ctx.args offset0 offset1 c)

  pub env_sizes_get : ℕ → ℕ → Caller M R W → Outcome M R W
  env_sizes_get offset0 offset1 c = finish (write_sizes c.ctx.env offset0 offset1 c)
