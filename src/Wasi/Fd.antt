-- ===== src/Wasi/Fd.antt =====
-- `fd_fdstat_get` and `fd_close`.
pub mod Stat
mod Tests
use wasmi_plugin_framework.Base.{
  ℕ, ◌+◌, ◌^◌, ◌||◌, Option, none, some, [], ◌∷◌, ◌++◌, length, take, drop, replicate,
  if◌then◌else◌, ℤ, as_usize,
}
use wasmi_plugin_framework.Bytes.{Bytes, to_le}
use wasmi_plugin_framework.Memory.{GuestMemory}
use wasmi_plugin_framework.Wasi.Context.{Errno, success, badf}
use wasmi_plugin_framework.Wasi.Caller.{
  Caller, Action, Outcome, returned, pure, fail, ◌>>◌, finish, is_fd, expect_memory, write_or_fault,
}

-- `buf[off..off + bs.len()].copy_from_slice(bs)`
abbrev pub copy_at : Bytes → ℕ → Bytes → Bytes
copy_at buf off bs = take off buf ++ (bs ++ drop (off + length bs) buf)

abbrev pub rights_fd_read : ℕ
rights_fd_read = 2 ^ 1

abbrev pub rights_fd_write : ℕ
rights_fd_write = 2 ^ 6

-- `filetype` and `rights_base` of a descriptor; 2 is `FILETYPE_CHARACTER_DEVICE`.
pub fd_rights : ℤ → Option (ℕ × ℕ)
fd_rights fd =
    if is_fd fd 0
    then some (2, rights_fd_read)
    else if is_fd fd 1 || is_fd fd 2
    then some (2, rights_fd_write)
    else none

-- The 24 bytes that the call writes.
pub fdstat : ℕ → ℕ → Bytes
fdstat filetype rights_base =
    let typed = copy_at (replicate 24 0) 0 (filetype ∷ []) in
    let flagged = copy_at typed 1 (to_le 2 0) in
    let based = copy_at flagged 8 (to_le 8 rights_base) in copy_at based 16 (to_le 8 0)

module _ {M R W : Type 0} where
  unfoldable pub fd_close : ℤ → Caller M R W → Outcome M R W
  fd_close fd c =
      if is_fd fd 0
      then returned success (record c { ctx = record (c.ctx) { stdin_reader = none } })
      else if is_fd fd 1
      then returned success (record c { ctx = record (c.ctx) { stdout_writer = none } })
      else if is_fd fd 2
      then returned success (record c { ctx = record (c.ctx) { stderr_writer = none } })
      else returned badf c

module _ {M R W : Type 0} ⦃mem : GuestMemory M⦄ where
  abbrev write_fdstat : ℤ → Option (ℕ × ℕ) → Action M R W Errno
  write_fdstat buf_ptr none = fail badf
  write_fdstat buf_ptr (some (filetype, rights_base)) = do
    expect_memory
    write_or_fault (as_usize buf_ptr) (fdstat filetype rights_base)
    pure success

  pub fd_fdstat_get : ℤ → ℤ → Caller M R W → Outcome M R W
  unfolding fd_rights
  fd_fdstat_get fd buf_ptr c = finish (write_fdstat buf_ptr (fd_rights fd) c)
