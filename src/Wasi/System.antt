-- ===== src/Wasi/System.antt =====
-- `clock_time_get`, `random_get`, `sched_yield`, `proc_raise` and `proc_exit`. The host's clock and
-- its source of entropy are arguments.
pub mod Results
mod Tests
use wasmi_plugin_framework.Base.{
  ℕ, ◌+◌, ◌-◌, negsuc, ◌%◌, ◌^◌, ◌||◌, Option, none, some, ltb, if◌then◌else◌, ℤ, pos, ◌+ℤ◌,
  as_usize,
}
use wasmi_plugin_framework.Bytes.{Bytes, to_le}
use wasmi_plugin_framework.Memory.{GuestMemory}
use wasmi_plugin_framework.Wasi.Context.{Errno, success, inval, io}
use wasmi_plugin_framework.Wasi.Caller.{
  Caller, Action, Outcome, panicked, pure, fail, ◌>>◌, finish, is_fd, expect_memory, write_or_fault,
  set_fuel,
}

-- A trap that ends the guest with an exit code, or the return to the guest.
pub data Exit : Type 0 where
  resumes : Exit
  i32_exit : ℤ → Exit

-- `128 + sig` in an i32, which wraps around where overflow is not checked.
abbrev pub exit_code : ℤ → ℤ
exit_code (pos n) =
    if ltb (128 + n) (2 ^ 31) then pos (128 + n) else negsuc (2 ^ 32 - (128 + n) - 1)
exit_code (negsuc n) = pos 128 +ℤ negsuc n

pub proc_raise : ℤ → Exit
proc_raise sig =
    if is_fd sig 0 || is_fd sig 13 || is_fd sig 16 || is_fd sig 17 || is_fd sig 22 || is_fd sig 27
    then resumes
    else i32_exit (exit_code sig)

pub proc_exit : ℤ → Exit
proc_exit status = i32_exit status

module _ {M R W : Type 0} where
  pub sched_yield : Caller M R W → Outcome M R W
  sched_yield c = finish ((set_fuel 0 >> pure success) c)

module _ {M R W : Type 0} ⦃mem : GuestMemory M⦄ where
  -- `SystemTime::now().duration_since(UNIX_EPOCH)` in nanoseconds, `none` before the epoch, goes
  -- through `as u64`.
  abbrev clock_body : Option ℕ → ℤ → ℤ → Action M R W Errno
  clock_body none clock_id result_ptr = do expect_memory; fail inval
  clock_body (some now) clock_id result_ptr = do
    expect_memory
    if is_fd clock_id 0 || is_fd clock_id 1
        then (do write_or_fault (as_usize result_ptr) (to_le 8 (now % 2 ^ 64)); pure success)
        else fail inval

  pub clock_time_get : Option ℕ → ℤ → ℤ → Caller M R W → Outcome M R W
  clock_time_get now clock_id result_ptr c = finish (clock_body now clock_id result_ptr c)

  abbrev random_body : Option Bytes → ℤ → Action M R W Errno
  random_body none buf_ptr = fail io
  random_body (some bytes) buf_ptr = do write_or_fault (as_usize buf_ptr) bytes; pure success

  -- `getrandom n` is the host's answer for a buffer of `n` bytes. `vec![0; n]` panics where `n`
  -- bytes are more than `isize::MAX`.
  pub random_get : (ℕ → Option Bytes) → ℤ → ℤ → Caller M R W → Outcome M R W
  random_get getrandom buf_ptr buf_len c =
      let filled = (expect_memory >> random_body (getrandom (as_usize buf_len)) buf_ptr) c in
      if ltb (as_usize buf_len) (2 ^ 63) then finish filled else panicked
