-- ===== src/Wasi/Imports/Calls.antt =====
-- The functions of crates/wasmi-plugin-hdk/src/wasi/wasi_ctx.rs that `add_to_linker` wraps.
use wasmi_plugin_framework.Base.{ℕ, Option, ℤ}
use wasmi_plugin_framework.Bytes.{Bytes}
use wasmi_plugin_framework.Io.{Read, Write}
use wasmi_plugin_framework.Memory.{GuestMemory}
use wasmi_plugin_framework.Wasi.Caller.{Caller, Outcome}
use wasmi_plugin_framework.Wasi.Args
use wasmi_plugin_framework.Wasi.FdRead
use wasmi_plugin_framework.Wasi.FdWrite
use wasmi_plugin_framework.Wasi.Fd
use wasmi_plugin_framework.Wasi.System
use wasmi_plugin_framework.Wasi.System.{Exit}
use wasmi_plugin_framework.Wasi.Poll
use wasmi_plugin_framework.Wasi.Imports.{WasiCalls}

-- What the host's clocks and its source of entropy give during a call.
pub record Services : Type 0 where
  pub system_time : Option ℕ
  pub instant : ℕ
  pub getrandom : ℕ → Option Bytes

-- A host function, by the types of its parameters and its result.
pub data HostFn (M R W : Type 0) : Type 0 where
  nullary : (Services → Caller M R W → Outcome M R W) → HostFn M R W
  u32_u32 : (Services → ℕ → ℕ → Caller M R W → Outcome M R W) → HostFn M R W
  i32_only : (Services → ℤ → Caller M R W → Outcome M R W) → HostFn M R W
  i32_i32 : (Services → ℤ → ℤ → Caller M R W → Outcome M R W) → HostFn M R W
  i32_i64_i32 : (Services → ℤ → ℤ → ℤ → Caller M R W → Outcome M R W) → HostFn M R W
  u32_i32_i32_i32 : (Services → ℕ → ℤ → ℤ → ℤ → Caller M R W → Outcome M R W) → HostFn M R W
  i32_i32_i32_i32 : (Services → ℤ → ℤ → ℤ → ℤ → Caller M R W → Outcome M R W) → HostFn M R W
  i32_exits : (Services → ℤ → Exit) → HostFn M R W

module _ {M R W : Type 0} ⦃mem : GuestMemory M⦄ ⦃rd : Read R⦄ ⦃wr : Write W⦄ where
  abbrev pub wasi_calls : WasiCalls (HostFn M R W)
  wasi_calls = record {
    args_get = u32_u32 (λ s. Args.args_get);
    args_sizes_get = u32_u32 (λ s. Args.args_sizes_get);
    env_get = u32_u32 (λ s. Args.env_get);
    env_sizes_get = u32_u32 (λ s. Args.env_sizes_get);
    fd_read = u32_i32_i32_i32 (λ s. FdRead.fd_read);
    fd_fdstat_get = i32_i32 (λ s. Fd.fd_fdstat_get);
    fd_write = i32_i32_i32_i32 (λ s. FdWrite.fd_write);
    clock_time_get =
        i32_i64_i32 (λ s clock_id precision. System.clock_time_get s.system_time clock_id);
    fd_close = i32_only (λ s. Fd.fd_close);
    random_get = i32_i32 (λ s. System.random_get s.getrandom);
    sched_yield = nullary (λ s. System.sched_yield);
    poll_oneoff = i32_i32_i32_i32 (λ s. Poll.poll_oneoff s.system_time s.instant);
    proc_raise = i32_exits (λ s. System.proc_raise);
    proc_exit = i32_exits (λ s. System.proc_exit);
  }
