-- ===== src/Plugin/Spawn/Sample.antt =====
-- For the tests, a linker whose guests always start.
use wasmi_plugin_framework.Base.{ℕ, refl, some, []}
use wasmi_plugin_framework.Wasi.Imports.{WasiCalls}
use wasmi_plugin_framework.Wasi.Imports.Defs.{Defs, defs_linker}
use wasmi_plugin_framework.Plugin.Spawn.{Linker}

abbrev pub linker : Linker ℕ ℕ (Defs ℕ) ℕ ℕ ℕ
linker = record {
  new_linker = λ e. [];
  instantiate_and_start = λ l m ctx. some 4;
  get_func = λ i name. some 5;
  new_linker_get = λ e m n. refl;
}

-- The host functions by number.
abbrev pub calls : WasiCalls ℕ
calls = record {
  args_get = 1;
  args_sizes_get = 2;
  env_get = 3;
  env_sizes_get = 4;
  fd_read = 5;
  fd_fdstat_get = 6;
  fd_write = 7;
  clock_time_get = 8;
  fd_close = 9;
  random_get = 10;
  sched_yield = 11;
  poll_oneoff = 12;
  proc_raise = 13;
  proc_exit = 14;
}
