-- ===== src/Plugin/Call/Tests.antt =====
-- A guest that runs for as long as its flag is set, and one that ends at once. The state is the flag.
use wasmi_plugin_framework.Base.{ℕ, ◌≡◌, refl, ap, Bool, true, false, none, some, if◌then◌else◌}
use wasmi_plugin_framework.Pipe.{ready, pending}
use wasmi_plugin_framework.Rpc.Message.{RpcResponse, RpcResult}
use wasmi_plugin_framework.Plugin.Spawn.{Instance, spawned, fresh_pipes, spawn_plugin}
use wasmi_plugin_framework.Wasi.Imports.Defs.{defs_linker}
use wasmi_plugin_framework.Plugin.Spawn.Imported.{spawn_plugin_lem}
use wasmi_plugin_framework.Plugin.Spawn.Sample.{linker, calls}
use wasmi_plugin_framework.Plugin.Join.{join}
use wasmi_plugin_framework.Plugin.Call.{Plugin, ok, Tasks, call_spawned, call}
use wasmi_plugin_framework.Plugin.Call.Ends.{RunsOn, Outcome, call_hangs, call_outcome}

abbrev plugin : Plugin ℕ ℕ ℕ ℕ
plugin = record {
  name = "quiet";
  id = 9;
  handler = 0;
  engine = 1;
  module_ = 2;
  logger = 3;
  max_fuel = none;
}

abbrev inst : Instance ℕ ℕ
inst = record {
  pipes = fresh_pipes;
  stdin_writer = 0;
  stdout_reader = 1;
  stderr_reader = 2;
  is_running = true;
  store = 4;
  start_func = 5;
  max_fuel = none;
}

abbrev answer : RpcResponse ℕ
answer = record { jsonrpc = "2.0"; id = 0; result = 6 }

abbrev loops : Tasks Bool ℕ ℕ ℕ
loops = record {
  rpc_task = λ s. (ready (RpcResult.ok answer), s);
  instance_task = λ s. (if s then pending else ready tt, s);
  stderr_task = λ s. (pending, s);
  wake = λ s. s;
  stop = λ s. false;
  setup = λ i. i.is_running;
}

abbrev ends : Tasks Bool ℕ ℕ ℕ
ends = record loops { instance_task = λ s. (ready tt, s); stderr_task = λ s. (ready tt, s) }

loops-RunsOn : RunsOn loops (λ s. s)
loops-RunsOn = record {
  rpc_keeps = λ s f. f;
  runs = λ s f. (rw (f) refl, f);
  stderr_keeps = λ s f. f;
  wake_keeps = λ s f. f;
  setup_sets = λ i f. f;
}

spawns_inst : spawn_plugin linker calls plugin.engine plugin.module_ plugin.max_fuel ≡ spawned inst
spawns_inst = (spawn_plugin_lem linker calls 1 2 none).2

call_hangs_example : call linker calls loops 1000 plugin ≡ none
call_hangs_example =
    call_hangs linker calls loops (λ s. s) 1000 plugin inst loops-RunsOn spawns_inst refl

call-ends : call linker calls ends 1 plugin ≡ some (ok answer, some false)
unfolding call join
call-ends = ap (call_spawned ends 1) spawns_inst

call_outcome_example :
    Outcome ends
      (spawn_plugin linker calls plugin.engine plugin.module_ plugin.max_fuel)
      (ok answer)
      (some false)
call_outcome_example = call_outcome linker calls ends 1 plugin (ok answer) (some false) call-ends
