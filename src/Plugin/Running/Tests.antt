-- ===== src/Plugin/Running/Tests.antt =====
-- A plugin that answers in its third turn, and says a word on stderr.
use wasmi_plugin_framework.Base.{ℕ, true, none}
use wasmi_plugin_framework.Rpc.Message
use wasmi_plugin_framework.Rpc.OverPipes.Sample.{codec}
use wasmi_plugin_framework.Wasi.Imports.Defs.{defs_linker}
use wasmi_plugin_framework.Plugin.Spawn.{Instance, fresh_pipes}
use wasmi_plugin_framework.Plugin.Call.{Plugin}
use wasmi_plugin_framework.Plugin.Running.{Running}

abbrev plugin : Plugin ℕ ℕ ℕ ℕ
plugin = record {
  name = "adder";
  id = 9;
  handler = 0;
  engine = 1;
  module_ = 2;
  logger = 3;
  max_fuel = none;
}

abbrev inst : Instance ℕ ℕ
inst = record {
  pipes = fresh_pipes;
  stdin_writer = 0;
  stdout_reader = 1;
  stderr_reader = 2;
  is_running = true;
  store = 4;
  start_func = 5;
  max_fuel = none;
}

abbrev six : Message.RpcResult ℕ
six = Message.ok 6
