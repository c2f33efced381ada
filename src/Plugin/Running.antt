-- ===== src/Plugin/Running.antt =====
-- The three futures of `Plugin::call` in crates/wasmi-plugin-hdk/src/plugin.rs, over the state that they
-- share: the transport's call, the guest and the stderr task. The guest is a plugin of Rpc/OverPipes
-- that answers in its turn `k`, writes `said` to its stderr, and ends.
pub mod Answers
pub mod Calls
mod Tests
use Prim.Native.String.{String}
use wasmi_plugin_framework.Base.{ℕ, suc, Bool, true, false, Option, none, some, List, [], get_or}
use wasmi_plugin_framework.Bytes.{Bytes}
use wasmi_plugin_framework.Pipe.{Inner, Poll, ready, pending, non_blocking_pipe, write, drop_writer}
use wasmi_plugin_framework.Rpc.Message.{RpcResponse, RpcResult}
use wasmi_plugin_framework.Rpc.Transport
use wasmi_plugin_framework.Rpc.Transport.{RequestHandler}
use wasmi_plugin_framework.Rpc.Transport.Polls.{CallTask, starting, poll_call}
use wasmi_plugin_framework.Rpc.Server.{HandlerFn}
use wasmi_plugin_framework.Rpc.OverPipes.{
  Codec, Plugin, waits, ended, Link, Host, Guest, host_wire, turn,
}
use wasmi_plugin_framework.Plugin.Join.{Future}
use wasmi_plugin_framework.Plugin.Stderr.{StderrTask, poll_stderr}
use wasmi_plugin_framework.Plugin.Stderr.Ends.{work}
use wasmi_plugin_framework.Plugin.Spawn.{Instance}
use wasmi_plugin_framework.Plugin.Call.{Tasks}

pub record Running (V : Type 0) : Type 0 where
  pub call : CallTask V Link Inner
  pub stderr : StderrTask
  pub is_running : Bool

abbrev pub pipe_at : List Inner → ℕ → Inner
pipe_at pipes i = get_or pipes i non_blocking_pipe

-- A poll of the stderr task has a round for each that it can need.
abbrev pub polled_stderr :
    {V : Type 0} → Running V → Option (Bool × StderrTask) → Poll (Unit {0}) × Running V
polled_stderr s none = (pending, s)
polled_stderr s (some (false, t)) = (pending, record s { stderr = t })
polled_stderr s (some (true, t)) = (ready tt, record s { stderr = t })

abbrev pub stderr_task : {V : Type 0} → (Bytes → Bool) → Future (Running V) (Unit {0})
stderr_task utf8 s = polled_stderr s (poll_stderr utf8 0 (suc (work s.stderr)) s.stderr)

-- A guest that has ended has dropped its end of stderr too, and its task clears the flag.
abbrev pub after_turn : {V : Type 0} → Bytes → Plugin → Running V → Poll (Unit {0}) × Running V
after_turn said (waits k) s = (pending, s)
after_turn said ended s = (
  ready tt,
  record s {
    stderr = record (s.stderr) { pipe = (drop_writer (write s.stderr.pipe said).2).1 };
    is_running = false;
  },
)

module _ {V : Type 0} ⦃codec : Codec V⦄ where
  abbrev pub rpc_task :
      Option (RequestHandler V Link Inner) → ℕ → Future (Running V) (RpcResult (RpcResponse V))
  rpc_task handler fuel s =
      let (polled, call') = poll_call handler fuel s.call in (polled, record s { call = call' })

  abbrev pub instance_task :
      String → HandlerFn (Unit {0}) V (Guest V) → Bytes → Future (Running V) (Unit {0})
  instance_task name f said s =
      let t = turn name f s.call.transport in
      after_turn said t.reader.plugin (record s { call = record (s.call) { transport = t } })

  -- The state that `Plugin::call` makes of what `spawn_plugin` returns.
  abbrev pub setup : {I F : Type 0} → ℕ → String → V → Instance I F → Running V
  setup k method params inst = record {
    call = record {
      stage = starting method params;
      transport =
          Transport.new
            (record {
              lines = record { buf = []; inner = pipe_at inst.pipes inst.stdout_reader };
              plugin = waits k;
            })
            (pipe_at inst.pipes inst.stdin_writer);
    };
    stderr = record {
      line = [];
      buffered = [];
      pipe = pipe_at inst.pipes inst.stderr_reader;
      log = [];
    };
    is_running = inst.is_running;
  }

  abbrev pub tasks :
      {I F : Type 0}
      → Option (RequestHandler V Link Inner)
      → ℕ
      → (Bytes → Bool)
      → String
      → HandlerFn (Unit {0}) V (Guest V)
      → Bytes
      → ℕ
      → String
      → V
      → Tasks (Running V) I F V
  tasks handler fuel utf8 name f said k method params = record {
    rpc_task = rpc_task handler fuel;
    instance_task = instance_task name f said;
    stderr_task = stderr_task utf8;
    wake = λ s. s;
    stop = λ s. record s { is_running = false };
    setup = setup k method params;
  }
