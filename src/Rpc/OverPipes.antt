-- ===== src/Rpc/OverPipes.antt =====
-- A host and a plugin that speak over two pipes, as crates/wasmi-plugin-hdk/src/plugin.rs joins them:
-- the host's `JsonRpcTransport` reads the plugin's stdout through a `BufReader` and writes to its
-- stdin, and the plugin is a `PluginServer` with one method. The plugin runs where the host's transport
-- yields.
pub mod RoundTrip
pub mod Sample
mod Tests
use Prim.Native.String.{String}
use wasmi_plugin_framework.Base.{ℕ, zero, suc, Bool, true, Option, none, some, [], if◌then◌else◌}
use wasmi_plugin_framework.Bytes.{Bytes}
use wasmi_plugin_framework.Io.{IoResult}
use wasmi_plugin_framework.Io.Buffered.{BufReader}
use wasmi_plugin_framework.Io.Lines.{read_line}
use wasmi_plugin_framework.Pipe.{Inner, non_blocking_pipe, write, drop_writer}
use wasmi_plugin_framework.Pipe.Stream.{pipe_reader}
use wasmi_plugin_framework.Rpc.Message.{RpcMessage}
use wasmi_plugin_framework.Rpc.Transport
use wasmi_plugin_framework.Rpc.Transport.{Wire, JsonRpcTransport}
use wasmi_plugin_framework.Rpc.Server.{HandlerFn}
use wasmi_plugin_framework.Rpc.PluginServer.{PluginServer, new_with_transport, with_method, run}

-- What is used of serde_json and of `str`.
pub record Codec (V : Type 0) : Type 0 where
  pub from_str : Bytes → Option (RpcMessage V)
  pub to_string : RpcMessage V → Option Bytes
  pub trim : Bytes → Bytes

-- `write_all` into a pipe, which takes everything at once, and `flush`, which does nothing.
abbrev pub write_all : Inner → Bytes → Bool × Inner
write_all inner bytes = (true, (write inner bytes).2)

abbrev pub flush : Inner → Bool × Inner
flush inner = (true, inner)

-- The plugin is still to answer, after some more turns, or it has ended.
pub data Plugin : Type 0 where
  waits : ℕ → Plugin
  ended : Plugin

-- What the host's transport reads from, and behind it the plugin.
pub record Link : Type 0 where
  pub lines : BufReader Inner
  pub plugin : Plugin

abbrev pub read_link : Link → IoResult ℕ × Bytes × Link
read_link link =
    let (r, line, lines) = read_line link.lines in (r, line, record link { lines = lines })

module _ {V : Type 0} ⦃codec : Codec V⦄ where
  instance abbrev pub plugin_wire : Wire V (BufReader Inner) Inner
  plugin_wire = record {
    from_str = codec.from_str;
    to_string = codec.to_string;
    trim = codec.trim;
    read_line = read_line;
    write_all = write_all;
    flush = flush;
  }

  instance abbrev pub host_wire : Wire V Link Inner
  host_wire = record {
    from_str = codec.from_str;
    to_string = codec.to_string;
    trim = codec.trim;
    read_line = read_link;
    write_all = write_all;
    flush = flush;
  }

abbrev pub Host : (V : Type 0) → Type 0
Host V = JsonRpcTransport V Link Inner

abbrev pub Guest : (V : Type 0) → Type 0
Guest V = JsonRpcTransport V (BufReader Inner) Inner

-- A plugin that has ended drops its end of stdout.
abbrev pub left_by : {V : Type 0} → Option (Guest V) → Host V → Host V
left_by none t = t
left_by (some g) t = record t {
  writer = (g.reader).inner;
  reader = record {
    lines = record (t.reader.lines) { inner = (drop_writer g.writer).1 };
    plugin = Plugin.ended;
  };
}

module _ {V : Type 0} ⦃codec : Codec V⦄ (name : String) (f : HandlerFn (Unit {0}) V (Guest V)) where
  -- The plugin's `main`, on its ends of the two pipes.
  abbrev pub main : Inner → Inner → PluginServer V (BufReader Inner) Inner
  main stdin stdout =
      with_method (new_with_transport (record { buf = []; inner = stdin }) stdout) name f

  -- One turn of the plugin.
  abbrev pub turn_of : Plugin → Host V → Host V
  turn_of ended t = t
  turn_of (waits (suc k)) t = record t { reader = record (t.reader) { plugin = waits k } }
  turn_of (waits zero) t = left_by (run (main t.writer t.reader.lines.inner) (λ g. g) 1) t

  abbrev pub turn : Host V → Host V
  turn t = turn_of t.reader.plugin t

-- The host's transport for a plugin that has been spawned.
abbrev pub spawned : {V : Type 0} → ℕ → Host V
spawned k =
    Transport.new
      (record { lines = record { buf = []; inner = non_blocking_pipe }; plugin = waits k })
      non_blocking_pipe
