-- ===== src/Plugin/Running/Calls.antt =====
-- What `Plugin::call` returns.
use Prim.Native.String.{String}
use wasmi_plugin_framework.Base.{false}
use wasmi_plugin_framework.Bytes.{Bytes}
use wasmi_plugin_framework.Rpc.Message.{RpcResponse, RpcResult}
use wasmi_plugin_framework.Rpc.Message
use wasmi_plugin_framework.Rpc.Transport.{json_rpc_version}
use wasmi_plugin_framework.Rpc.OverPipes
use wasmi_plugin_framework.Rpc.OverPipes.{host_wire}
use wasmi_plugin_framework.Plugin.Call.{Plugin, PluginResult, ok, err, rpc_error}
use wasmi_plugin_framework.Plugin.Running.{Running}

module _ {V : Type 0} where
  -- The plugin's result, as the caller gets it.
  abbrev pub returned : RpcResult V → PluginResult (RpcResponse V)
  returned (RpcResult.ok v) = ok (record { jsonrpc = json_rpc_version; id = 0; result = v })
  returned (RpcResult.err e) = err (rpc_error e)

  abbrev left_by : RpcResult V → Running V → Running V
  left_by (RpcResult.ok v) s = record s { is_running = false }
  left_by (RpcResult.err e) s = s
