-- ===== src/Rpc/PluginServer.antt =====
-- `PluginServer` of crates/wasmi-plugin-pdk/src/server.rs: a transport, and the router for its requests.
pub mod Serves
use Prim.Native.String.{String}
use wasmi_plugin_framework.Base.{ℕ, Option}
use wasmi_plugin_framework.Rpc.Transport
use wasmi_plugin_framework.Rpc.Transport.{Wire, JsonRpcTransport}
use wasmi_plugin_framework.Rpc.Server
use wasmi_plugin_framework.Rpc.Server.{HandlerFn, Router, new_router}

pub record PluginServer (V R W : Type 0) : Type 0 where
  pub transport : JsonRpcTransport V R W
  pub router : Router (Unit {0}) V (JsonRpcTransport V R W)

module _ {V R W : Type 0} where
  abbrev pub new : JsonRpcTransport V R W → PluginServer V R W
  new transport = record { transport = transport; router = new_router }

  -- `reader` is a `BufReader` of stdin, `writer` is stdout.
  abbrev pub new_with_transport : R → W → PluginServer V R W
  new_with_transport reader writer = new (Transport.new reader writer)

  unfoldable pub with_method :
      PluginServer V R W
      → String
      → HandlerFn (Unit {0}) V (JsonRpcTransport V R W)
      → PluginServer V R W
  with_method server name func = record server {
    router = Server.with_method server.router name func;
  }

module _ {V R W : Type 0} ⦃wire : Wire V R W⦄ where
  pub run :
      PluginServer V R W
      → (JsonRpcTransport V R W → JsonRpcTransport V R W)
      → ℕ
      → Option (JsonRpcTransport V R W)
  run server yield_now fuel = Server.run server.router yield_now fuel server.transport
