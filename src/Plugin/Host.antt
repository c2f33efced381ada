-- ===== src/Plugin/Host.antt =====
-- crates/wasmi-plugin-hdk/src/server.rs and host_handler.rs, with `PluginCallback` of plugin.rs: how a
-- plugin's request reaches a function of the host. `T` is what a handler can change while it runs.
pub mod Dispatch
mod Tests
use Prim.Native.String.{String}
use wasmi_plugin_framework.Base.{ℕ}
use wasmi_plugin_framework.Rpc.Message.{RpcResult}
use wasmi_plugin_framework.Rpc.Server
use wasmi_plugin_framework.Rpc.Server.{HandlerFn, Router, new_router, handle_with_state}

-- `HostHandler`: `handle` with the plugin's id first.
abbrev pub HostHandler : (V T : Type 0) → Type 0
HostHandler V T = ℕ → String → V → T → RpcResult V × T

pub record HostServer (S V T : Type 0) : Type 0 where
  pub state : S
  pub router : Router (ℕ × S) V T

module _ {S V T : Type 0} where
  abbrev pub new : S → HostServer S V T
  new state = record { state = state; router = new_router }

  pub with_method : HostServer S V T → String → HandlerFn (ℕ × S) V T → HostServer S V T
  with_method server name f = record server { router = Server.with_method server.router name f }

  pub handle : HostServer S V T → HostHandler V T
  handle server plugin method params t =
      handle_with_state server.router (plugin, server.state) method params t

-- `PluginCallback`: the handler that the plugin's transport is given.
pub record PluginCallback (V T : Type 0) : Type 0 where
  pub handler : HostHandler V T
  pub uuid : ℕ

module _ {V T : Type 0} where
  pub call_back : PluginCallback V T → String → V → T → RpcResult V × T
  call_back callback method params t = callback.handler callback.uuid method params t
