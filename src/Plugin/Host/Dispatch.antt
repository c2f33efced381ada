-- ===== src/Plugin/Host/Dispatch.antt =====
-- A request of a plugin, from its callback to the function that answers it.
use Prim.Native.String.{String}
use text.Mathlib.Text.{◌==◌}
use wasmi_plugin_framework.Base.{ℕ, ◌≡◌, if◌then◌else◌}
use wasmi_plugin_framework.Rpc.Message.{err, method_not_found}
use wasmi_plugin_framework.Rpc.Server.{HandlerFn}
use wasmi_plugin_framework.Rpc.Server.Dispatch.{handle_with_state-with_method}
use wasmi_plugin_framework.Plugin.Host.{HostServer, new, with_method, handle, call_back}

module _ {S V T : Type 0} where
  -- Once a function is registered under a name, a plugin's request for that name runs the function
  -- with the id of that plugin and the server's state. Every other request is answered as before,
  -- and a new server answers every request with `MethodNotFound`.
  pub call_back-with_method :
      (server : HostServer S V T) (name method : String) (f : HandlerFn (ℕ × S) V T) (uuid : ℕ)
      (params : V) (t : T)
      → (call_back
            (record { handler = handle (with_method server name f); uuid = uuid })
            method
            params
            t
          ≡ (if name == method
              then f (uuid, server.state) params t
              else call_back (record { handler = handle server; uuid = uuid }) method params t))
        × (call_back
              (record { handler = handle (new {V = V} {T = T} server.state); uuid = uuid })
              method
              params
              t
            ≡ (err method_not_found, t))
  unfolding call_back handle with_method
  call_back-with_method server name method f uuid params t =
      handle_with_state-with_method server.router name method f (uuid, server.state) params t
