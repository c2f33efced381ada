-- ===== src/Plugin/Host/Tests.antt =====
-- A host with one method that answers with the plugin's id.
use text.Mathlib.Text.{◌==◌}
use wasmi_plugin_framework.Base.{ℕ, ◌≡◌, if◌then◌else◌}
use wasmi_plugin_framework.Rpc.Message.{ok, err, method_not_found}
use wasmi_plugin_framework.Rpc.Server.{HandlerFn}
use wasmi_plugin_framework.Plugin.Host.{HostServer, new, with_method, handle, call_back}
use wasmi_plugin_framework.Plugin.Host.Dispatch.{call_back-with_method}

abbrev whoami : HandlerFn (ℕ × ℕ) ℕ ℕ
whoami state params t = (ok (state.0), t)

abbrev server : HostServer ℕ ℕ ℕ
server = new 3

call_back-with_method_example :
    (call_back
        (record { handler = handle (with_method server "whoami" whoami); uuid = 42 })
        "whoami"
        0
        1
      ≡ (if "whoami" == "whoami"
          then whoami (42, 3) 0 1
          else call_back (record { handler = handle server; uuid = 42 }) "whoami" 0 1))
    × (call_back
          (record { handler = handle (new {S = ℕ} {V = ℕ} {T = ℕ} 3); uuid = 42 })
          "whoami"
          0
          1
        ≡ (err method_not_found, 1))
call_back-with_method_example = call_back-with_method server "whoami" "whoami" whoami 42 0 1
