-- ===== src/Rpc/Server/Tests.antt =====
-- A server with one method, over the wire of Rpc/Lines.
use wasmi_plugin_framework.Base.{ℕ, ◌+◌, ◌≡◌, refl, some, [], ◌∷◌}
use wasmi_plugin_framework.Rpc.Message.{ok}
use wasmi_plugin_framework.Rpc.Transport.{new}
use wasmi_plugin_framework.Rpc.Lines.{lines_wire, Lines}
use wasmi_plugin_framework.Rpc.Server.{
  Router, HandlerFn, new_router, handler_fn, with_method, handle_with_state, get, erase,
}

abbrev succeed : HandlerFn (Unit {0}) ℕ Lines
succeed = handler_fn (λ v. some v) (λ n. n) (λ state p t. (ok (p + 1), t))

-- `PluginServer::new(transport).with_method("echo", …)`
router : Router (Unit {0}) ℕ Lines
router = with_method new_router "echo" succeed

abbrev asked : Lines
asked = new ((0 ∷ 7 ∷ 5 ∷ []) ∷ []) []

abbrev read_asked : Lines
read_asked = new [] []

handle-router : handle_with_state router tt "echo" 5 read_asked ≡ (ok 6, read_asked)
unfolding router handle_with_state with_method get erase
handle-router = refl
