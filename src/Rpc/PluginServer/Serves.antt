-- ===== src/Rpc/PluginServer/Serves.antt =====
-- What a plugin that was asked for a method leaves behind.
use Prim.Native.String.{String}
use text.Mathlib.Text.{◌==◌}
use wasmi_plugin_framework.Base.{ℕ, suc, ◌≡◌, refl, ◌∙◌, some, if◌then◌else◌}
use wasmi_plugin_framework.Bytes.{Bytes}
use wasmi_plugin_framework.Io.{IoResult}
use wasmi_plugin_framework.Rpc.Message.{RpcRequest, rpc_request, RpcResult, err, method_not_found}
use wasmi_plugin_framework.Rpc.Transport.{Wire, JsonRpcTransport, reply}
use wasmi_plugin_framework.Rpc.Transport.Requests.{IsWritten}
use wasmi_plugin_framework.Rpc.Server.{HandlerFn, new_router, handle_with_state}
use wasmi_plugin_framework.Rpc.Server.Dispatch.{handle_with_state-with_method, run_replies}
use wasmi_plugin_framework.Rpc.PluginServer.{PluginServer, new, with_method, run}

module _ {V R W : Type 0} where
  -- A method on top of a server, where both their answers are known.
  pub on_top :
      (server : PluginServer V R W) (name method : String)
      (f : HandlerFn (Unit {0}) V (JsonRpcTransport V R W)) (params : V)
      (t : JsonRpcTransport V R W) (x y : RpcResult V × JsonRpcTransport V R W)
      → f tt params t ≡ x
      → handle_with_state server.router tt method params t ≡ y
      → handle_with_state (with_method server name f).router tt method params t
        ≡ (if name == method then x else y)
  unfolding with_method
  on_top server name method f params t x y e e' =
      (handle_with_state-with_method server.router name method f tt params t).0 ∙ rw (e, e') refl

  pub none_answers :
      (transport : JsonRpcTransport V R W) (method : String) (params : V)
      (t : JsonRpcTransport V R W)
      → handle_with_state (new transport).router tt method params t ≡ (err method_not_found, t)
  none_answers transport method params t =
      (handle_with_state-with_method new_router "" method (λ s p t. (err method_not_found, t)) tt
        params t).1

module _ {V R W : Type 0} ⦃wire : Wire V R W⦄ where
  -- A request that the server reads, with what its reply needs to be written.
  pub record IsAsked (t : JsonRpcTransport V R W) (line bytes : Bytes) (r : R) (w : W)
      (req : RpcRequest V) (result : RpcResult V) (t1 : JsonRpcTransport V R W) : Type 0 where
    pub n : ℕ
    pub line_read : wire.read_line t.reader ≡ (IoResult.ok (suc n), line, r)
    pub parsed : wire.from_str (wire.trim line) ≡ some (rpc_request req)
    pub printed : wire.to_string (reply req.id result) ≡ some bytes
    pub written : IsWritten wire t1.writer bytes w

  pub run_answers :
      (server : PluginServer V R W) (yield_now : JsonRpcTransport V R W → JsonRpcTransport V R W)
      (fuel : ℕ) (t1 : JsonRpcTransport V R W) (line bytes : Bytes) (r : R) (w : W)
      (req : RpcRequest V) (result : RpcResult V)
      → IsAsked server.transport line bytes r w req result t1
      → handle_with_state server.router tt req.method req.params
          (record (server.transport) { reader = r })
        ≡ (result, t1)
      → run server yield_now (suc fuel) ≡ some (record t1 { writer = w })
  unfolding run
  run_answers server yield_now fuel t1 line bytes r w req result a e =
      run_replies server.router yield_now fuel a.n server.transport t1 line bytes r w req result
        a.line_read a.parsed e a.printed a.written

  -- A plugin with one method reads a request, runs that method's function if the request names it, and
  -- writes its result as the reply with the request's id; to any other request it writes the reply
  -- `MethodNotFound`, and its transport is otherwise as it was.
  pub run-with_method :
      (transport : JsonRpcTransport V R W) (name : String)
      (f : HandlerFn (Unit {0}) V (JsonRpcTransport V R W))
      (yield_now : JsonRpcTransport V R W → JsonRpcTransport V R W) (fuel : ℕ)
      (t1 : JsonRpcTransport V R W) (line bytes : Bytes) (r : R) (w : W) (req : RpcRequest V)
      (result : RpcResult V)
      → IsAsked transport line bytes r w req result t1
      → (if name == req.method
          then f tt req.params (record transport { reader = r })
          else (err method_not_found, record transport { reader = r }))
        ≡ (result, t1)
      → run (with_method (new transport) name f) yield_now (suc fuel)
        ≡ some (record t1 { writer = w })
  unfolding with_method
  run-with_method transport name f yield_now fuel t1 line bytes r w req result a e =
      let t = record transport { reader = r } in
      run_answers (with_method (new transport) name f) yield_now fuel t1 line bytes r w req result a
        (on_top (new transport) name req.method f req.params t _ _ refl
            (none_answers transport req.method req.params t)
          ∙ e)
