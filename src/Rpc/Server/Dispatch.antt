-- ===== src/Rpc/Server/Dispatch.antt =====
-- Which function a request reaches, and what is written back.
use Prim.Native.String.{String}
use text.Mathlib.Text.{◌==◌}
use text.Mathlib.TextEquality.{eq_iff}
use wasmi_plugin_framework.Base.{
  ℕ, suc, ◌≡◌, refl, ap, false, some, List, [], ◌∷◌, if◌then◌else◌, Bool-cases, inl, inr, arith,
}
use wasmi_plugin_framework.Bytes.{Bytes}
use wasmi_plugin_framework.Io.{IoResult}
use wasmi_plugin_framework.Rpc.Message.{RpcRequest, rpc_request, RpcResult, err, method_not_found}
use wasmi_plugin_framework.Rpc.Transport.{Wire, JsonRpcTransport, reply}
use wasmi_plugin_framework.Rpc.Transport.Requests.{IsWritten, process_next_line_answers}
use wasmi_plugin_framework.Rpc.Server.{
  Router, HandlerFn, new_router, get, erase, with_method, handle_with_state, handle, run, left_by,
}

module _ {A : Type 0} where
  get-erase :
      (name method : String) (m : List (String × A))
      → (name == method) ≡ false
      → get method (erase name m) ≡ get method m
  unfolding get erase
  get-erase name method [] h = refl
  get-erase name method ((k, a) ∷ m) h = ground (arith, get-erase name method m h, eq_iff k name)

module _ {S V T : Type 0} where
  -- The function registered last under a method's name answers it, and no other method's answer
  -- changes; in a new router no method is found.
  pub handle_with_state-with_method :
      (router : Router S V T) (name method : String) (f : HandlerFn S V T) (state : S) (params : V)
      (t : T)
      → (handle_with_state (with_method router name f) state method params t ≡ (
          if name == method
          then f state params t
          else handle_with_state router state method params t))
        × (handle_with_state {S = S} new_router state method params t ≡ (err method_not_found, t))
  unfolding handle_with_state with_method get
  handle_with_state-with_method router name method f state params t = (
    elim (Bool-cases (name == method)) [
      | inl e ↦ rw (e) refl
      | inr e ↦ rw (e, get-erase name method router.handlers e) refl
    ],
    refl,
  )

module _ {V R W : Type 0} ⦃wire : Wire V R W⦄ where
  -- A server whose next line is a request runs the router's function for it. If the reply with the
  -- request's id and that function's result can be printed and written, the server then writes it.
  pub run_replies :
      (router : Router (Unit {0}) V (JsonRpcTransport V R W))
      (yield_now : JsonRpcTransport V R W → JsonRpcTransport V R W) (fuel n : ℕ)
      (t t1 : JsonRpcTransport V R W) (line bytes : Bytes) (r : R) (w : W) (req : RpcRequest V)
      (result : RpcResult V)
      → wire.read_line t.reader ≡ (IoResult.ok (suc n), line, r)
      → wire.from_str (wire.trim line) ≡ some (rpc_request req)
      → handle_with_state router tt req.method req.params (record t { reader = r }) ≡ (result, t1)
      → wire.to_string (reply req.id result) ≡ some bytes
      → IsWritten wire t1.writer bytes w
      → run router yield_now (suc fuel) t ≡ some (record t1 { writer = w })
  unfolding run handle
  run_replies router yield_now fuel n t t1 line bytes r w req result e1 e2 e3 e4 x = ap left_by (
      process_next_line_answers yield_now fuel n (handle router) t t1 line bytes r w req result e1
        e2 e3 e4 x)
