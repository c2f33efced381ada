-- ===== src/Rpc/Server.antt =====
-- crates/wasmi-plugin-pdk/src/server.rs: `Router`, which hands a request to the function registered
-- under its method, and `PluginServer`, which serves one line of a transport with it.
pub mod Dispatch
mod Tests
use Prim.Native.String.{String}
use text.Mathlib.Text.{◌==◌}
use wasmi_plugin_framework.Base.{ℕ, Option, none, some, List, [], ◌∷◌, if◌then◌else◌}
use wasmi_plugin_framework.Rpc.Message.{RpcResult, ok, err, invalid_params, method_not_found}
use wasmi_plugin_framework.Rpc.Transport.{Wire, JsonRpcTransport, RequestHandler, process_next_line}

-- A handler on the state `S`; `T` is what its future can change while it runs.
abbrev pub HandlerFn : (S V T : Type 0) → Type 0
HandlerFn S V T = S → V → T → RpcResult V × T

-- The HashMap as an association list.
pub record Router (S V T : Type 0) : Type 0 where
  pub handlers : List (String × HandlerFn S V T)

module _ {A : Type 0} where
  pub get : String → List (String × A) → Option A
  get name [] = none
  get name ((k, a) ∷ m) = if k == name then some a else get name m

  pub erase : String → List (String × A) → List (String × A)
  erase name [] = []
  erase name ((k, a) ∷ m) = let rest = erase name m in if k == name then rest else (k, a) ∷ rest

module _ {V T : Type 0} where
  abbrev pub printed : {R : Type 0} → (R → V) → RpcResult R × T → RpcResult V × T
  printed to_value (ok result, t) = (ok (to_value result), t)
  printed to_value (err e, t) = (err e, t)

module _ {S V T : Type 0} where
  abbrev pub new_router : Router S V T
  new_router = record { handlers = [] }

  abbrev pub parsed_call :
      {P R : Type 0} → (R → V) → (S → P → T → RpcResult R × T) → S → Option P → T → RpcResult V × T
  parsed_call to_value func state none t = (err invalid_params, t)
  parsed_call to_value func state (some p) t = printed to_value (func state p t)

  -- The boxed closure: `from_value` parses the params, `func` runs, and `to_value` prints its
  -- result. Results are of types that serde prints, so the `unwrap` is not modelled.
  abbrev pub handler_fn :
      {P R : Type 0} → (V → Option P) → (R → V) → (S → P → T → RpcResult R × T) → HandlerFn S V T
  handler_fn from_value to_value func state params t =
      parsed_call to_value func state (from_value params) t

  pub with_method : Router S V T → String → HandlerFn S V T → Router S V T
  unfolding erase
  with_method router name f = record { handlers = (name, f) ∷ erase name router.handlers }

  abbrev dispatched : Option (HandlerFn S V T) → HandlerFn S V T
  dispatched none state params t = (err method_not_found, t)
  dispatched (some handler) state params t = handler state params t

  pub handle_with_state : Router S V T → S → String → V → T → RpcResult V × T
  unfolding get
  handle_with_state router state method params t =
      dispatched (get method router.handlers) state params t

module _ {V R W : Type 0} where
  -- The state that handlers are given is the transport itself, which is what they act on.
  pub handle : Router (Unit {0}) V (JsonRpcTransport V R W) → RequestHandler V R W
  unfolding handle_with_state
  handle router method params t = handle_with_state router tt method params t

  -- The result of the line is dropped.
  abbrev pub left_by :
      Option (RpcResult (Unit {0}) × JsonRpcTransport V R W) → Option (JsonRpcTransport V R W)
  left_by none = none
  left_by (some (result, t)) = some t

module _ {V R W : Type 0} ⦃wire : Wire V R W⦄ where
  pub run :
      Router (Unit {0}) V (JsonRpcTransport V R W)
      → (JsonRpcTransport V R W → JsonRpcTransport V R W)
      → ℕ
      → JsonRpcTransport V R W
      → Option (JsonRpcTransport V R W)
  unfolding handle
  run router yield_now fuel t = left_by (process_next_line yield_now fuel (some (handle router)) t)
