-- ===== src/TestPlugin/Echo.antt =====
-- `many_echo`: calls the host's `echo` once for each number below the limit, and checks the answers.
-- The transport is the plugin's own, which has no handler. `number` is `Value::Number`, and `same` the
-- equality of JSON values.
pub mod Ids
pub mod Answered
mod Tests
use wasmi_plugin_framework.Base.{
  ℕ, zero, suc, ◌+◌, Bool, true, false, Option, none, some, ◌==◌, if◌then◌else◌,
}
use wasmi_plugin_framework.Rpc.Message.{RpcResponse, RpcResult, ok, err, internal_error}
use wasmi_plugin_framework.Rpc.Transport.{Wire, JsonRpcTransport, call}

module _ {V R W : Type 0} (number : ℕ → V) (same : V → V → Bool) where
  -- The two tests on the answer to the call of round `i`; `again` is the next round.
  abbrev pub checked :
      (JsonRpcTransport V R W → Option (RpcResult (Unit {0}) × JsonRpcTransport V R W))
      → ℕ
      → RpcResponse V
      → JsonRpcTransport V R W
      → Option (RpcResult (Unit {0}) × JsonRpcTransport V R W)
  checked again i resp t =
      if resp.id == i
      then (if same resp.result (number i) then again t else some (err internal_error, t))
      else some (err internal_error, t)

  abbrev pub after_call :
      (JsonRpcTransport V R W → Option (RpcResult (Unit {0}) × JsonRpcTransport V R W))
      → ℕ
      → Option (RpcResult (RpcResponse V) × JsonRpcTransport V R W)
      → Option (RpcResult (Unit {0}) × JsonRpcTransport V R W)
  after_call again i none = none
  after_call again i (some (err e, t)) = some (err e, t)
  after_call again i (some (ok resp, t)) = checked again i resp t

module _ {V R W : Type 0} ⦃wire : Wire V R W⦄ where
  -- The rounds that are left, and the round's number; the fuel is that of each call.
  pub echo_loop :
      (ℕ → V)
      → (V → V → Bool)
      → (JsonRpcTransport V R W → JsonRpcTransport V R W)
      → ℕ
      → ℕ
      → ℕ
      → JsonRpcTransport V R W
      → Option (RpcResult (Unit {0}) × JsonRpcTransport V R W)
  echo_loop number same yield_now fuel zero i t = some (ok tt, t)
  echo_loop number same yield_now fuel (suc rounds) i t =
      after_call number same (echo_loop number same yield_now fuel rounds (i + 1)) i
        (call yield_now fuel none "echo" (number i) t)

  pub many_echo :
      (ℕ → V)
      → (V → V → Bool)
      → (JsonRpcTransport V R W → JsonRpcTransport V R W)
      → ℕ
      → ℕ
      → JsonRpcTransport V R W
      → Option (RpcResult (Unit {0}) × JsonRpcTransport V R W)
  unfolding echo_loop
  many_echo number same yield_now fuel limit t = echo_loop number same yield_now fuel limit 0 t
