-- ===== src/TestPlugin/Main.antt =====
-- `main` and the handlers that ask the system for something: `ping`, `get_random_number`, `get_time`
-- and `sleep`. `many_echo` and `prime_sieve`, which need not come back, are given to it as handlers.
-- A value is `V`; logging is not modelled.
pub mod Routes
mod Tests
use Prim.Native.String.{String}
use wasmi_plugin_framework.Base.{ℕ, Option, none, some}
use wasmi_plugin_framework.Rpc.Message.{RpcResult, ok, err, internal_error}
use wasmi_plugin_framework.Rpc.Transport.{Wire, JsonRpcTransport}
use wasmi_plugin_framework.Rpc.Server.{HandlerFn, handler_fn}
use wasmi_plugin_framework.Rpc.PluginServer
use wasmi_plugin_framework.Rpc.PluginServer.{PluginServer, new_with_transport, with_method}

-- What the handlers use of serde_json.
pub record Values (V : Type 0) : Type 0 where
  pub text : String → V
  pub number : ℕ → V
  pub null : V
  pub as_unit : V → Option (Unit {0})
  pub as_u64 : V → Option ℕ

-- What they ask the system for: a random u64, the seconds since the epoch, `none` before it, and a
-- pause in milliseconds, in which other tasks run.
pub record System (T : Type 0) : Type 0 where
  pub random : ℕ
  pub seconds : Option ℕ
  pub sleep : ℕ → T → T

module _ {V T : Type 0} (values : Values V) (system : System T) where
  abbrev pub ping : Unit {0} → T → RpcResult V × T
  ping params t = (ok (values.text "pong"), t)

  abbrev pub get_random_number : Unit {0} → T → RpcResult V × T
  get_random_number params t = (ok (values.number system.random), t)

  abbrev pub told : Option ℕ → RpcResult V
  told none = err internal_error
  told (some seconds) = ok (values.number seconds)

  abbrev pub get_time : Unit {0} → T → RpcResult V × T
  get_time params t = (told system.seconds, t)

  abbrev pub sleep : ℕ → T → RpcResult (Unit {0}) × T
  sleep duration_ms t = (ok tt, system.sleep duration_ms t)

-- The handlers that call the host or compute for long.
pub record LongHandlers (V T : Type 0) : Type 0 where
  pub many_echo : ℕ → T → RpcResult (Unit {0}) × T
  pub prime_sieve : ℕ → T → RpcResult V × T

module _ {V R W : Type 0} (values : Values V) (system : System (JsonRpcTransport V R W))
    (long : LongHandlers V (JsonRpcTransport V R W)) where
  -- The boxed closures, by the types of the params and of the result.
  abbrev pub asks_value :
      {P : Type 0}
      → (V → Option P)
      → (P → JsonRpcTransport V R W → RpcResult V × JsonRpcTransport V R W)
      → HandlerFn (Unit {0}) V (JsonRpcTransport V R W)
  asks_value from_value func = handler_fn from_value (λ v. v) (λ state. func)

  abbrev pub asks_unit :
      (ℕ → JsonRpcTransport V R W → RpcResult (Unit {0}) × JsonRpcTransport V R W)
      → HandlerFn (Unit {0}) V (JsonRpcTransport V R W)
  asks_unit func = handler_fn (values.as_u64) (λ u. values.null) (λ state. func)

  -- The server that `main` runs.
  abbrev pub server : R → W → PluginServer V R W
  server reader writer =
      let s0 = new_with_transport reader writer in
      let s1 = with_method s0 "ping" (asks_value (values.as_unit) (ping values system)) in
      let s2 =
        with_method s1 "get_random_number"
          (asks_value (values.as_unit) (get_random_number values system)) in
      let s3 = with_method s2 "get_time" (asks_value (values.as_unit) (get_time values system)) in
      let s4 = with_method s3 "sleep" (asks_unit (sleep values system)) in
      let s5 = with_method s4 "many_echo" (asks_unit (long.many_echo)) in
      with_method s5 "prime_sieve" (asks_value (values.as_u64) (long.prime_sieve))

  pub main :
      ⦃wire : Wire V R W⦄
      → R
      → W
      → (JsonRpcTransport V R W → JsonRpcTransport V R W)
      → ℕ
      → Option (JsonRpcTransport V R W)
  main reader writer yield_now fuel = PluginServer.run (server reader writer) yield_now fuel
