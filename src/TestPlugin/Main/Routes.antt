-- ===== src/TestPlugin/Main/Routes.antt =====
-- What the test plugin answers.
use Prim.Native.String.{String}
use text.Mathlib.Text.{◌==◌}
use wasmi_plugin_framework.Base.{ℕ, suc, ◌≡◌, refl, ap, ◌∙◌, Option, none, some, if◌then◌else◌}
use wasmi_plugin_framework.Bytes.{Bytes}
use wasmi_plugin_framework.Rpc.Message.{
  RpcRequest, RpcResult, ok, err, invalid_params, method_not_found, internal_error,
}
use wasmi_plugin_framework.Rpc.Transport
use wasmi_plugin_framework.Rpc.Transport.{Wire, JsonRpcTransport}
use wasmi_plugin_framework.Rpc.Server.{printed, parsed_call, handle_with_state}
use wasmi_plugin_framework.Rpc.PluginServer.{with_method}
use wasmi_plugin_framework.Rpc.PluginServer.Serves.{IsAsked, on_top, none_answers, run_answers}
use wasmi_plugin_framework.TestPlugin.Main.{
  Values, System, told, LongHandlers, ping, get_random_number, get_time, sleep, server, main,
}

module _ {V T : Type 0} where
  -- Params that are not of the handler's type.
  abbrev pub on_params : {P : Type 0} → Option P → (P → T → RpcResult V × T) → T → RpcResult V × T
  on_params none f t = (err invalid_params, t)
  on_params (some p) f t = f p t

  abbrev pub done_with : V → RpcResult (Unit {0}) × T → RpcResult V × T
  done_with null (ok u, t) = (ok null, t)
  done_with null (err e, t) = (err e, t)

  printed_whole : (x : RpcResult V × T) → printed (λ v. v) x ≡ x
  printed_whole (ok v, t) = refl
  printed_whole (err e, t) = refl

  printed_done :
      (null : V) (x : RpcResult (Unit {0}) × T) → printed (λ u. null) x ≡ done_with null x
  printed_done null (ok u, t) = refl
  printed_done null (err e, t) = refl

  value_call :
      {P : Type 0} (o : Option P) (f : P → T → RpcResult V × T) (t : T)
      → parsed_call (λ v. v) (λ (state : Unit {0}). f) tt o t ≡ on_params o f t
  value_call none f t = refl
  value_call (some p) f t = printed_whole (f p t)

  unit_call :
      {P : Type 0} (null : V) (o : Option P) (f : P → T → RpcResult (Unit {0}) × T) (t : T)
      → parsed_call (λ u. null) (λ (state : Unit {0}). f) tt o t
        ≡ on_params o (λ p t. done_with null (f p t)) t
  unit_call null none f t = refl
  unit_call null (some p) f t = printed_done null (f p t)

module _ {V R W : Type 0} (values : Values V) (system : System (JsonRpcTransport V R W))
    (long : LongHandlers V (JsonRpcTransport V R W)) where
  -- A clock before the epoch is an error.
  abbrev pub time_of : Option ℕ → RpcResult V
  time_of none = err internal_error
  time_of (some seconds) = ok (values.number seconds)

  told_lem : (o : Option ℕ) → told values system o ≡ time_of o
  told_lem none = refl
  told_lem (some seconds) = refl

  -- The answer by the method's name.
  abbrev pub answer_to : String → V → JsonRpcTransport V R W → RpcResult V × JsonRpcTransport V R W
  answer_to method params t =
      if "prime_sieve" == method
      then on_params (values.as_u64 params) long.prime_sieve t
      else if "many_echo" == method
      then on_params (values.as_u64 params) (λ p t. done_with values.null (long.many_echo p t)) t
      else if "sleep" == method
      then on_params (values.as_u64 params) (λ p t. (ok values.null, system.sleep p t)) t
      else if "get_time" == method
      then on_params (values.as_unit params) (λ p t. (time_of system.seconds, t)) t
      else if "get_random_number" == method
      then on_params (values.as_unit params) (λ p t. (ok (values.number system.random), t)) t
      else if "ping" == method
      then on_params (values.as_unit params) (λ p t. (ok (values.text "pong"), t)) t
      else (err method_not_found, t)

module _ {V R W : Type 0} (values : Values V) (system : System (JsonRpcTransport V R W))
    (long : LongHandlers V (JsonRpcTransport V R W)) where
  server_answers :
      (reader : R) (writer : W) (method : String) (params : V) (t : JsonRpcTransport V R W)
      → handle_with_state ((server values system long reader writer).router) tt method params t
        ≡ answer_to values system long method params t
  server_answers reader writer method params t =
      let U = values.as_unit params in
      let N = values.as_u64 params in
      on_top _ "prime_sieve" method _ params t _ _ (value_call N long.prime_sieve t) (
        on_top _ "many_echo" method _ params t _ _ (unit_call values.null N long.many_echo t) (
          on_top _ "sleep" method _ params t _ _ (unit_call values.null N (sleep values system) t) (
            on_top _ "get_time" method _ params t _ _
              (value_call U (get_time values system) t
                ∙ ap (λ x. on_params U (λ p t. (x, t)) t)
                    (told_lem values system long system.seconds))
              (on_top _ "get_random_number" method _ params t _ _
                (value_call U (get_random_number values system) t)
                (on_top _ "ping" method _ params t _ _ (value_call U (ping values system) t)
                  (none_answers (Transport.new reader writer) method params t))))))

  -- The test plugin, on a request that it reads from stdin, where the reply can be printed and
  -- written: it runs the handler of the request's method and writes its result as the reply with the
  -- request's id. The params are `null` for `ping`, `get_random_number` and `get_time` and a number
  -- for the others; a request with other params is answered `InvalidParams`, and one for any other
  -- method `MethodNotFound`.
  pub main_answers :
      ⦃wire : Wire V R W⦄ (reader : R) (writer : W)
      (yield_now : JsonRpcTransport V R W → JsonRpcTransport V R W) (fuel : ℕ)
      (t1 : JsonRpcTransport V R W) (line bytes : Bytes) (r : R) (w : W) (req : RpcRequest V)
      (result : RpcResult V)
      → IsAsked (Transport.new reader writer) line bytes r w req result t1
      → answer_to values system long req.method req.params
          (record (Transport.new {V = V} reader writer) { reader = r })
        ≡ (result, t1)
      → main values system long reader writer yield_now (suc fuel) ≡ some (record t1 { writer = w })
  unfolding main with_method
  main_answers reader writer yield_now fuel t1 line bytes r w req result a e =
      run_answers (server values system long reader writer) yield_now fuel t1 line bytes r w req
        result a (server_answers reader writer req.method req.params _ ∙ e)
