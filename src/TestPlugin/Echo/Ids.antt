-- ===== src/TestPlugin/Echo/Ids.antt =====
-- The answers that `many_echo` looks at have the ids that it expects.
use wasmi_plugin_framework.Base.{
  ℕ, zero, suc, ◌+◌, ◌%◌, ◌^◌, ◌≤◌, ◌≡◌, refl, Bool, true, Option, none, some, ◌==◌, if◌then◌else◌,
  arith,
}
use wasmi_plugin_framework.Rpc.Message.{RpcResponse, RpcResult, ok, err, internal_error}
use wasmi_plugin_framework.Rpc.Transport.{Wire, JsonRpcTransport, new, register, call}
use wasmi_plugin_framework.Rpc.Transport.Steps.{Reach, here, step, registers}
use wasmi_plugin_framework.Rpc.Transport.Own.{Reach-trans, call_returns_own}
use wasmi_plugin_framework.Rpc.Transport.Quiet.{IsQuiet, EndsQuiet, call-EndsQuiet, register-id}
use wasmi_plugin_framework.TestPlugin.Echo.{after_call, echo_loop, many_echo}

module _ {V R W : Type 0} (number : ℕ → V) (same : V → V → Bool) where
  -- The reference, which looks at the results of the answers only.
  abbrev pub after_answer :
      (JsonRpcTransport V R W → Option (RpcResult (Unit {0}) × JsonRpcTransport V R W))
      → ℕ
      → Option (RpcResult (RpcResponse V) × JsonRpcTransport V R W)
      → Option (RpcResult (Unit {0}) × JsonRpcTransport V R W)
  after_answer again i none = none
  after_answer again i (some (err e, t)) = some (err e, t)
  after_answer again i (some (ok resp, t)) =
      if same resp.result (number i) then again t else some (err internal_error, t)

module _ {V R W : Type 0} ⦃wire : Wire V R W⦄ (number : ℕ → V) (same : V → V → Bool)
    (yield_now : JsonRpcTransport V R W → JsonRpcTransport V R W) where
  unfoldable pub results_only :
      ℕ → ℕ → ℕ → JsonRpcTransport V R W → Option (RpcResult (Unit {0}) × JsonRpcTransport V R W)
  results_only fuel zero i t = some (ok tt, t)
  results_only fuel (suc rounds) i t =
      after_answer number same (results_only fuel rounds (i + 1)) i
        (call yield_now fuel none "echo" (number i) t)

  module _ (quiet : (t : JsonRpcTransport V R W) → IsQuiet t (yield_now t)) (reader : R)
      (writer : W) where
    echo_loop-results_only :
        (fuel rounds i : ℕ) (t : JsonRpcTransport V R W)
        → Reach (new reader writer) t
        → t.id ≡ i % 2 ^ 64
        → i + rounds ≤ 2 ^ 64
        → echo_loop number same yield_now fuel rounds i t ≡ results_only fuel rounds i t
    unfolding echo_loop results_only
    echo_loop-results_only fuel zero i t begun e room = refl
    echo_loop-results_only fuel (suc rounds) i t begun e room =
        compared (call yield_now fuel none "echo" (number i) t)
          (λ t' resp c.
            call_returns_own yield_now (λ x. (quiet x).reached) none fuel "echo" (number i) reader
              writer t t' resp tt begun c)
          (call-EndsQuiet yield_now quiet fuel "echo" (number i) t)
          (λ t1 begun' e'.
            echo_loop-results_only fuel rounds (i + 1) t1 begun' e' (omega (arith, room)))
          refl
      where
        compared :
            (o : Option (RpcResult (RpcResponse V) × JsonRpcTransport V R W))
            → ((t' : JsonRpcTransport V R W) (resp : RpcResponse V)
                → call yield_now fuel none "echo" (number i) t ≡ some (ok resp, t')
                → resp.id ≡ t.id)
            → EndsQuiet (register t) o
            → ((t1 : JsonRpcTransport V R W)
                → Reach (new reader writer) t1
                → t1.id ≡ (i + 1) % 2 ^ 64
                → echo_loop number same yield_now fuel rounds (i + 1) t1
                  ≡ results_only fuel rounds (i + 1) t1)
            → call yield_now fuel none "echo" (number i) t ≡ o
            → after_call number same (echo_loop number same yield_now fuel rounds (i + 1)) i o
              ≡ after_answer number same (results_only fuel rounds (i + 1)) i o
        compared none own q ih c = refl
        compared (some (err x, t1)) own q ih c = refl
        compared (some (ok resp, t1)) own q ih c =
            let next =
              ih t1 (Reach-trans (step begun registers) q.reached)
                (omega (arith, q.same_id, register-id t, e)) in
            let expected : (resp.id == i) ≡ true = ground (arith, own t1 resp c, e, room) in
            rw (expected, next) refl

    -- On a new transport that no other task calls on, and for a limit that a 64-bit integer holds,
    -- `many_echo` does what the loop does that compares the results alone: no answer that reaches
    -- it has another id than that of its round, so the test of the id never fails.
    pub many_echo-results_only :
        (fuel limit : ℕ)
        → limit ≤ 2 ^ 64
        → many_echo number same yield_now fuel limit (new reader writer)
          ≡ results_only fuel limit 0 (new reader writer)
    unfolding many_echo
    many_echo-results_only fuel limit fits =
        echo_loop-results_only fuel limit 0 (new reader writer) here (omega arith) (omega arith)
