-- ===== src/TestPlugin/Echo/Answered.antt =====
-- `many_echo` with a host that echoes.
use wasmi_plugin_framework.Base.{
  ℕ, zero, suc, ◌+◌, ◌^◌, ◌≤◌, ◌≡◌, refl, ◌∙◌, Bool, true, none, some,
}
use wasmi_plugin_framework.Bytes.{Bytes}
use wasmi_plugin_framework.Rpc.Message.{RpcResponse, rpc_response, ok}
use wasmi_plugin_framework.Rpc.Transport.{Wire, JsonRpcTransport, new, register, respond}
use wasmi_plugin_framework.Rpc.Transport.Answers.{IsExchanged, call_left}
use wasmi_plugin_framework.Rpc.Transport.Quiet.{IsQuiet}
use wasmi_plugin_framework.TestPlugin.Echo.{many_echo}
use wasmi_plugin_framework.TestPlugin.Echo.Ids.{results_only, many_echo-results_only}

module _ {V R W : Type 0} ⦃wire : Wire V R W⦄ (number : ℕ → V) (same : V → V → Bool)
    (yield_now : JsonRpcTransport V R W → JsonRpcTransport V R W) where
  -- From the round `i` on, the line that is read after each request is the response to it, with the
  -- number that was sent.
  unfoldable pub IsEchoed : ℕ → ℕ → JsonRpcTransport V R W → Type 0
  IsEchoed zero i t = Unit
  IsEchoed (suc rounds) i t =
      (line : Bytes) × (r : R) × (w : W) × (resp : RpcResponse V) × IsExchanged yield_now none
        "echo" (number i) t line r w
      × (wire.from_str (wire.trim line) ≡ some (rpc_response resp))
      × (resp.id ≡ t.id)
      × (same resp.result (number i) ≡ true)
      × IsEchoed rounds (i + 1) (respond resp (record (register t) { reader = r; writer = w }))

  results_only_lem :
      (fuel rounds i : ℕ) (t : JsonRpcTransport V R W)
      → IsEchoed rounds i t
      → (t' : JsonRpcTransport V R W) × (results_only number same yield_now
            (suc (suc fuel))
            rounds
            i
            t
          ≡ some (ok tt, t'))
  unfolding results_only IsEchoed
  results_only_lem fuel zero i t h = (t, refl)
  results_only_lem fuel (suc rounds) i t (line, r, w, resp, x, parsed, own, equal, others) =
      let (t2, e) = results_only_lem fuel rounds (i + 1) _ others in
      (
        t2,
        rw (call_left yield_now none "echo" (number i) t fuel line r w resp x parsed own, equal) e,
      )

  -- On a new transport that no other task calls on, with a host that answers each request in the
  -- next line by the number that it was sent, `many_echo` returns without an error.
  pub many_echo_succeeds :
      ((t : JsonRpcTransport V R W) → IsQuiet t (yield_now t))
      → (fuel limit : ℕ) (reader : R) (writer : W) → limit ≤ 2 ^ 64
      → IsEchoed limit 0 (new reader writer)
      → (t' : JsonRpcTransport V R W) × (many_echo number same yield_now
            (suc (suc fuel))
            limit
            (new reader writer)
          ≡ some (ok tt, t'))
  many_echo_succeeds quiet fuel limit reader writer fits h =
      let (t', e) = results_only_lem fuel limit 0 (new reader writer) h in
      (
        t',
        many_echo-results_only number same yield_now quiet reader writer (suc (suc fuel)) limit fits
            ∙ e,
      )
