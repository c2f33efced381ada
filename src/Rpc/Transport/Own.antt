-- ===== src/Rpc/Transport/Own.antt =====
-- A call is answered with its own response.
use Prim.Native.String.{String}
use wasmi_plugin_framework.Base.{
  ℕ, zero, suc, ◌≡◌, refl, subst, Option, none, some, [], ◌∷◌, ◌++◌, length, ap, inl, inr,
  Bool-cases,
}
use wasmi_plugin_framework.Bytes.{Bytes}
use wasmi_plugin_framework.Io.{would_block, other, IoResult}
use wasmi_plugin_framework.Rpc.Message.{
  RpcMessage, RpcResponse, rpc_request, rpc_response, rpc_error_response, RpcResult, ok, err,
}
use wasmi_plugin_framework.Rpc.Pending.{Slot, empty, sent, closed, slot, lookup-nil}
use wasmi_plugin_framework.Rpc.Transport.{
  Wire, JsonRpcTransport, new, RequestHandler, register, write_line, write_message, write_request,
  process_message, after_read_line, next_line, process_parsed, process_line, process_next_line,
  after_line, after_try_recv, call_loop, after_request, call,
}
use wasmi_plugin_framework.Rpc.Transport.Steps.{
  responds, reads, writes, Reach, here, step, Owns, register-Owns, Reach-Owns, Reach-IsBounded,
}

module _ {V R W : Type 0} where
  pub Reach-trans : {t t' t'' : JsonRpcTransport V R W} → Reach t t' → Reach t' t'' → Reach t t''
  Reach-trans s here = s
  Reach-trans s (step k l) = step (Reach-trans s k) l

  -- The handler, if there is one, changes the transport by its steps.
  abbrev pub Acts : Option (RequestHandler V R W) → Type 0
  Acts none = Unit
  Acts (some handler) =
      (method : String) (params : V) (t : JsonRpcTransport V R W)
      → Reach t (handler method params t).1

module _ {V R W : Type 0} ⦃wire : Wire V R W⦄ where
  write_line-Reach : (o : Option Bytes) (t : JsonRpcTransport V R W) → Reach t (write_line o t).1
  write_line-Reach none t = here
  write_line-Reach (some bs) t =
      let (written, w) = wire.write_all t.writer (bs ++ (b'\n' ∷ [])) in
      let w' = (wire.flush w).1 in
      elim (Bool-cases written) [
        | inl e ↦ elim (Bool-cases (wire.flush w).0) [
          | inl f ↦ rw (e, f) (step here (writes w'))
          | inr f ↦ rw (e, f) (step here (writes w'))
        ]
        | inr e ↦ rw (e) (step here (writes w))
      ]

  pub write_message-Reach :
      (msg : RpcMessage V) (t : JsonRpcTransport V R W) → Reach t (write_message msg t).1
  unfolding write_message
  write_message-Reach msg t = write_line-Reach (wire.to_string msg) t

  process_message-Reach :
      (msg : RpcMessage V) (handler : Option (RequestHandler V R W)) (t : JsonRpcTransport V R W)
      → Acts handler
      → Reach t (process_message msg handler t).1
  unfolding process_message
  process_message-Reach (rpc_response resp) handler t acts = step here (responds resp)
  process_message-Reach (rpc_error_response e) handler t acts = here
  process_message-Reach (rpc_request req) none t acts = here
  process_message-Reach (rpc_request req) (some handler) t acts =
      Reach-trans (acts req.method req.params t) (write_message-Reach _ _)

  process_parsed-Reach :
      (handler : Option (RequestHandler V R W)) (o : Option (RpcMessage V))
      (t : JsonRpcTransport V R W)
      → Acts handler
      → Reach t (process_parsed handler o t).1
  process_parsed-Reach handler none t acts = here
  process_parsed-Reach handler (some msg) t acts = process_message-Reach msg handler t acts

  module _ (yield_now : JsonRpcTransport V R W → JsonRpcTransport V R W)
      (waits : (t : JsonRpcTransport V R W) → Reach t (yield_now t)) where
    next_line-Reach :
        (fuel : ℕ) (line : Bytes) (t t' : JsonRpcTransport V R W) (r : RpcResult Bytes)
        → next_line yield_now fuel line t ≡ some (r, t')
        → Reach t t'
    unfolding next_line
    next_line-Reach zero line t t' r h = cc h
    next_line-Reach (suc fuel) line t t' r h =
        let (result, appended, reader) = wire.read_line t.reader in
        Reach-trans (step here (reads reader)) (
          after (λ line1 t1 k. next_line-Reach fuel line1 (yield_now t1) t' r k) result
            (line ++ appended) (record t { reader = reader }) h)
      where
        after :
            ((line1 : Bytes) (t1 : JsonRpcTransport V R W)
              → next_line yield_now fuel line1 (yield_now t1) ≡ some (r, t')
              → Reach (yield_now t1) t')
            → (result : IoResult ℕ) (line1 : Bytes) (t1 : JsonRpcTransport V R W)
            → after_read_line
                (λ line' t'. next_line yield_now fuel line' (yield_now t'))
                result
                line1
                t1
              ≡ some (r, t')
            → Reach t1 t'
        after again (IoResult.ok zero) line1 t1 k = subst (λ x. Reach t1 x) (cc k) here
        after again (IoResult.ok (suc n)) line1 t1 k = subst (λ x. Reach t1 x) (cc k) here
        after again (IoResult.err would_block) line1 t1 k =
            Reach-trans (waits t1) (again line1 t1 k)
        after again (IoResult.err other) line1 t1 k = subst (λ x. Reach t1 x) (cc k) here

    process_next_line-Reach :
        (handler : Option (RequestHandler V R W)) (fuel : ℕ) (t t' : JsonRpcTransport V R W)
        (r : RpcResult (Unit {0}))
        → Acts handler
        → process_next_line yield_now fuel handler t ≡ some (r, t')
        → Reach t t'
    unfolding process_next_line
    process_next_line-Reach handler fuel t t' r acts h =
        after (next_line yield_now fuel [] t) refl h
      where
        after :
            (o : Option (RpcResult Bytes × JsonRpcTransport V R W))
            → next_line yield_now fuel [] t ≡ o
            → process_line handler o ≡ some (r, t')
            → Reach t t'
        after none e k = cc k
        after (some (err x, t1)) e k =
            subst (λ y. Reach t y) (cc k) (next_line-Reach fuel [] t t1 (err x) e)
        after (some (ok line, t1)) e k = Reach-trans (next_line-Reach fuel [] t t1 (ok line) e) (
            subst (λ y. Reach t1 y) (parsed k)
              (process_parsed-Reach handler (wire.from_str (wire.trim line)) t1 acts))
          where
            parsed :
                some (process_parsed handler (wire.from_str (wire.trim line)) t1) ≡ some (r, t')
                → (process_parsed handler (wire.from_str (wire.trim line)) t1).1 ≡ t'
            parsed k' =
                let q : process_parsed handler (wire.from_str (wire.trim line)) t1 ≡ (r, t') =
                  cc k' in
                ap (λ p. p.1) q

    call_loop-own :
        (handler : Option (RequestHandler V R W)) (fuel i ch : ℕ) (t t' : JsonRpcTransport V R W)
        (resp : RpcResponse V)
        → Acts handler
        → Owns i ch t
        → call_loop yield_now fuel handler ch t ≡ some (ok resp, t')
        → resp.id ≡ i
    unfolding call_loop
    call_loop-own handler zero i ch t t' resp acts o h = cc h
    call_loop-own handler (suc fuel) i ch t t' resp acts o h =
        received (λ t1 k. call_loop-own handler fuel i ch t1 t' resp acts k) (slot t.channels ch)
          refl h
      where
        next_round :
            ((t1 : JsonRpcTransport V R W)
              → Owns i ch t1
              → call_loop yield_now fuel handler ch t1 ≡ some (ok resp, t')
              → resp.id ≡ i)
            → (line : Option (RpcResult (Unit {0}) × JsonRpcTransport V R W))
            → process_next_line yield_now (suc fuel) handler t ≡ line
            → after_line (λ t1. call_loop yield_now fuel handler ch t1) line ≡ some (ok resp, t')
            → resp.id ≡ i
        next_round again none e k = cc k
        next_round again (some (err x, t1)) e k = cc k
        next_round again (some (ok u, t1)) e k =
            again t1
              (Reach-Owns (process_next_line-Reach handler (suc fuel) t t1 (ok u) acts e) i ch o) k

        received :
            ((t1 : JsonRpcTransport V R W)
              → Owns i ch t1
              → call_loop yield_now fuel handler ch t1 ≡ some (ok resp, t')
              → resp.id ≡ i)
            → (s : Slot V) → slot t.channels ch ≡ s
            → after_try_recv
                (λ t0.
                  after_line
                    (λ t1. call_loop yield_now fuel handler ch t1)
                    (process_next_line yield_now (suc fuel) handler t0))
                s
                t
              ≡ some (ok resp, t')
            → resp.id ≡ i
        received again (sent msg) e k = o.own resp (cc (e, k))
        received again empty e k =
            next_round again (process_next_line yield_now (suc fuel) handler t) refl k
        received again closed e k = cc k

    -- On a transport that came from a new one, while other tasks and the handler change it by its
    -- steps only, in whatever order: when `call` returns a response, that response has the id that
    -- the call was sent with.
    pub call_returns_own :
        (handler : Option (RequestHandler V R W)) (fuel : ℕ) (method : String) (params : V)
        (reader : R) (writer : W) (t t' : JsonRpcTransport V R W) (resp : RpcResponse V)
        → Acts handler
        → Reach (new reader writer) t
        → call yield_now fuel handler method params t ≡ some (ok resp, t')
        → resp.id ≡ t.id
    unfolding call
    call_returns_own handler fuel method params reader writer t t' resp acts begun h =
        requested (write_request t.id method params (register t)) refl h
      where
        owned : Owns t.id (length t.channels) (register t)
        owned = register-Owns t (Reach-IsBounded begun (λ j c k. absurd (lookup-nil j c k)))

        requested :
            (sent_request : RpcResult (Unit {0}) × JsonRpcTransport V R W)
            → write_request t.id method params (register t) ≡ sent_request
            → after_request
                (λ t1. call_loop yield_now fuel handler (length t.channels) t1)
                sent_request
              ≡ some (ok resp, t')
            → resp.id ≡ t.id
        requested (err x, t1) e k = cc k
        requested (ok u, t1) e k =
            call_loop-own handler fuel t.id (length t.channels) t1 t' resp acts
              (subst (λ x. Owns t.id (length t.channels) x) (ap (λ p. p.1) e)
                (Reach-Owns (unfold write_request in write_message-Reach _ (register t)) t.id
                  (length t.channels) owned))
              k
