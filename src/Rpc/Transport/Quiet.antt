-- ===== src/Rpc/Transport/Quiet.antt =====
-- A transport that no other task calls on: a call takes one id, and nothing else takes any.
use Prim.Native.String.{String}
use wasmi_plugin_framework.Base.{
  ℕ, zero, suc, ◌+◌, ◌%◌, ◌^◌, ◌≡◌, refl, ◌∙◌, Option, none, some, [], ◌∷◌, ◌++◌, length, inl, inr,
  Option-cases, Bool-cases,
}
use wasmi_plugin_framework.Bytes.{Bytes}
use wasmi_plugin_framework.Io.{IoResult, would_block, other}
use wasmi_plugin_framework.Rpc.Message.{
  RpcMessage, RpcResponse, rpc_request, rpc_response, rpc_error_response, RpcResult, ok, err,
}
use wasmi_plugin_framework.Rpc.Pending.{lookup, Slot, empty, sent, closed, slot}
use wasmi_plugin_framework.Rpc.Transport.{
  Wire, JsonRpcTransport, register, respond, write_line, write_message, write_request,
  process_message, after_read_line, next_line, process_parsed, process_line, process_next_line,
  after_line, after_try_recv, call_loop, after_request, call,
}
use wasmi_plugin_framework.Rpc.Transport.Steps.{responds, reads, Reach, here, step}
use wasmi_plugin_framework.Rpc.Transport.Own.{Reach-trans, write_message-Reach}

module _ {V R W : Type 0} where
  -- `t` became `t'` without a new call.
  pub record IsQuiet (t t' : JsonRpcTransport V R W) : Type 0 where
    pub reached : Reach t t'
    pub same_id : t'.id ≡ t.id

  pub IsQuiet-refl : (t : JsonRpcTransport V R W) → IsQuiet t t
  IsQuiet-refl t = record { reached = here; same_id = refl }

  pub IsQuiet-trans :
      {t t' t'' : JsonRpcTransport V R W} → IsQuiet t t' → IsQuiet t' t'' → IsQuiet t t''
  IsQuiet-trans p q = record {
    reached = Reach-trans p.reached q.reached;
    same_id = q.same_id ∙ p.same_id;
  }

  -- What a part of a call returns, if it returns.
  abbrev pub EndsQuiet :
      {A : Type 0} → JsonRpcTransport V R W → Option (A × JsonRpcTransport V R W) → Type 0
  EndsQuiet t none = Unit
  EndsQuiet t (some (a, t')) = IsQuiet t t'

  respond-IsQuiet : (resp : RpcResponse V) (t : JsonRpcTransport V R W) → IsQuiet t (respond resp t)
  unfolding respond
  respond-IsQuiet resp t = record {
    reached = step here (responds resp);
    same_id = elim (Option-cases (lookup resp.id t.pending)) [
      | inl no_call ↦ rw (no_call) refl
      | inr (ch, e) ↦ rw (e) refl
    ];
  }

  pub register-id : (t : JsonRpcTransport V R W) → (register t).id ≡ (t.id + 1) % 2 ^ 64
  unfolding register
  register-id t = refl

module _ {V R W : Type 0} ⦃wire : Wire V R W⦄ where
  write_line-id : (o : Option Bytes) (t : JsonRpcTransport V R W) → (write_line o t).1.id ≡ t.id
  write_line-id none t = refl
  write_line-id (some bs) t =
      let (written, w) = wire.write_all t.writer (bs ++ (b'\n' ∷ [])) in
      elim (Bool-cases written) [
        | inl e ↦ elim (Bool-cases (wire.flush w).0) [
          | inl f ↦ rw (e, f) refl
          | inr f ↦ rw (e, f) refl
        ]
        | inr e ↦ rw (e) refl
      ]

  pub write_message-IsQuiet :
      (msg : RpcMessage V) (t : JsonRpcTransport V R W) → IsQuiet t (write_message msg t).1
  unfolding write_message
  write_message-IsQuiet msg t = record {
    reached = write_message-Reach msg t;
    same_id = write_line-id (wire.to_string msg) t;
  }

  process_parsed-IsQuiet :
      (o : Option (RpcMessage V)) (t : JsonRpcTransport V R W)
      → IsQuiet t (process_parsed none o t).1
  unfolding process_message
  process_parsed-IsQuiet none t = IsQuiet-refl t
  process_parsed-IsQuiet (some (rpc_response resp)) t = respond-IsQuiet resp t
  process_parsed-IsQuiet (some (rpc_error_response e)) t = IsQuiet-refl t
  process_parsed-IsQuiet (some (rpc_request req)) t = IsQuiet-refl t

  module _ (yield_now : JsonRpcTransport V R W → JsonRpcTransport V R W)
      (quiet : (t : JsonRpcTransport V R W) → IsQuiet t (yield_now t)) where
    after_read_line-EndsQuiet :
        (again : Bytes → JsonRpcTransport V R W → Option (RpcResult Bytes × JsonRpcTransport V R W))
        (t : JsonRpcTransport V R W)
        → ((line : Bytes) (t1 : JsonRpcTransport V R W)
            → IsQuiet t t1
            → EndsQuiet t (again line t1))
        → (result : IoResult ℕ) (line : Bytes) (t1 : JsonRpcTransport V R W) → IsQuiet t t1
        → EndsQuiet t (after_read_line again result line t1)
    after_read_line-EndsQuiet again t ih (IoResult.ok zero) line t1 q = q
    after_read_line-EndsQuiet again t ih (IoResult.ok (suc n)) line t1 q = q
    after_read_line-EndsQuiet again t ih (IoResult.err would_block) line t1 q = ih line t1 q
    after_read_line-EndsQuiet again t ih (IoResult.err other) line t1 q = q

    next_line-EndsQuiet :
        (fuel : ℕ) (line : Bytes) (t t1 : JsonRpcTransport V R W)
        → IsQuiet t t1
        → EndsQuiet t (next_line yield_now fuel line t1)
    unfolding next_line
    next_line-EndsQuiet zero line t t1 q = tt
    next_line-EndsQuiet (suc fuel) line t t1 q =
        let (result, appended, r) = wire.read_line t1.reader in
        after_read_line-EndsQuiet (λ line' t'. next_line yield_now fuel line' (yield_now t')) t
          (λ line' t' q'.
            next_line-EndsQuiet fuel line' t (yield_now t') (IsQuiet-trans q' (quiet t')))
          result (line ++ appended) (record t1 { reader = r })
          (IsQuiet-trans q (record { reached = step here (reads r); same_id = refl }))

    process_line-EndsQuiet :
        (t : JsonRpcTransport V R W) (o : Option (RpcResult Bytes × JsonRpcTransport V R W))
        → EndsQuiet t o
        → EndsQuiet t (process_line none o)
    process_line-EndsQuiet t none q = tt
    process_line-EndsQuiet t (some (err e, t1)) q = q
    process_line-EndsQuiet t (some (ok line, t1)) q =
        IsQuiet-trans q (process_parsed-IsQuiet (wire.from_str (wire.trim line)) t1)

    after_line-EndsQuiet :
        (again : JsonRpcTransport V R W
          → Option (RpcResult (RpcResponse V) × JsonRpcTransport V R W))
        (t : JsonRpcTransport V R W)
        → ((t1 : JsonRpcTransport V R W) → IsQuiet t t1 → EndsQuiet t (again t1))
        → (o : Option (RpcResult (Unit {0}) × JsonRpcTransport V R W)) → EndsQuiet t o
        → EndsQuiet t (after_line again o)
    after_line-EndsQuiet again t ih none q = tt
    after_line-EndsQuiet again t ih (some (err e, t1)) q = q
    after_line-EndsQuiet again t ih (some (ok u, t1)) q = ih t1 q

    after_try_recv-EndsQuiet :
        (wait : JsonRpcTransport V R W
          → Option (RpcResult (RpcResponse V) × JsonRpcTransport V R W))
        (t t1 : JsonRpcTransport V R W)
        → EndsQuiet t (wait t1)
        → (s : Slot V) → IsQuiet t t1
        → EndsQuiet t (after_try_recv wait s t1)
    after_try_recv-EndsQuiet wait t t1 ih (sent msg) q = q
    after_try_recv-EndsQuiet wait t t1 ih empty q = ih
    after_try_recv-EndsQuiet wait t t1 ih closed q = q

    call_loop-EndsQuiet :
        (fuel ch : ℕ) (t t1 : JsonRpcTransport V R W)
        → IsQuiet t t1
        → EndsQuiet t (call_loop yield_now fuel none ch t1)
    unfolding call_loop process_next_line
    call_loop-EndsQuiet zero ch t t1 q = tt
    call_loop-EndsQuiet (suc fuel) ch t t1 q =
        after_try_recv-EndsQuiet _ t t1
          (after_line-EndsQuiet (λ t'. call_loop yield_now fuel none ch t') t
            (λ t' q'. call_loop-EndsQuiet fuel ch t t' q')
            (process_next_line yield_now (suc fuel) none t1)
            (process_line-EndsQuiet t (next_line yield_now (suc fuel) [] t1)
              (next_line-EndsQuiet (suc fuel) [] t t1 q)))
          (slot t1.channels ch) q

    after_request-EndsQuiet :
        (wait : JsonRpcTransport V R W
          → Option (RpcResult (RpcResponse V) × JsonRpcTransport V R W))
        (t : JsonRpcTransport V R W)
        → ((t1 : JsonRpcTransport V R W) → IsQuiet t t1 → EndsQuiet t (wait t1))
        → (o : RpcResult (Unit {0}) × JsonRpcTransport V R W) → IsQuiet t o.1
        → EndsQuiet t (after_request wait o)
    after_request-EndsQuiet wait t ih (err e, t1) q = q
    after_request-EndsQuiet wait t ih (ok u, t1) q = ih t1 q

    -- A call that returns leaves the transport with the next id.
    pub call-EndsQuiet :
        (fuel : ℕ) (method : String) (params : V) (t : JsonRpcTransport V R W)
        → EndsQuiet (register t) (call yield_now fuel none method params t)
    unfolding call write_request
    call-EndsQuiet fuel method params t =
        after_request-EndsQuiet (λ t'. call_loop yield_now fuel none (length t.channels) t')
          (register t) (call_loop-EndsQuiet fuel (length t.channels) (register t)) _
          (write_message-IsQuiet _ (register t))
