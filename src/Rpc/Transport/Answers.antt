-- ===== src/Rpc/Transport/Answers.antt =====
-- A call whose request is written and for which a line is there to read.
use Prim.Native.String.{String}
use wasmi_plugin_framework.Base.{
  ℕ, suc, ◌≡◌, refl, ◌∙◌, true, Option, none, some, [], ◌∷◌, ◌++◌, length, arith,
}
use wasmi_plugin_framework.Bytes.{Bytes}
use wasmi_plugin_framework.Io.{IoResult}
use wasmi_plugin_framework.Rpc.Message.{
  RpcResponse, RpcErrorResponse, rpc_response, rpc_error_response, ok, err,
}
use wasmi_plugin_framework.Rpc.Pending.{sent, slot, lookup, slot-set_slot_self, lookup-remove_self}
use wasmi_plugin_framework.Rpc.Transport.{
  Wire, JsonRpcTransport, RequestHandler, register, respond, request, write_message, write_request,
  process_message, next_line, process_parsed, process_next_line, after_line, call_loop, call,
}
use wasmi_plugin_framework.Rpc.Transport.Steps.{
  length-register, slot-register, lookup-register_self,
}

module _ {V R W : Type 0} ⦃wire : Wire V R W⦄
    (yield_now : JsonRpcTransport V R W → JsonRpcTransport V R W)
    (handler : Option (RequestHandler V R W)) (method : String) (params : V)
    (t : JsonRpcTransport V R W) where
  -- The request goes out as `bytes`, with the writer left as `w`; the next line is `line`, with
  -- the reader left as `r`.
  pub record IsExchanged (line : Bytes) (r : R) (w : W) : Type 0 where
    pub bytes : Bytes
    pub between : W
    pub n : ℕ
    pub serialized : wire.to_string (request t.id method params) ≡ some bytes
    pub written : wire.write_all t.writer (bytes ++ (b'\n' ∷ [])) ≡ (true, between)
    pub flushed : wire.flush between ≡ (true, w)
    pub line_read : wire.read_line t.reader ≡ (IoResult.ok (suc n), line, r)

  -- The transport when the line is processed.
  abbrev pub waiting : R → W → JsonRpcTransport V R W
  waiting r w = record (register t) { reader = r; writer = w }

  -- The request is written, and `line` is the line that is then read, however long that takes.
  pub record IsAnswered (fuel : ℕ) (line : Bytes) (r : R) (w : W) : Type 0 where
    pub bytes : Bytes
    pub between : W
    pub sent : W
    pub serialized : wire.to_string (request t.id method params) ≡ some bytes
    pub written : wire.write_all t.writer (bytes ++ (b'\n' ∷ [])) ≡ (true, between)
    pub flushed : wire.flush between ≡ (true, sent)
    pub came :
        next_line yield_now (suc fuel) [] (record (register t) { writer = sent })
        ≡ some (ok line, record (register t) { reader = r; writer = w })

  call_next_line :
      (fuel : ℕ) (line : Bytes) (r : R) (w : W)
      → IsAnswered fuel line r w
      → call yield_now (suc fuel) handler method params t
        ≡ after_line
            (λ t'. call_loop yield_now fuel handler (length t.channels) t')
            (some (process_parsed handler (wire.from_str (wire.trim line)) (waiting r w)))
  unfolding register call call_loop process_next_line write_request write_message
  call_next_line fuel line r w x =
      rw (x.serialized, x.written, x.flushed, slot-register t, x.came) refl

  IsExchanged-IsAnswered :
      (fuel : ℕ) (line : Bytes) (r : R) (w : W) → IsExchanged line r w → IsAnswered fuel line r w
  unfolding register next_line
  IsExchanged-IsAnswered fuel line r w x = record {
    bytes = x.bytes;
    between = x.between;
    sent = w;
    serialized = x.serialized;
    written = x.written;
    flushed = x.flushed;
    came = rw (x.line_read) refl;
  }

  -- The response to the call, in its place.
  pub answered :
      (resp : RpcResponse V) (r : R) (w : W)
      → resp.id ≡ t.id
      → (slot (respond resp (waiting r w)).channels (length t.channels) ≡ sent resp)
        × (lookup t.id (respond resp (waiting r w)).pending ≡ none)
  unfolding respond
  answered resp r w same =
      let found : lookup resp.id (register t).pending ≡ some (length t.channels) =
        rw (same) (lookup-register_self t) in
      (
        rw (found) (
            slot-set_slot_self (register t).channels (length t.channels) (sent resp)
              (omega (arith, length-register t))),
        rw (found, same) (lookup-remove_self t.id (register t).pending),
      )

  -- The response ends the call.
  pub call_reply_line :
      (fuel : ℕ) (line : Bytes) (r : R) (w : W) (resp : RpcResponse V)
      → IsAnswered (suc fuel) line r w
      → wire.from_str (wire.trim line) ≡ some (rpc_response resp)
      → resp.id ≡ t.id
      → call yield_now (suc (suc fuel)) handler method params t
        ≡ some (ok resp, respond resp (record (register t) { reader = r; writer = w }))
  unfolding process_message call_loop
  call_reply_line fuel line r w resp x parsed same =
      call_next_line (suc fuel) line r w x ∙ rw (parsed, (answered resp r w same).0) refl

  -- So does an error response.
  pub call_error_line :
      (fuel : ℕ) (line : Bytes) (r : R) (w : W) (e : RpcErrorResponse)
      → IsAnswered fuel line r w
      → wire.from_str (wire.trim line) ≡ some (rpc_error_response e)
      → call yield_now (suc fuel) handler method params t
        ≡ some (err e.error, record (register t) { reader = r; writer = w })
  unfolding process_message
  call_error_line fuel line r w e x parsed = call_next_line fuel line r w x ∙ rw (parsed) refl

  -- The call returns, and leaves this transport.
  pub call_left :
      (fuel : ℕ) (line : Bytes) (r : R) (w : W) (resp : RpcResponse V)
      → IsExchanged line r w
      → wire.from_str (wire.trim line) ≡ some (rpc_response resp)
      → resp.id ≡ t.id
      → call yield_now (suc (suc fuel)) handler method params t
        ≡ some (ok resp, respond resp (record (register t) { reader = r; writer = w }))
  call_left fuel line r w resp x =
      call_reply_line fuel line r w resp (IsExchanged-IsAnswered (suc fuel) line r w x)

  -- When the request is written and the next line is the response with the call's id, `call`
  -- returns that response, and nothing is pending under the id.
  pub call_answered :
      (fuel : ℕ) (line : Bytes) (r : R) (w : W) (resp : RpcResponse V)
      → IsExchanged line r w
      → wire.from_str (wire.trim line) ≡ some (rpc_response resp)
      → resp.id ≡ t.id
      → (t' : JsonRpcTransport V R W) × (call yield_now (suc (suc fuel)) handler method params t
          ≡ some (ok resp, t'))
        × (lookup t.id t'.pending ≡ none)
  call_answered fuel line r w resp x parsed same = (
    respond resp (waiting r w),
    call_left fuel line r w resp x parsed same,
    (answered resp r w same).1,
  )

  -- When the request is written and the next line is an error response, to whatever id, the call
  -- that reads it returns the error, and its own id stays pending.
  pub call_error_response :
      (fuel : ℕ) (line : Bytes) (r : R) (w : W) (e : RpcErrorResponse)
      → IsExchanged line r w
      → wire.from_str (wire.trim line) ≡ some (rpc_error_response e)
      → (t' : JsonRpcTransport V R W) × (call yield_now (suc fuel) handler method params t
          ≡ some (err e.error, t'))
        × (lookup t.id t'.pending ≡ some (length t.channels))
  call_error_response fuel line r w e x parsed = (
    waiting r w,
    call_error_line fuel line r w e (IsExchanged-IsAnswered fuel line r w x) parsed,
    lookup-register_self t,
  )
