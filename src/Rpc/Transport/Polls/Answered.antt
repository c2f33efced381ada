-- ===== src/Rpc/Transport/Polls/Answered.antt =====
-- The polls of a call: the first, one that finds no line, and the one that finds the reply.
use Prim.Native.String.{String}
use wasmi_plugin_framework.Base.{ℕ, suc, ◌≡◌, refl, Option, some, [], length}
use wasmi_plugin_framework.Bytes.{Bytes}
use wasmi_plugin_framework.Io.{IoResult, would_block}
use wasmi_plugin_framework.Pipe.{ready, pending}
use wasmi_plugin_framework.Rpc.Message.{RpcResponse, RpcResult, ok, err}
use wasmi_plugin_framework.Rpc.Transport.{
  Wire, JsonRpcTransport, RequestHandler, json_rpc_version, request, reply, register, write_message,
  write_request, respond, process_message,
}
use wasmi_plugin_framework.Rpc.Transport.Steps.{slot-register}
use wasmi_plugin_framework.Rpc.Transport.Answers.{answered}
use wasmi_plugin_framework.Rpc.Transport.Requests.{IsWritten}
use wasmi_plugin_framework.Rpc.Transport.Polls.{CallTask, starting, reads, poll_reading, poll_call}

-- What `call` makes of the result of the other side's method.
abbrev pub answer : {V : Type 0} → ℕ → RpcResult V → RpcResult (RpcResponse V)
answer id (ok result) = ok (record { jsonrpc = json_rpc_version; id = id; result = result })
answer id (err error) = err error

module _ {V R W : Type 0} ⦃wire : Wire V R W⦄ (handler : Option (RequestHandler V R W)) where
  -- The request is written in the first poll, which then reads.
  pub poll_starting :
      (fuel : ℕ) (method : String) (params : V) (t : JsonRpcTransport V R W) (bytes : Bytes) (w : W)
      → wire.to_string (request t.id method params) ≡ some bytes
      → IsWritten wire t.writer bytes w
      → poll_call handler fuel (record { stage = starting method params; transport = t })
        ≡ poll_call handler fuel (reads (length t.channels) [] (record (register t) { writer = w }))
  unfolding poll_call poll_reading write_request write_message register
  poll_starting fuel method params t bytes w printed x =
      rw (printed, x.written, x.flushed, slot-register t) refl

  pub poll_dry :
      (fuel ch : ℕ) (t : JsonRpcTransport V R W) (r : R)
      → wire.read_line t.reader ≡ (IoResult.err would_block, [], r)
      → poll_call handler (suc fuel) (reads ch [] t)
        ≡ (pending, reads ch [] (record t { reader = r }))
  unfolding poll_call poll_reading
  poll_dry fuel ch t r e = rw (e) refl

  pub poll_reply :
      (fuel n : ℕ) (t : JsonRpcTransport V R W) (r' r : R) (w : W) (line : Bytes)
      (result : RpcResult V)
      → wire.read_line r' ≡ (IoResult.ok (suc n), line, r)
      → wire.from_str (wire.trim line) ≡ some (reply t.id result)
      → (c : CallTask V R W) × (poll_call handler
            (suc fuel)
            (reads (length t.channels) [] (record (register t) { reader = r'; writer = w }))
          ≡ (ready (answer t.id result), c))
  unfolding poll_call poll_reading process_message
  poll_reply fuel n t r' r w line (ok v) e parsed =
      let resp : RpcResponse V = record { jsonrpc = json_rpc_version; id = t.id; result = v } in
      (
        reads (length t.channels) []
            (respond resp (record (register t) { reader = r; writer = w })),
        rw (e, parsed, (answered (λ x. x) handler "" v t resp r w refl).0) refl,
      )
  poll_reply fuel n t r' r w line (err x) e parsed = (
    reads (length t.channels) [] (record (register t) { reader = r; writer = w }),
    rw (e, parsed) refl,
  )
