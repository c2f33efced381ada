-- ===== src/Rpc/Transport.antt =====
-- crates/wasmi-plugin-pdk/src/transport.rs: `JsonRpcTransport`. Each task works on the shared
-- transport between its await points; what other tasks do at an await is the argument `yield_now`,
-- and what a request handler does with the transport is part of the handler.
pub mod Steps
pub mod Own
pub mod Quiet
pub mod Answers
pub mod Requests
pub mod Polls
mod Tests
use Prim.Native.String.{String}
use wasmi_plugin_framework.Base.{
  ℕ, zero, suc, ◌+◌, ◌%◌, ◌^◌, Bool, true, false, Option, none, some, List, [], ◌∷◌, ◌++◌, length,
  if◌then◌else◌,
}
use wasmi_plugin_framework.Bytes.{Bytes}
use wasmi_plugin_framework.Io.{IoError, would_block, other, IoResult}
use wasmi_plugin_framework.Rpc.Message.{
  RpcRequest, RpcResponse, RpcErrorResponse, RpcMessage, rpc_request, rpc_response,
  rpc_error_response, RpcResult, ok, err, RpcError, internal_error, parse_error, custom,
}
use wasmi_plugin_framework.Rpc.Pending.{
  Pending, lookup, remove, insert, Slot, empty, sent, closed, slot, set_slot,
}

-- What the transport calls of serde_json and of its boxed reader and writer: `R` and `W` are their
-- types, `V` is JSON. `read_line r` is the result, the bytes appended to the line, and the reader.
pub record Wire (V R W : Type 0) : Type 0 where
  pub from_str : Bytes → Option (RpcMessage V)
  pub to_string : RpcMessage V → Option Bytes
  pub trim : Bytes → Bytes
  pub read_line : R → IoResult ℕ × Bytes × R
  pub write_all : W → Bytes → Bool × W
  pub flush : W → Bool × W

-- `id`, `pending`, `reader` and `writer` are the fields behind their locks; `channels` are the
-- oneshot channels that calls have made, by number.
pub record JsonRpcTransport (V R W : Type 0) : Type 0 where
  pub id : ℕ
  pub pending : Pending
  pub channels : List (Slot V)
  pub reader : R
  pub writer : W

abbrev pub json_rpc_version : String
json_rpc_version = "2.0"

-- `RequestHandler<RpcError>`
abbrev pub RequestHandler : (V R W : Type 0) → Type 0
RequestHandler V R W = String → V → JsonRpcTransport V R W → RpcResult V × JsonRpcTransport V R W

module _ {V : Type 0} where
  -- The sender that `insert` replaces, if there is one, is dropped.
  abbrev pub drop_sender : Option ℕ → List (Slot V) → List (Slot V)
  drop_sender none channels = channels
  drop_sender (some ch) channels = set_slot channels ch closed

  abbrev pub request : ℕ → String → V → RpcMessage V
  request id method params =
      rpc_request (record { jsonrpc = json_rpc_version; id = id; method = method; params = params })

  -- The answer to the request `id`.
  abbrev pub reply : ℕ → RpcResult V → RpcMessage V
  reply id (ok result) =
      rpc_response (record { jsonrpc = json_rpc_version; id = id; result = result })
  reply id (err error) =
      rpc_error_response (record { jsonrpc = json_rpc_version; id = id; error = error })

module _ {V R W : Type 0} where
  abbrev pub new : R → W → JsonRpcTransport V R W
  new reader writer = record {
    id = 0;
    pending = [];
    channels = [];
    reader = reader;
    writer = writer;
  }

  -- `oneshot::channel`, `id.fetch_add(1)` and `pending.insert(id, tx)`; the call's id is the
  -- transport's `id`, and its channel the first that is new.
  unfoldable pub register : JsonRpcTransport V R W → JsonRpcTransport V R W
  register t = record t {
    id = (t.id + 1) % 2 ^ 64;
    pending = insert t.id (length t.channels) t.pending;
    channels = drop_sender (lookup t.id t.pending) t.channels ++ (empty ∷ []);
  }

  abbrev send : Option ℕ → RpcResponse V → JsonRpcTransport V R W → JsonRpcTransport V R W
  send none resp t = t
  send (some ch) resp t = record t {
    pending = remove resp.id t.pending;
    channels = set_slot t.channels ch (sent resp);
  }

  -- A response goes to the call that is pending under its id, if there is one.
  unfoldable pub respond : RpcResponse V → JsonRpcTransport V R W → JsonRpcTransport V R W
  respond resp t = send (lookup resp.id t.pending) resp t

module _ {V R W : Type 0} ⦃wire : Wire V R W⦄ where
  abbrev pub write_line :
      Option Bytes → JsonRpcTransport V R W → RpcResult (Unit {0}) × JsonRpcTransport V R W
  write_line none t = (err internal_error, t)
  write_line (some serialized) t =
      let (written, w) = wire.write_all t.writer (serialized ++ (b'\n' ∷ [])) in
      let (flushed, w') = wire.flush w in
      if written
      then (if flushed
          then (ok tt, record t { writer = w' })
          else (err internal_error, record t { writer = w' }))
      else (err internal_error, record t { writer = w })

  pub write_message :
      RpcMessage V → JsonRpcTransport V R W → RpcResult (Unit {0}) × JsonRpcTransport V R W
  write_message msg t = write_line (wire.to_string msg) t

  pub write_request :
      ℕ → String → V → JsonRpcTransport V R W → RpcResult (Unit {0}) × JsonRpcTransport V R W
  unfolding write_message
  write_request id method params t = write_message (request id method params) t

  pub process_message :
      RpcMessage V
      → Option (RequestHandler V R W)
      → JsonRpcTransport V R W
      → RpcResult (Unit {0}) × JsonRpcTransport V R W
  unfolding respond write_message
  process_message (rpc_response resp) handler t = (ok tt, respond resp t)
  process_message (rpc_error_response e) handler t = (err e.error, t)
  process_message (rpc_request req) none t = (err (custom "Handler not found"), t)
  process_message (rpc_request req) (some handler) t =
      let (result, t') = handler req.method req.params t in write_message (reply req.id result) t'

  -- What `next_line` does with the result of `read_line`: `again` is its next round.
  abbrev pub after_read_line :
      (Bytes → JsonRpcTransport V R W → Option (RpcResult Bytes × JsonRpcTransport V R W))
      → IoResult ℕ
      → Bytes
      → JsonRpcTransport V R W
      → Option (RpcResult Bytes × JsonRpcTransport V R W)
  after_read_line again (IoResult.ok zero) line t = some (err internal_error, t)
  after_read_line again (IoResult.ok (suc n)) line t = some (ok line, t)
  after_read_line again (IoResult.err would_block) line t = again line t
  after_read_line again (IoResult.err other) line t = some (err internal_error, t)

  -- `none` is the end of the fuel, which the rounds of the loop count.
  unfoldable pub next_line :
      (JsonRpcTransport V R W → JsonRpcTransport V R W)
      → ℕ
      → Bytes
      → JsonRpcTransport V R W
      → Option (RpcResult Bytes × JsonRpcTransport V R W)
  next_line yield_now zero line t = none
  next_line yield_now (suc fuel) line t =
      let (result, appended, r) = wire.read_line t.reader in
      after_read_line (λ line' t'. next_line yield_now fuel line' (yield_now t')) result
        (line ++ appended) (record t { reader = r })

  abbrev pub process_parsed :
      Option (RequestHandler V R W)
      → Option (RpcMessage V)
      → JsonRpcTransport V R W
      → RpcResult (Unit {0}) × JsonRpcTransport V R W
  process_parsed handler none t = (err parse_error, t)
  process_parsed handler (some message) t = process_message message handler t

  abbrev pub process_line :
      Option (RequestHandler V R W)
      → Option (RpcResult Bytes × JsonRpcTransport V R W)
      → Option (RpcResult (Unit {0}) × JsonRpcTransport V R W)
  process_line handler none = none
  process_line handler (some (err e, t)) = some (err e, t)
  process_line handler (some (ok line, t)) =
      some (process_parsed handler (wire.from_str (wire.trim line)) t)

  pub process_next_line :
      (JsonRpcTransport V R W → JsonRpcTransport V R W)
      → ℕ
      → Option (RequestHandler V R W)
      → JsonRpcTransport V R W
      → Option (RpcResult (Unit {0}) × JsonRpcTransport V R W)
  unfolding next_line process_message
  process_next_line yield_now fuel handler t = process_line handler (next_line yield_now fuel [] t)

  abbrev pub after_line :
      (JsonRpcTransport V R W → Option (RpcResult (RpcResponse V) × JsonRpcTransport V R W))
      → Option (RpcResult (Unit {0}) × JsonRpcTransport V R W)
      → Option (RpcResult (RpcResponse V) × JsonRpcTransport V R W)
  after_line again none = none
  after_line again (some (err e, t)) = some (err e, t)
  after_line again (some (ok _, t)) = again t

  -- What `call` does with the result of `rx.try_recv()`.
  abbrev pub after_try_recv :
      (JsonRpcTransport V R W → Option (RpcResult (RpcResponse V) × JsonRpcTransport V R W))
      → Slot V
      → JsonRpcTransport V R W
      → Option (RpcResult (RpcResponse V) × JsonRpcTransport V R W)
  after_try_recv wait (sent msg) t = some (ok msg, t)
  after_try_recv wait empty t = wait t
  after_try_recv wait closed t = some (err internal_error, t)

  -- The loop of `call`, on the fuel that its rounds and those of each line have.
  pub call_loop :
      (JsonRpcTransport V R W → JsonRpcTransport V R W)
      → ℕ
      → Option (RequestHandler V R W)
      → ℕ
      → JsonRpcTransport V R W
      → Option (RpcResult (RpcResponse V) × JsonRpcTransport V R W)
  unfolding process_next_line
  call_loop yield_now zero handler ch t = none
  call_loop yield_now (suc fuel) handler ch t =
      after_try_recv
        (λ t0.
          after_line (λ t'. call_loop yield_now fuel handler ch t')
            (process_next_line yield_now (suc fuel) handler t0))
        (slot t.channels ch) t

  abbrev pub after_request :
      (JsonRpcTransport V R W → Option (RpcResult (RpcResponse V) × JsonRpcTransport V R W))
      → RpcResult (Unit {0}) × JsonRpcTransport V R W
      → Option (RpcResult (RpcResponse V) × JsonRpcTransport V R W)
  after_request wait (err e, t) = some (err e, t)
  after_request wait (ok _, t) = wait t

  pub call :
      (JsonRpcTransport V R W → JsonRpcTransport V R W)
      → ℕ
      → Option (RequestHandler V R W)
      → String
      → V
      → JsonRpcTransport V R W
      → Option (RpcResult (RpcResponse V) × JsonRpcTransport V R W)
  unfolding register write_request call_loop
  call yield_now fuel handler method params t =
      after_request (λ t'. call_loop yield_now fuel handler (length t.channels) t')
        (write_request t.id method params (register t))
