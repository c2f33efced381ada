-- ===== src/Rpc/Transport/Polls.antt =====
-- `call` as the future that a task polls: it is pending where `next_line` yields. A request handler's
-- future is done in one poll.
pub mod Answered
use Prim.Native.String.{String}
use wasmi_plugin_framework.Base.{ℕ, zero, suc, Option, none, some, [], ◌++◌, length}
use wasmi_plugin_framework.Bytes.{Bytes}
use wasmi_plugin_framework.Io.{IoResult, would_block, other}
use wasmi_plugin_framework.Pipe.{Poll, ready, pending}
use wasmi_plugin_framework.Rpc.Message.{RpcResponse, RpcResult, ok, err, internal_error}
use wasmi_plugin_framework.Rpc.Pending.{Slot, empty, sent, closed, slot}
use wasmi_plugin_framework.Rpc.Transport.{
  Wire, JsonRpcTransport, RequestHandler, register, write_request, process_parsed, process_message,
}

-- `reading` has the call's channel, and the part of the line that was read.
pub data CallStage (V : Type 0) : Type 0 where
  starting : String → V → CallStage V
  reading : ℕ → Bytes → CallStage V

pub record CallTask (V R W : Type 0) : Type 0 where
  pub stage : CallStage V
  pub transport : JsonRpcTransport V R W

abbrev pub Polled : (V R W : Type 0) → Type 0
Polled V R W = Poll (RpcResult (RpcResponse V)) × CallTask V R W

module _ {V R W : Type 0} where
  abbrev pub reads : ℕ → Bytes → JsonRpcTransport V R W → CallTask V R W
  reads ch line t = record { stage = reading ch line; transport = t }

  abbrev pub ends : ℕ → RpcResult (RpcResponse V) → JsonRpcTransport V R W → Polled V R W
  ends ch result t = (ready result, reads ch [] t)

  -- What the loop does with the result of `rx.try_recv()`, and with that of a line.
  abbrev pub on_try_recv :
      (JsonRpcTransport V R W → Polled V R W) → ℕ → Slot V → JsonRpcTransport V R W → Polled V R W
  on_try_recv read_on ch (sent msg) t = ends ch (ok msg) t
  on_try_recv read_on ch empty t = read_on t
  on_try_recv read_on ch closed t = ends ch (err internal_error) t

  abbrev pub on_processed :
      (JsonRpcTransport V R W → Polled V R W)
      → ℕ
      → RpcResult (Unit {0}) × JsonRpcTransport V R W
      → Polled V R W
  on_processed read_on ch (err e, t) = ends ch (err e) t
  on_processed read_on ch (ok _, t) = on_try_recv read_on ch (slot t.channels ch) t

module _ {V R W : Type 0} ⦃wire : Wire V R W⦄ (handler : Option (RequestHandler V R W)) where
  abbrev pub on_read_line :
      (JsonRpcTransport V R W → Polled V R W)
      → ℕ
      → IoResult ℕ
      → Bytes
      → JsonRpcTransport V R W
      → Polled V R W
  on_read_line read_on ch (IoResult.ok zero) line t = ends ch (err internal_error) t
  on_read_line read_on ch (IoResult.ok (suc n)) line t =
      on_processed read_on ch (process_parsed handler (wire.from_str (wire.trim line)) t)
  on_read_line read_on ch (IoResult.err would_block) line t = (pending, reads ch line t)
  on_read_line read_on ch (IoResult.err other) line t = ends ch (err internal_error) t

  -- The fuel counts the lines of one poll; at its end the poll gives way.
  pub poll_reading : ℕ → ℕ → Bytes → JsonRpcTransport V R W → Polled V R W
  poll_reading zero ch line t = (pending, reads ch line t)
  poll_reading (suc fuel) ch line t =
      let (result, appended, r) = wire.read_line t.reader in
      on_read_line (poll_reading fuel ch []) ch result (line ++ appended) (record t { reader = r })

  -- The request was written, or not.
  abbrev pub on_request : ℕ → ℕ → RpcResult (Unit {0}) × JsonRpcTransport V R W → Polled V R W
  on_request fuel ch written = on_processed (poll_reading fuel ch []) ch written

  abbrev pub poll_stage : ℕ → CallStage V → JsonRpcTransport V R W → Polled V R W
  poll_stage fuel (starting method params) t =
      on_request fuel (length t.channels) (write_request t.id method params (register t))
  poll_stage fuel (reading ch line) t = poll_reading fuel ch line t

  pub poll_call : ℕ → CallTask V R W → Polled V R W
  poll_call fuel task = poll_stage fuel task.stage task.transport
