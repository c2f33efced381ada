-- ===== src/Rpc/Transport/Requests.antt =====
-- A request that is read is answered.
use wasmi_plugin_framework.Base.{ℕ, suc, ◌≡◌, refl, true, some, [], ◌∷◌, ◌++◌}
use wasmi_plugin_framework.Bytes.{Bytes}
use wasmi_plugin_framework.Io.{IoResult}
use wasmi_plugin_framework.Rpc.Message.{RpcRequest, rpc_request, RpcResult, ok}
use wasmi_plugin_framework.Rpc.Transport.{
  Wire, JsonRpcTransport, RequestHandler, reply, process_message, write_message, next_line,
  process_next_line,
}

-- The wire takes `bytes` and a newline from a writer, and leaves it as `w`.
pub record IsWritten {V R W : Type 0} (wire : Wire V R W) (writer : W) (bytes : Bytes) (w : W)
    : Type 0 where
  pub between : W
  pub written : wire.write_all writer (bytes ++ (b'\n' ∷ [])) ≡ (true, between)
  pub flushed : wire.flush between ≡ (true, w)

module _ {V R W : Type 0} ⦃wire : Wire V R W⦄ where
  pub process_next_line_answers :
      (yield_now : JsonRpcTransport V R W → JsonRpcTransport V R W) (fuel n : ℕ)
      (handler : RequestHandler V R W) (t t1 : JsonRpcTransport V R W) (line bytes : Bytes) (r : R)
      (w : W) (req : RpcRequest V) (result : RpcResult V)
      → wire.read_line t.reader ≡ (IoResult.ok (suc n), line, r)
      → wire.from_str (wire.trim line) ≡ some (rpc_request req)
      → handler req.method req.params (record t { reader = r }) ≡ (result, t1)
      → wire.to_string (reply req.id result) ≡ some bytes
      → IsWritten wire t1.writer bytes w
      → process_next_line yield_now (suc fuel) (some handler) t
        ≡ some (ok tt, record t1 { writer = w })
  unfolding process_next_line next_line process_message write_message
  process_next_line_answers yield_now fuel n handler t t1 line bytes r w req result e1 e2 e3 e4 x =
      rw (e1, e2, e3, e4, x.written, x.flushed) refl
