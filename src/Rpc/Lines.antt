-- ===== src/Rpc/Lines.antt =====
-- A wire for tests: its lines are a tag, an id and a value, and JSON values are numbers.
use wasmi_plugin_framework.Base.{
  ℕ, zero, suc, true, Option, none, some, List, [], ◌∷◌, ◌++◌, length,
}
use wasmi_plugin_framework.Bytes.{Bytes}
use wasmi_plugin_framework.Io.{IoResult}
use wasmi_plugin_framework.Rpc.Message.{
  RpcMessage, rpc_request, rpc_response, rpc_error_response, internal_error,
}
use wasmi_plugin_framework.Rpc.Transport.{Wire, JsonRpcTransport}

abbrev pub tagged : ℕ → ℕ → ℕ → Option (RpcMessage ℕ)
tagged zero id v =
    some (rpc_request (record { jsonrpc = "2.0"; id = id; method = "echo"; params = v }))
tagged (suc zero) id v = some (rpc_response (record { jsonrpc = "2.0"; id = id; result = v }))
tagged (suc (suc tag)) id v =
    some (rpc_error_response (record { jsonrpc = "2.0"; id = id; error = internal_error }))

abbrev pub parse : Bytes → Option (RpcMessage ℕ)
parse (tag ∷ id ∷ v ∷ rest) = tagged tag id v
parse bytes = none

abbrev pub print : RpcMessage ℕ → Bytes
print (rpc_request m) = 0 ∷ m.id ∷ m.params ∷ []
print (rpc_response m) = 1 ∷ m.id ∷ m.result ∷ []
print (rpc_error_response m) = 2 ∷ m.id ∷ 0 ∷ []

abbrev pub next_of : List Bytes → IoResult ℕ × Bytes × List Bytes
next_of [] = (IoResult.ok 0, [], [])
next_of (line ∷ lines) = (IoResult.ok (length line), line, lines)

instance abbrev pub lines_wire : Wire ℕ (List Bytes) Bytes
lines_wire = record {
  from_str = parse;
  to_string = λ m. some (print m);
  trim = λ bytes. bytes;
  read_line = next_of;
  write_all = λ w bytes. (true, w ++ bytes);
  flush = λ w. (true, w);
}

abbrev pub Lines : Type 0
Lines = JsonRpcTransport ℕ (List Bytes) Bytes

abbrev pub stay : Lines → Lines
stay t = t
