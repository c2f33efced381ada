-- ===== src/Rpc/Message.antt =====
-- crates/wasmi-plugin-pdk/src/rpc_message.rs: the JSON-RPC messages and the errors with their codes.
-- `V` stands for `serde_json::Value`. A message as JSON is serde's work; `RpcErrorData` is what the
-- two hand-written impls for `RpcError` exchange with it.
use Prim.Native.String.{String}
use wasmi_plugin_framework.Base.{
  ℕ, ◌+◌, Bool, false, ◌≡◌, refl, ◌==◌, if◌then◌else◌, ℤ, pos, negsuc,
}

pub record RpcRequest (V : Type 0) : Type 0 where
  pub jsonrpc : String
  pub id : ℕ
  pub method : String
  pub params : V

pub record RpcResponse (V : Type 0) : Type 0 where
  pub jsonrpc : String
  pub id : ℕ
  pub result : V

pub data RpcError : Type 0 where
  parse_error invalid_request method_not_found invalid_params internal_error : RpcError
  custom : String → RpcError

pub record RpcErrorResponse : Type 0 where
  pub jsonrpc : String
  pub id : ℕ
  pub error : RpcError

pub data RpcMessage (V : Type 0) : Type 0 where
  rpc_request : RpcRequest V → RpcMessage V
  rpc_response : RpcResponse V → RpcMessage V
  rpc_error_response : RpcErrorResponse → RpcMessage V

-- `Result<A, RpcError>`
pub data RpcResult (A : Type 0) : Type 0 where
  ok : A → RpcResult A
  err : RpcError → RpcResult A

-- `negsuc n` is -(n + 1).
pub code : RpcError → ℤ
code parse_error = negsuc 32699
code invalid_request = negsuc 32599
code method_not_found = negsuc 32600
code invalid_params = negsuc 32601
code internal_error = negsuc 32602
code (custom s) = negsuc 31999

pub message : RpcError → String
message parse_error = "Parse error"
message invalid_request = "Invalid request"
message method_not_found = "Method not found"
message invalid_params = "Invalid params"
message internal_error = "Internal error"
message (custom s) = s

pub record RpcErrorData : Type 0 where
  pub code : ℤ
  pub message : String

pub serialize : RpcError → RpcErrorData
unfolding code message
serialize e = record { code = code e; message = message e }

abbrev is_code : ℤ → ℕ → Bool
is_code (pos n) k = false
is_code (negsuc n) k = (n + 1) == k

pub deserialize : RpcErrorData → RpcError
deserialize error_data =
    if is_code error_data.code 32700
    then parse_error
    else if is_code error_data.code 32600
    then invalid_request
    else if is_code error_data.code 32601
    then method_not_found
    else if is_code error_data.code 32602
    then invalid_params
    else if is_code error_data.code 32603
    then internal_error
    else custom error_data.message

-- Every error comes back from its code and message as it was, a custom one with its text.
pub deserialize-serialize : (e : RpcError) → deserialize (serialize e) ≡ e
unfolding serialize deserialize
deserialize-serialize parse_error = refl
deserialize-serialize invalid_request = refl
deserialize-serialize method_not_found = refl
deserialize-serialize invalid_params = refl
deserialize-serialize internal_error = refl
deserialize-serialize (custom s) = refl
