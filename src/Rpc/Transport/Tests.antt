-- ===== src/Rpc/Transport/Tests.antt =====
-- Calls and a request over the wire of Rpc/Lines.
use wasmi_plugin_framework.Base.{ℕ, ◌≡◌, refl, none, some, List, [], ◌∷◌}
use wasmi_plugin_framework.Bytes.{Bytes}
use wasmi_plugin_framework.Rpc.Message.{RpcResponse, ok, err, internal_error}
use wasmi_plugin_framework.Rpc.Pending.{sent, lookup, remove, set_slot}
use wasmi_plugin_framework.Rpc.Transport.{
  RequestHandler, new, register, respond, write_message, write_request, process_message, next_line,
  process_next_line, call_loop, call,
}
use wasmi_plugin_framework.Rpc.Lines.{lines_wire, Lines, stay}
use wasmi_plugin_framework.Rpc.Transport.Steps.{here}
use wasmi_plugin_framework.Rpc.Transport.Own.{call_returns_own}
use wasmi_plugin_framework.Rpc.Transport.Answers.{IsExchanged, call_answered, call_error_response}

abbrev echo : RequestHandler ℕ (List Bytes) Bytes
echo method params t = (ok params, t)

abbrev response : ℕ → ℕ → RpcResponse ℕ
response id v = record { jsonrpc = "2.0"; id = id; result = v }

-- The other side asks for an echo before it answers.
abbrev asked : Lines
asked = new ((0 ∷ 7 ∷ 5 ∷ []) ∷ (1 ∷ 0 ∷ 9 ∷ []) ∷ []) []

abbrev asked_after : Lines
asked_after = record {
  id = 1;
  pending = [];
  channels = sent (response 0 9) ∷ [];
  reader = [];
  writer = 0 ∷ 0 ∷ 4 ∷ b'\n' ∷ 1 ∷ 7 ∷ 5 ∷ b'\n' ∷ [];
}

call-asked : call stay 3 (some echo) "prime_sieve" 4 asked ≡ some (ok (response 0 9), asked_after)
unfolding call call_loop process_next_line next_line process_message write_request write_message
    register respond lookup remove set_slot
call-asked = refl

call_returns_own_example : (response 0 9).id ≡ asked.id
call_returns_own_example =
    call_returns_own stay (λ t. here) (some echo) 3 "prime_sieve" 4 asked.reader [] asked
      asked_after (response 0 9) (λ method params t. here) here call-asked

abbrev answered : Lines
answered = new ((1 ∷ 0 ∷ 9 ∷ []) ∷ []) []

abbrev refused : Lines
refused = new ((2 ∷ 8 ∷ 0 ∷ []) ∷ []) []

IsExchanged-answered :
    IsExchanged stay none "prime_sieve" 4 answered (1 ∷ 0 ∷ 9 ∷ []) [] (0 ∷ 0 ∷ 4 ∷ b'\n' ∷ [])
IsExchanged-answered = record {
  bytes = 0 ∷ 0 ∷ 4 ∷ [];
  between = 0 ∷ 0 ∷ 4 ∷ b'\n' ∷ [];
  n = 2;
  serialized = refl;
  written = refl;
  flushed = refl;
  line_read = refl;
}

IsExchanged-error :
    IsExchanged stay none "prime_sieve" 4 refused (2 ∷ 8 ∷ 0 ∷ []) [] (0 ∷ 0 ∷ 4 ∷ b'\n' ∷ [])
IsExchanged-error = record {
  bytes = 0 ∷ 0 ∷ 4 ∷ [];
  between = 0 ∷ 0 ∷ 4 ∷ b'\n' ∷ [];
  n = 2;
  serialized = refl;
  written = refl;
  flushed = refl;
  line_read = refl;
}

call_answered_example :
    (t' : Lines) × (call stay 2 none "prime_sieve" 4 answered ≡ some (ok (response 0 9), t'))
    × (lookup 0 t'.pending ≡ none)
call_answered_example =
    call_answered stay none "prime_sieve" 4 answered 0 (1 ∷ 0 ∷ 9 ∷ []) [] (0 ∷ 0 ∷ 4 ∷ b'\n' ∷ [])
      (response 0 9) IsExchanged-answered refl refl

call_error_response_example :
    (t' : Lines) × (call stay 1 none "prime_sieve" 4 refused ≡ some (err internal_error, t'))
    × (lookup 0 t'.pending ≡ some 0)
call_error_response_example =
    call_error_response stay none "prime_sieve" 4 refused 0 (2 ∷ 8 ∷ 0 ∷ []) []
      (0 ∷ 0 ∷ 4 ∷ b'\n' ∷ []) (record { jsonrpc = "2.0"; id = 8; error = internal_error })
      IsExchanged-error refl

abbrev echoed : Lines
echoed = record asked { reader = (1 ∷ 0 ∷ 9 ∷ []) ∷ []; writer = 1 ∷ 7 ∷ 5 ∷ b'\n' ∷ [] }
