-- ===== src/TestPlugin/Echo/Tests.antt =====
-- Two echoes over the wire of Rpc/Lines.
use wasmi_plugin_framework.Base.{◌≡◌, refl, some, List, [], ◌∷◌, ◌++◌, arith, ◌==◌}
use wasmi_plugin_framework.Bytes.{Bytes}
use wasmi_plugin_framework.Rpc.Message.{ok}
use wasmi_plugin_framework.Rpc.Transport.{new, register, respond}
use wasmi_plugin_framework.Rpc.Pending.{lookup}
use wasmi_plugin_framework.Rpc.Lines.{lines_wire, Lines, stay}
use wasmi_plugin_framework.Rpc.Transport.Quiet.{IsQuiet-refl}
use wasmi_plugin_framework.TestPlugin.Echo.{many_echo}
use wasmi_plugin_framework.TestPlugin.Echo.Ids.{results_only, many_echo-results_only}
use wasmi_plugin_framework.TestPlugin.Echo.Answered.{IsEchoed, many_echo_succeeds}

abbrev lines : List Bytes
lines = (1 ∷ 0 ∷ 0 ∷ []) ∷ (1 ∷ 1 ∷ 1 ∷ []) ∷ []

many_echo-results_only_example :
    many_echo (λ n. n) (λ a b. a == b) stay 3 2 (new lines [])
    ≡ results_only (λ n. n) (λ a b. a == b) stay 3 2 0 (new lines [])
many_echo-results_only_example =
    many_echo-results_only (λ n. n) (λ a b. a == b) stay IsQuiet-refl lines [] 3 2 (omega arith)

abbrev first : Bytes
first = 0 ∷ 0 ∷ 0 ∷ b'\n' ∷ []

abbrev both : Bytes
both = first ++ (0 ∷ 1 ∷ 1 ∷ b'\n' ∷ [])

two_echoes : IsEchoed (λ n. n) (λ a b. a == b) stay 2 0 (new lines [])
unfolding IsEchoed register respond lookup
two_echoes = (
  1 ∷ 0 ∷ 0 ∷ [],
  (1 ∷ 1 ∷ 1 ∷ []) ∷ [],
  first,
  record { jsonrpc = "2.0"; id = 0; result = 0 },
  record {
    bytes = 0 ∷ 0 ∷ 0 ∷ [];
    between = first;
    n = 2;
    serialized = refl;
    written = refl;
    flushed = refl;
    line_read = refl;
  },
  refl,
  refl,
  refl,
  (
    1 ∷ 1 ∷ 1 ∷ [],
    [],
    both,
    record { jsonrpc = "2.0"; id = 1; result = 1 },
    record {
      bytes = 0 ∷ 1 ∷ 1 ∷ [];
      between = both;
      n = 2;
      serialized = refl;
      written = refl;
      flushed = refl;
      line_read = refl;
    },
    refl,
    refl,
    refl,
    tt,
  ),
)

many_echo_succeeds_example :
    (t' : Lines) × (many_echo (λ n. n) (λ a b. a == b) stay 2 2 (new lines []) ≡ some (ok tt, t'))
many_echo_succeeds_example =
    many_echo_succeeds (λ n. n) (λ a b. a == b) stay IsQuiet-refl 0 2 lines [] (omega arith)
      two_echoes
