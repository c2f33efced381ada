-- ===== src/TestPlugin/Main/Tests.antt =====
-- The time, a minute after the epoch.
use wasmi_plugin_framework.Base.{
  true, ◌++◌, ℕ, zero, suc, ◌≡◌, refl, Option, some, none, List, [], ◌∷◌,
}
use wasmi_plugin_framework.Bytes.{Bytes}
use wasmi_plugin_framework.Rpc.Message.{RpcRequest, rpc_request, ok}
use wasmi_plugin_framework.Rpc.Transport
use wasmi_plugin_framework.Rpc.Transport.{Wire}
use wasmi_plugin_framework.Rpc.Lines.{print, next_of, Lines, stay}
use wasmi_plugin_framework.Rpc.PluginServer.Serves.{IsAsked}
use wasmi_plugin_framework.TestPlugin.Main.{Values, System, LongHandlers, main}
use wasmi_plugin_framework.TestPlugin.Main.Routes.{main_answers}

abbrev asks_time : RpcRequest ℕ
asks_time = record { jsonrpc = "2.0"; id = 7; method = "get_time"; params = 0 }

-- Every line is the request for the time.
instance abbrev clock_wire : Wire ℕ (List Bytes) Bytes
clock_wire = record {
  from_str = λ line. some (rpc_request asks_time);
  to_string = λ m. some (print m);
  trim = λ bytes. bytes;
  read_line = next_of;
  write_all = λ w bytes. (true, w ++ bytes);
  flush = λ w. (true, w);
}

abbrev asked : Lines
asked = Transport.new ((9 ∷ []) ∷ []) []

abbrev read_asked : Lines
read_asked = Transport.new [] []

abbrev is_null : ℕ → Option (Unit {0})
is_null zero = some tt
is_null (suc n) = none

abbrev numbers : Values ℕ
numbers = record {
  text = λ s. 1;
  number = λ n. n;
  null = 0;
  as_unit = is_null;
  as_u64 = λ v. some v;
}

abbrev system : System Lines
system = record { random = 4; seconds = some 60; sleep = λ ms t. t }

abbrev long : LongHandlers ℕ Lines
long = record { many_echo = λ limit t. (ok tt, t); prime_sieve = λ limit t. (ok 0, t) }

asks :
    IsAsked asked
      (9 ∷ [])
      (1 ∷ 7 ∷ 60 ∷ [])
      []
      (1 ∷ 7 ∷ 60 ∷ b'\n' ∷ [])
      asks_time
      (ok 60)
      read_asked
asks = record {
  n = 0;
  line_read = refl;
  parsed = refl;
  printed = refl;
  written = record { between = 1 ∷ 7 ∷ 60 ∷ b'\n' ∷ []; written = refl; flushed = refl };
}

main_answers_example :
    main numbers system long ((9 ∷ []) ∷ []) [] stay 1
    ≡ some (record read_asked { writer = 1 ∷ 7 ∷ 60 ∷ b'\n' ∷ [] })
main_answers_example =
    main_answers numbers system long ((9 ∷ []) ∷ []) [] stay 0 read_asked (9 ∷ []) (1 ∷ 7 ∷ 60 ∷ [])
      [] (1 ∷ 7 ∷ 60 ∷ b'\n' ∷ []) asks_time (ok 60) asks refl
