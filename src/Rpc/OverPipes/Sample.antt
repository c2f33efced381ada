-- ===== src/Rpc/OverPipes/Sample.antt =====
-- For the tests, a plugin that adds one, with messages of three bytes.
use wasmi_plugin_framework.Base.{ℕ, ◌+◌, refl, some, [], ◌∷◌}
use wasmi_plugin_framework.Io.Lines.{split_line}
use wasmi_plugin_framework.Rpc.Message.{ok}
use wasmi_plugin_framework.Rpc.Transport.{request, reply}
use wasmi_plugin_framework.Rpc.Lines.{parse, print}
use wasmi_plugin_framework.Rpc.Server.{HandlerFn}
use wasmi_plugin_framework.Rpc.OverPipes.{Codec, Guest}
use wasmi_plugin_framework.Rpc.OverPipes.RoundTrip.{IsCarried}

instance abbrev pub codec : Codec ℕ
codec = record { from_str = parse; to_string = λ m. some (print m); trim = λ bytes. bytes }

abbrev pub succeed : HandlerFn (Unit {0}) ℕ (Guest ℕ)
succeed state p g = (ok (p + 1), g)

pub asked : IsCarried codec (request 0 "echo" 5)
unfolding split_line
asked = record { bytes = 0 ∷ 0 ∷ 5 ∷ []; printed = refl; plain = refl; parsed = refl }

pub told : IsCarried codec (reply 0 (ok 6))
unfolding split_line
told = record { bytes = 1 ∷ 0 ∷ 6 ∷ []; printed = refl; plain = refl; parsed = refl }
