-- ===== src/Rpc/OverPipes/Tests.antt =====
-- A plugin that answers in its third turn.
use wasmi_plugin_framework.Base.{ℕ, ◌≡◌, refl, some, none}
use wasmi_plugin_framework.Rpc.Message.{ok}
use wasmi_plugin_framework.Rpc.Transport.{call}
use wasmi_plugin_framework.Rpc.Transport.Polls.Answered.{answer}
use wasmi_plugin_framework.Rpc.OverPipes.{host_wire, Host, turn, spawned}
use wasmi_plugin_framework.Rpc.OverPipes.RoundTrip.{call_over_pipes}
use wasmi_plugin_framework.Rpc.OverPipes.Sample.{codec, succeed, asked, told}

call_over_pipes_example :
    (t' : Host ℕ) × (call (turn "echo" succeed) 4 none "echo" 5 (spawned 2)
      ≡ some (answer 0 (ok 6), t'))
call_over_pipes_example =
    call_over_pipes "echo" succeed 2 none "echo" 5 (ok 6) asked told (λ g. refl)
