-- ===== src/Wasi/Poll/Tests.antt =====
-- `poll_oneoff` at concrete guests.
use wasmi_plugin_framework.Base.{ℕ, ◌≡◌, refl, false, some, [], ◌∷◌, ◌++◌, arith, pos, replicate}
use wasmi_plugin_framework.Bytes.{Bytes, from_le}
use wasmi_plugin_framework.Pipe.{Inner}
use wasmi_plugin_framework.Memory.Linear.{Linear, linear_memory}
use wasmi_plugin_framework.Wasi.Context.{new, inval}
use wasmi_plugin_framework.Wasi.Caller.{Caller, returned}
use wasmi_plugin_framework.Wasi.Guest.{caller, memory_of}
use wasmi_plugin_framework.Wasi.Poll.{Clock, poll_oneoff}
use wasmi_plugin_framework.Wasi.Poll.Asked.{asked, asked_at}
use wasmi_plugin_framework.Wasi.Poll.Rings.{HasRung, poll_oneoff_rings, poll_oneoff_refuses}

-- A subscription of the given type, with user data 5 and a relative timeout of 1000 ns.
abbrev subscription : ℕ → Bytes
subscription kind = 5 ∷ replicate 7 0 ++ (kind ∷ replicate 15 0) ++ (232 ∷ 3 ∷ replicate 22 0)

abbrev asking : ℕ → Caller Linear Inner Inner
asking kind = caller new (memory_of (subscription kind))

abbrev clock : Clock
clock = record { userdata = 5; clock_id = 0; deadline = 1000; is_absolute = false }

asked-clock : asked (memory_of (subscription 0)) 1 0 0 ≡ some (clock ∷ [])
unfolding asked asked_at from_le
asked-clock = refl

asked-fd_read : asked (memory_of (subscription 1)) 1 0 0 ≡ some []
unfolding asked asked_at from_le
asked-fd_read = refl

poll_oneoff_rings_example :
    HasRung 50 7
      (pos 0)
      (pos 64)
      (pos 1)
      (pos 96)
      (asking 0)
      (memory_of (subscription 0))
      (clock ∷ [])
poll_oneoff_rings_example =
    poll_oneoff_rings 50 7 (pos 0) (pos 64) (pos 1) (pos 96) (asking 0) (memory_of (subscription 0))
      clock [] refl asked-clock (omega arith) (omega arith)

poll_oneoff_refuses_example :
    poll_oneoff (some 50) 7 (pos 0) (pos 64) (pos 1) (pos 96) (asking 1) ≡ returned inval (asking 1)
poll_oneoff_refuses_example =
    poll_oneoff_refuses (some 50) 7 (pos 0) (pos 64) (pos 1) (pos 96) (asking 1)
      (memory_of (subscription 1)) refl asked-fd_read
