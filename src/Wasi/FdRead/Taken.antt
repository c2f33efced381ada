-- ===== src/Wasi/FdRead/Taken.antt =====
-- What one read from stdin takes off it.
use wasmi_plugin_framework.Base.{
  ℕ, ◌≤◌, ◌≡◌, ◌≢◌, inl, inr, true, none, some, [], ◌++◌, length, arith, Option-cases,
}
use wasmi_plugin_framework.Bytes.{Bytes}
use wasmi_plugin_framework.Io.{would_block, other, Read}
use wasmi_plugin_framework.Io.Buffered.{remaining, buf_read_ok, buf_read_err}
use wasmi_plugin_framework.Wasi.Context.{Errno, success, again}
use wasmi_plugin_framework.Wasi.Caller.{Caller, next, leave}
use wasmi_plugin_framework.Wasi.FdRead.{stdin_read}

-- The bytes that stdin still holds for the guest.
abbrev pub pending : {M R W : Type 0} ⦃rd : Read R⦄ → Caller M R W → Bytes
pending c = elim c.ctx.stdin_reader [ none ↦ [] | some reader ↦ remaining reader ]

module _ {M R W : Type 0} ⦃rd : Read R⦄ where
  -- What a read that went on has done.
  pub record HasRead (n : ℕ) (c : Caller M R W) (bs : Bytes) (c1 : Caller M R W) : Type 0 where
    pub taken : pending c ≡ bs ++ pending c1
    pub fits : length bs ≤ n
    pub same_memory : c1.memory ≡ c.memory
    pub same_fuel : c1.fuel ≡ c.fuel

  pub stdin_read-next :
      (n : ℕ) (c : Caller M R W) (bs : Bytes) (c1 : Caller M R W)
      → stdin_read n c ≡ next bs c1
      → HasRead n c bs c1
  unfolding stdin_read
  stdin_read-next n c bs c1 h = elim (Option-cases c.ctx.stdin_reader) [
    | inl gone ↦ ground arith
    | inr (reader, e) ↦ ground (arith, buf_read_ok reader n bs)
  ]

  -- A read that left the call took nothing off stdin; one that would have blocked has asked the
  -- host to wait, and has given up the fuel.
  pub stdin_read-leave :
      (n : ℕ) (c : Caller M R W) (e : Errno) (c1 : Caller M R W)
      → stdin_read n c ≡ leave e c1
      → (pending c1 ≡ pending c)
        × (c1.memory ≡ c.memory)
        × (e ≢ success)
        × (e ≡ again → (c1.ctx.awaiting_stdin ≡ true) × (c1.fuel ≡ 0))
  unfolding stdin_read
  stdin_read-leave n c e c1 h = elim (Option-cases c.ctx.stdin_reader) [
    | inl gone ↦ ground arith
    | inr (reader, r) ↦
        ground (arith, buf_read_err reader n would_block, buf_read_err reader n other)
  ]
