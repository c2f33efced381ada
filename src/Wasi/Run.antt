-- ===== src/Wasi/Run.antt =====
-- crates/wasmi-plugin-hdk/src/wasi/wasmi.rs: `run_wasm`, which runs a guest on slices of fuel and
-- gives way to other tasks between them, with `yield_now` and `sleep` of
-- crates/wasmi-plugin-rt/src/lib.rs. The engine and the timers of either target are interfaces.
pub mod Slices
mod Tests
use wasmi_plugin_framework.Base.{
  ℕ, zero, suc, ◌+◌, ◌-◌, ◌*◌, ◌/◌, ◌%◌, ◌^◌, ◌≤◌, ◌≡◌, max, Bool, true, false, Option, none, some,
  ltb, if◌then◌else◌,
}
use wasmi_plugin_framework.Io.{Read}
use wasmi_plugin_framework.Wasi.Context.{WasiCtx, stdin_available}

-- A task that runs a guest: the store's data and fuel, and the world outside, `S`.
pub record Task (S R W : Type 0) : Type 0 where
  pub world : S
  pub ctx : WasiCtx R W
  pub fuel : ℕ

-- `wasmi::ResumableCall`: `G` is a suspended guest, `X` a trap.
pub data ResumableCall (G X : Type 0) : Type 0 where
  finished : ResumableCall G X
  host_trap : X → ResumableCall G X
  out_of_fuel : ℕ → G → ResumableCall G X

pub data RunError (X : Type 0) : Type 0 where
  wasmi_error resume_error : RunError X
  trapped : X → RunError X

pub data RunResult (X : Type 0) : Type 0 where
  ok : RunResult X
  err : RunError X → RunResult X

-- The host: its clock in nanoseconds and the flag of the guest, whether it runs in a browser, and what
-- the futures of the runtime leave when they come back: gloo's `TimeoutFuture`, in milliseconds, and
-- tokio's `sleep` and `yield_now`. Other tasks do not hold the store, so they leave its fuel and the
-- fields of the context that are not streams. A future waits for its time at least, but a browser's
-- timer only where the time is an i32; and time does not go back.
pub record Host (S R W : Type 0) : Type 0 where
  pub now : S → ℕ
  pub is_running : S → Bool
  pub stop : S → S
  pub on_web : Bool
  pub timeout : ℕ → Task S R W → Task S R W
  pub tokio_sleep : ℕ → Task S R W → Task S R W
  pub tokio_yield : Task S R W → Task S R W
  pub stop_stops : (s : S) → is_running (stop s) ≡ false
  pub timeout_waits :
      (ms : ℕ) (t : Task S R W)
      → now t.world + (if ltb ms (2 ^ 31) then ms * 1000000 else 0) ≤ now (timeout ms t).world
  pub timeout_fuel : (ms : ℕ) (t : Task S R W) → (timeout ms t).fuel ≡ t.fuel
  pub timeout_sleep : (ms : ℕ) (t : Task S R W) → (timeout ms t).ctx.sleep_until ≡ t.ctx.sleep_until
  pub sleep_waits : (d : ℕ) (t : Task S R W) → now t.world + d ≤ now (tokio_sleep d t).world
  pub sleep_fuel : (d : ℕ) (t : Task S R W) → (tokio_sleep d t).fuel ≡ t.fuel
  pub yield_waits : (t : Task S R W) → now t.world ≤ now (tokio_yield t).world
  pub yield_fuel : (t : Task S R W) → (tokio_yield t).fuel ≡ t.fuel
  pub yield_sleep : (t : Task S R W) → (tokio_yield t).ctx.sleep_until ≡ t.ctx.sleep_until

-- The engine: `none` is an error. A guest has no way to the flag `is_running`.
pub record Engine (S R W G X : Type 0) ⦃host : Host S R W⦄ : Type 0 where
  pub call_resumable : Task S R W → Option (ResumableCall G X × Task S R W)
  pub resume : G → Task S R W → Option (ResumableCall G X × Task S R W)
  pub resume_running :
      (g : G) (t t' : Task S R W) (c : ResumableCall G X)
      → resume g t ≡ some (c, t')
      → host.is_running t'.world ≡ host.is_running t.world

abbrev pub max_fuel_default : ℕ
max_fuel_default = 100000

abbrev pub unwrap_or : Option ℕ → ℕ
unwrap_or none = max_fuel_default
unwrap_or (some max_fuel) = max_fuel

-- crates/wasmi-plugin-rt/src/lib.rs.
module _ {S R W : Type 0} ⦃host : Host S R W⦄ where
  abbrev pub yield_now : Task S R W → Task S R W
  yield_now t = if host.on_web then host.timeout 0 t else host.tokio_yield t

  -- `dur.as_millis() as u32` in a browser.
  abbrev pub sleep : ℕ → Task S R W → Task S R W
  sleep dur t =
      if host.on_web then host.timeout (dur / 1000000 % 2 ^ 32) t else host.tokio_sleep dur t

module _ {S R W : Type 0} ⦃host : Host S R W⦄ where
  -- `sleep_until = None`
  abbrev pub clear_sleep : Task S R W → Task S R W
  clear_sleep t = record t { ctx = record (t.ctx) { sleep_until = none } }

  -- A request to sleep.
  abbrev pub wake_at : Option ℕ → Task S R W → Task S R W
  wake_at none t = t
  wake_at (some resume_time) t =
      if ltb (host.now t.world) resume_time
      then clear_sleep (sleep (resume_time - host.now t.world) t)
      else clear_sleep t

module _ {S R W : Type 0} ⦃host : Host S R W⦄ ⦃rd : Read R⦄ where
  abbrev pub stop_awaiting : Bool → Task S R W → Task S R W
  stop_awaiting true t = t
  stop_awaiting false t =
      let t' = yield_now t in record t' { ctx = record (t'.ctx) { awaiting_stdin = false } }

  -- A request to wait for stdin: one more yield, if nothing is there to read.
  abbrev pub await_if : Bool → Task S R W → Task S R W
  await_if true t =
      let (available, ctx') = stdin_available t.ctx in
      stop_awaiting available (record t { ctx = ctx' })
  await_if false t = t

  abbrev pub await_stdin : Task S R W → Task S R W
  await_stdin t = await_if t.ctx.awaiting_stdin t

  -- All that comes between a slice and the next.
  pub prepare : ℕ → ℕ → Task S R W → Task S R W
  unfolding stdin_available
  prepare max_fuel required t =
      let topped : Task S R W = record t { fuel = max required max_fuel } in
      yield_now (await_stdin (wake_at topped.ctx.sleep_until topped))

module _ {S R W G X : Type 0} ⦃host : Host S R W⦄ ⦃engine : Engine S R W G X⦄ ⦃rd : Read R⦄ where
  abbrev pub after_slice :
      (ResumableCall G X → Task S R W → Option (RunResult X × Task S R W))
      → Option (ResumableCall G X × Task S R W)
      → RunError X × Task S R W
      → Option (RunResult X × Task S R W)
  after_slice again none (e, t) = some (err e, t)
  after_slice again (some (call, t')) failure = again call t'

  -- The loop of `run_wasm`; `none` is the end of the fuel that counts the slices.
  pub run_loop : ℕ → ℕ → ResumableCall G X → Task S R W → Option (RunResult X × Task S R W)
  unfolding prepare
  run_loop max_fuel zero call t = none
  run_loop max_fuel (suc slices) finished t = some (ok, t)
  run_loop max_fuel (suc slices) (host_trap trap) t = some (err (trapped trap), t)
  run_loop max_fuel (suc slices) (out_of_fuel required g) t =
      if host.is_running t.world
      then after_slice (λ call t'. run_loop max_fuel slices call t')
          (engine.resume g (prepare max_fuel required t))
          (resume_error, prepare max_fuel required t)
      else some (ok, t)

module _ {S R W X : Type 0} ⦃host : Host S R W⦄ where
  -- The end of `spawn_wasm`'s task: the result is only logged.
  abbrev pub stopped : Option (RunResult X × Task S R W) → Option (Task S R W)
  stopped none = none
  stopped (some (result, t)) = some (record t { world = host.stop t.world })

module _ {S R W G X : Type 0} ⦃host : Host S R W⦄ ⦃rd : Read R⦄ where
  pub run_wasm : Engine S R W G X → ℕ → Option ℕ → Task S R W → Option (RunResult X × Task S R W)
  unfolding run_loop
  run_wasm engine slices max_fuel t =
      let begun : Task S R W = record t { fuel = 0 } in
      after_slice ⦃engine = engine⦄
        (λ call t'. run_loop ⦃engine = engine⦄ (unwrap_or max_fuel) slices call t')
        (engine.call_resumable begun) (wasmi_error, begun)

  pub spawn_wasm : Engine S R W G X → ℕ → Option ℕ → Task S R W → Option (Task S R W)
  unfolding run_wasm
  spawn_wasm engine slices max_fuel t = stopped (run_wasm engine slices max_fuel t)
