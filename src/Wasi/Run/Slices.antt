-- ===== src/Wasi/Run/Slices.antt =====
-- What a guest finds when it is resumed, and the end of one that is stopped.
use wasmi_plugin_framework.Base.{
  ℕ, suc, ◌+◌, ◌-◌, ◌*◌, ◌/◌, ◌%◌, ◌^◌, ◌≤◌, if◌then◌else◌, ◌≡◌, refl, ◌∙◌, max, Bool, true, false,
  Option, none, some, ltb, Bool-cases, Option-cases, inl, inr, tests, arith,
}
use wasmi_plugin_framework.Io.{Read}
use wasmi_plugin_framework.Wasi.Context.{stdin_available}
use wasmi_plugin_framework.Wasi.Run.{
  Task, ResumableCall, finished, host_trap, out_of_fuel, RunResult, ok, err, Host, Engine, sleep,
  yield_now, wake_at, resume_error, trapped, await_stdin, await_if, stop_awaiting, prepare,
  after_slice, run_loop,
}

-- The time of a request to sleep, 0 for none.
abbrev pub due : Option ℕ → ℕ
due none = 0
due (some resume_time) = resume_time

-- How much of a wait of `d` nanoseconds the runtime promises: in a browser the whole milliseconds of it,
-- counted in 32 bits, and nothing if they are no i32; elsewhere all.
abbrev pub promised : Bool → ℕ → ℕ
promised true d = let ms = d / 1000000 % 2 ^ 32 in if ltb ms (2 ^ 31) then ms * 1000000 else 0
promised false d = d

promised_le : (on_web : Bool) (d : ℕ) → promised on_web d ≤ d
promised_le true d = elim (Bool-cases (ltb (d / 1000000 % 2 ^ 32) (2 ^ 31))) [
  | inl e ↦ rw (e) (omega arith)
  | inr e ↦ rw (e) (omega arith)
]
promised_le false d = omega arith

module _ {S R W : Type 0} ⦃host : Host S R W⦄ where
  -- The time that a wait for `wanted` comes to at least.
  abbrev pub waited : Option ℕ → Task S R W → ℕ
  waited wanted t = host.now t.world + promised host.on_web (due wanted - host.now t.world)

  sleep-promised :
      (d : ℕ) (t : Task S R W)
      → host.now t.world + promised host.on_web d ≤ host.now (sleep d t).world
  sleep-promised d t = elim (Bool-cases host.on_web) [
    | inl e ↦ rw (e) (host.timeout_waits (d / 1000000 % 2 ^ 32) t)
    | inr e ↦ rw (e) (host.sleep_waits d t)
  ]

  fuel-sleep : (d : ℕ) (t : Task S R W) → (sleep d t).fuel ≡ t.fuel
  fuel-sleep d t = elim (Bool-cases host.on_web) [
    | inl e ↦ rw (e) (host.timeout_fuel (d / 1000000 % 2 ^ 32) t)
    | inr e ↦ rw (e) (host.sleep_fuel d t)
  ]

  -- After the sleep: the fuel that was set, no request, and the time is `until` at least.
  record IsAwake (fuel until : ℕ) (t : Task S R W) : Type 0 where
    fueled : t.fuel ≡ fuel
    settled : t.ctx.sleep_until ≡ none
    slept : until ≤ host.now t.world

  wake_at-IsAwake :
      (wanted : Option ℕ) (t : Task S R W)
      → t.ctx.sleep_until ≡ wanted
      → IsAwake t.fuel (waited wanted t) (wake_at wanted t)
  wake_at-IsAwake none t e = record {
    fueled = refl;
    settled = e;
    slept = omega (arith, promised_le host.on_web (0 - host.now t.world));
  }
  wake_at-IsAwake (some r) t e = elim (Bool-cases (ltb (host.now t.world) r)) [
    | inl b ↦ rw (b) (record {
      fueled = fuel-sleep (r - host.now t.world) t;
      settled = refl;
      slept = sleep-promised (r - host.now t.world) t;
    })
    | inr b ↦ rw (b) (record {
      fueled = refl;
      settled = refl;
      slept = omega (tests, b, promised_le host.on_web (r - host.now t.world));
    })
  ]

  yield_now-IsAwake :
      (fuel until : ℕ) (t : Task S R W) → IsAwake fuel until t → IsAwake fuel until (yield_now t)
  yield_now-IsAwake fuel until t a = elim (Bool-cases host.on_web) [
    | inl e ↦ rw (e) (record {
      fueled = host.timeout_fuel 0 t ∙ a.fueled;
      settled = host.timeout_sleep 0 t ∙ a.settled;
      slept = omega (arith, a.slept, host.timeout_waits 0 t);
    })
    | inr e ↦ rw (e) (record {
      fueled = host.yield_fuel t ∙ a.fueled;
      settled = host.yield_sleep t ∙ a.settled;
      slept = omega (arith, a.slept, host.yield_waits t);
    })
  ]

module _ {S R W : Type 0} ⦃host : Host S R W⦄ ⦃rd : Read R⦄ where
  stdin_available-sleep :
      (t : Task S R W) → (stdin_available t.ctx).1.sleep_until ≡ t.ctx.sleep_until
  unfolding stdin_available
  stdin_available-sleep t = elim (Option-cases t.ctx.stdin_reader) [
    | inl e ↦ rw (e) refl
    | inr (r, e) ↦ rw (e) refl
  ]

  stop_awaiting-IsAwake :
      (fuel until : ℕ) (available : Bool) (t : Task S R W)
      → IsAwake fuel until t
      → IsAwake fuel until (stop_awaiting available t)
  stop_awaiting-IsAwake fuel until true t a = a
  stop_awaiting-IsAwake fuel until false t a =
      let y = yield_now-IsAwake fuel until t a in
      record { fueled = y.fueled; settled = y.settled; slept = y.slept }

  await_if-IsAwake :
      (fuel until : ℕ) (awaiting : Bool) (t : Task S R W)
      → IsAwake fuel until t
      → IsAwake fuel until (await_if awaiting t)
  await_if-IsAwake fuel until true t a =
      let (available, ctx') = stdin_available t.ctx in
      stop_awaiting-IsAwake fuel until available (record t { ctx = ctx' })
        (record {
          fueled = a.fueled;
          settled = stdin_available-sleep t ∙ a.settled;
          slept = a.slept;
        })
  await_if-IsAwake fuel until false t a = a

  -- Before each slice the guest has the fuel that its next step requires and `max_fuel` at least,
  -- its request to sleep is settled, and it has slept: outside of a browser until the time that it
  -- asked for, if any, at least, and in a browser for as many whole milliseconds as there were until
  -- then, counted in 32 bits, if they are an i32.
  pub prepare_lem :
      (max_fuel required : ℕ) (t : Task S R W)
      → ((prepare max_fuel required t).fuel ≡ max required max_fuel)
        × ((prepare max_fuel required t).ctx.sleep_until ≡ none)
        × (host.now t.world + promised host.on_web (due t.ctx.sleep_until - host.now t.world)
            ≤ host.now (prepare max_fuel required t).world)
  unfolding prepare
  prepare_lem max_fuel required t =
      let fuel = max required max_fuel in
      let wanted = t.ctx.sleep_until in
      let topped : Task S R W = record t { fuel = fuel } in
      let awake = wake_at wanted topped in
      let a = yield_now-IsAwake fuel (waited wanted topped) (await_stdin awake) (
        await_if-IsAwake fuel (waited wanted topped) awake.ctx.awaiting_stdin awake
          (wake_at-IsAwake wanted topped refl)) in
      (a.fueled, a.settled, a.slept)

module _ {S R W G X : Type 0} ⦃host : Host S R W⦄ ⦃engine : Engine S R W G X⦄ ⦃rd : Read R⦄ where
  -- When the flag of a guest that is out of fuel is cleared before its next slice begins, the loop
  -- ends with a result after that slice at the latest, whatever the guest does.
  pub killed_stops :
      (max_fuel slices required : ℕ) (g : G) (t : Task S R W)
      → host.is_running (prepare max_fuel required t).world ≡ false
      → (out : RunResult X × Task S R W) × (run_loop max_fuel
            (suc (suc slices))
            (out_of_fuel required g)
            t
          ≡ some out)
  unfolding run_loop
  killed_stops max_fuel slices required g t killed = elim (Bool-cases (host.is_running t.world)) [
    | inl e ↦ rw (e) (sliced (engine.resume g ready) refl)
    | inr e ↦ ((ok, t), rw (e) refl)
  ]
    where
      ready : Task S R W
      ready = prepare max_fuel required t

      stops :
          (call : ResumableCall G X) (t' : Task S R W)
          → host.is_running t'.world ≡ false
          → (out : RunResult X × Task S R W) × (run_loop max_fuel (suc slices) call t' ≡ some out)
      stops finished t' h = ((ok, t'), refl)
      stops (host_trap trap) t' h = ((err (trapped trap), t'), refl)
      stops (out_of_fuel required' g') t' h = ((ok, t'), rw (h) refl)

      sliced :
          (o : Option (ResumableCall G X × Task S R W))
          → engine.resume g ready ≡ o
          → (out : RunResult X × Task S R W) × (after_slice
                (λ call t'. run_loop max_fuel (suc slices) call t')
                o
                (resume_error, ready)
              ≡ some out)
      sliced none e = ((err resume_error, ready), refl)
      sliced (some (call, t')) e = stops call t' (engine.resume_running g ready t' call e ∙ killed)
