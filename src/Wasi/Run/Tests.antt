-- ===== src/Wasi/Run/Tests.antt =====
-- A host whose clock is its world and which clears the flag at time 10, and a guest that never ends.
use wasmi_plugin_framework.Base.{
  ℕ, ◌+◌, ◌-◌, ◌*◌, false, ◌≤◌, ◌≡◌, refl, ap, max, true, false, none, some, ltb, arith,
}
use wasmi_plugin_framework.Pipe.{Inner}
use wasmi_plugin_framework.Pipe.Stream.{pipe_reader}
use wasmi_plugin_framework.Wasi.Context.{new, stdin_available}
use wasmi_plugin_framework.Wasi.Run.{Task, out_of_fuel, RunResult, Host, Engine, prepare, run_loop}
use wasmi_plugin_framework.Wasi.Run.Slices.{promised, prepare_lem, killed_stops}

abbrev GuestTask : Type 0
GuestTask = Task ℕ Inner Inner

ltb-max : (s : ℕ) → ltb (max s 10) 10 ≡ false
ltb-max s = ground arith

instance abbrev clock_host : Host ℕ Inner Inner
clock_host = record {
  now = λ s. s;
  is_running = λ s. ltb s 10;
  stop = λ s. max s 10;
  on_web = false;
  timeout = λ ms t. record t { world = t.world + ms * 1000000 };
  tokio_sleep = λ d t. record t { world = t.world + d };
  tokio_yield = λ t. record t { world = t.world + 1 };
  stop_stops = ltb-max;
  timeout_waits = λ ms t. ground arith;
  timeout_fuel = λ ms t. refl;
  timeout_sleep = λ ms t. refl;
  sleep_waits = λ d t. omega arith;
  sleep_fuel = λ d t. refl;
  yield_waits = λ t. omega arith;
  yield_fuel = λ t. refl;
  yield_sleep = λ t. refl;
}

instance abbrev spinning : Engine ℕ Inner Inner (Unit {0}) (Unit {0})
spinning = record {
  call_resumable = λ t. some (out_of_fuel 1 tt, t);
  resume = λ g t. some (out_of_fuel 1 tt, t);
  resume_running = λ g t t' c h. let same : t' ≡ t = cc h in ap (λ x. ltb x.world 10) same;
}

-- The guest waits for stdin, and asked to sleep until `n`.
abbrev sleepy : ℕ → GuestTask
sleepy n = record {
  world = 3;
  ctx = record new { sleep_until = some n; awaiting_stdin = true };
  fuel = 0;
}

prepare_lem_example :
    ((prepare 100000 20 (sleepy 7)).fuel ≡ 100000)
    × ((prepare 100000 20 (sleepy 7)).ctx.sleep_until ≡ none)
    × (3 + promised false (7 - 3) ≤ (prepare 100000 20 (sleepy 7)).world)
prepare_lem_example = prepare_lem 100000 20 (sleepy 7)

prepare-sleepy : ltb (prepare 100000 1 (sleepy 9)).world 10 ≡ false
unfolding prepare stdin_available
prepare-sleepy = refl

killed_stops_example :
    (out : RunResult (Unit {0}) × GuestTask) × (run_loop 100000 2 (out_of_fuel 1 tt) (sleepy 9)
      ≡ some out)
killed_stops_example = killed_stops 100000 0 1 tt (sleepy 9) prepare-sleepy
