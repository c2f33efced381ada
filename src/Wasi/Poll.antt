-- ===== src/Wasi/Poll.antt =====
-- `poll_oneoff`: waits for the earliest of the guest's clock subscriptions.
pub mod Earliest
pub mod Asked
pub mod Rings
mod Tests
use wasmi_plugin_framework.Base.{
  ℕ, zero, suc, ◌+◌, ◌-◌, ◌%◌, ◌^◌, min, bit_and, Bool, true, false, not, Option, none, some, List,
  [], ◌∷◌, ◌++◌, ltb, ◌==◌, get_or, take, drop, replicate, if◌then◌else◌, ℤ, pos_part, as_usize,
}
use wasmi_plugin_framework.Bytes.{Bytes, to_le, from_le}
use wasmi_plugin_framework.Memory.{GuestMemory}
use wasmi_plugin_framework.Wasi.Context.{Errno, success, inval, WasiCtx}
use wasmi_plugin_framework.Wasi.Caller.{
  Caller, Flow, next, Action, Outcome, pure, fail, unwrap, ◌>>=◌, ◌>>◌, finish, is_fd,
  expect_memory, record_addr, mem_read, write_or_panic, modify_ctx, set_fuel,
}
use wasmi_plugin_framework.Wasi.Fd.{copy_at}

-- An entry of `clock_subscriptions`.
pub record Clock : Type 0 where
  pub userdata : ℕ
  pub clock_id : ℕ
  pub deadline : ℕ
  pub is_absolute : Bool

-- `bytes[off..off + n]` as a little-endian number.
abbrev pub field : Bytes → ℕ → ℕ → ℕ
field bytes off n = from_le (take n (drop off bytes))

-- The clock subscription in the 48 bytes of a record, if it is one of a known clock.
pub parse_subscription : Bytes → Option Clock
parse_subscription sub_bytes =
    if get_or sub_bytes 8 0 == 0
    then (if ltb 1 (field sub_bytes 16 4)
        then none
        else some (record {
          userdata = field sub_bytes 0 8;
          clock_id = field sub_bytes 16 4;
          deadline = field sub_bytes 24 8;
          is_absolute = not (bit_and (field sub_bytes 40 2) 1 == 0);
        }))
    else none

-- `clock_subscriptions.push(…)`, or `continue`.
abbrev pub push : List Clock → Option Clock → List Clock
push subs none = subs
push subs (some sub) = subs ++ (sub ∷ [])

-- `now_ns.saturating_add`
abbrev pub saturating_add : ℕ → ℕ → ℕ
saturating_add a b = min (a + b) (2 ^ 64 - 1)

-- A relative timeout becomes a deadline.
abbrev pub resolve : ℕ → Clock → Clock
resolve now_ns sub =
    if sub.is_absolute then sub else record sub { deadline = saturating_add now_ns sub.deadline }

pub resolve_all : ℕ → List Clock → List Clock
resolve_all now_ns [] = []
resolve_all now_ns (sub ∷ subs) = resolve now_ns sub ∷ resolve_all now_ns subs

-- `iter().min_by_key(|sub| sub.2)`, by its documentation the first of several minima: `best` is the
-- first of those behind us.
pub min_by_deadline : Clock → List Clock → Clock
min_by_deadline best [] = best
min_by_deadline best (sub ∷ subs) =
    min_by_deadline (if ltb sub.deadline best.deadline then sub else best) subs

-- The 32 bytes of the event for a clock that rang.
pub event : ℕ → Bytes
event userdata =
    let named = copy_at (replicate 32 0) 0 (to_le 8 userdata) in
    let settled = copy_at named 8 (to_le 2 0) in copy_at settled 10 (0 ∷ [])

module _ {M R W : Type 0} ⦃mem : GuestMemory M⦄ where
  -- The rounds that are left, the round's number, `subs_ptr`, the clocks so far.
  pub subscriptions : ℕ → ℕ → ℕ → List Clock → Action M R W (List Clock)
  unfolding parse_subscription
  subscriptions zero i subs_ptr subs = pure subs
  subscriptions (suc rounds) i subs_ptr subs = do
    record_bytes ← mem_read (record_addr subs_ptr 48 i) 48
    sub_bytes ← unwrap record_bytes
    subscriptions rounds (i + 1) subs_ptr (push subs (parse_subscription sub_bytes))

  -- A deadline in the future: the guest sleeps until then, and gives up its fuel.
  abbrev pub wait_for : ℕ → ℕ → ℕ → Action M R W (Unit {0})
  wait_for now_ns instant deadline =
      if ltb now_ns deadline
      then (do
        modify_ctx (λ ctx. record ctx { sleep_until = some (instant + (deadline - now_ns)) })
        set_fuel 0)
      else pure tt

  -- What follows the choice of the subscription.
  pub ring : ℕ → ℕ → ℤ → ℤ → Clock → Action M R W Errno
  ring now_ns instant events_ptr result_ptr earliest = do
    wait_for now_ns instant earliest.deadline
    write_or_panic (as_usize events_ptr) (event earliest.userdata)
    write_or_panic (as_usize result_ptr) (to_le 4 1)
    pure success

  -- The subscriptions that were kept, at the time that the two clocks show: nanoseconds since the
  -- epoch, `none` before it, and the instant.
  pub wait_earliest : Option ℕ → ℕ → ℤ → ℤ → List Clock → Action M R W Errno
  unfolding ring resolve_all min_by_deadline
  wait_earliest now instant events_ptr result_ptr [] = fail inval
  wait_earliest none instant events_ptr result_ptr (sub ∷ subs) = fail inval
  wait_earliest (some now) instant events_ptr result_ptr (sub ∷ subs) =
      let now_ns = now % 2 ^ 64 in
      ring now_ns instant events_ptr result_ptr
        (min_by_deadline (resolve now_ns sub) (resolve_all now_ns subs))

  abbrev poll_body : Option ℕ → ℕ → ℤ → ℤ → ℤ → ℤ → Action M R W Errno
  poll_body now instant subs_ptr events_ptr nsubscriptions result_ptr =
      if is_fd nsubscriptions 0 then fail inval else do
        expect_memory
        subs ← subscriptions (pos_part nsubscriptions) 0 (as_usize subs_ptr) []
        wait_earliest now instant events_ptr result_ptr subs

  pub poll_oneoff : Option ℕ → ℕ → ℤ → ℤ → ℤ → ℤ → Caller M R W → Outcome M R W
  unfolding subscriptions wait_earliest
  poll_oneoff now instant subs_ptr events_ptr nsubscriptions result_ptr c =
      finish (poll_body now instant subs_ptr events_ptr nsubscriptions result_ptr c)
