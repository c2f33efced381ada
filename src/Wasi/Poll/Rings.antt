-- ===== src/Wasi/Poll/Rings.antt =====
-- What `poll_oneoff` does for the clock that it chooses.
use wasmi_plugin_framework.Base.{
  ℕ, zero, suc, ◌+◌, ◌-◌, ◌%◌, ◌^◌, ◌≤◌, ◌≡◌, refl, sym, ◌∙◌, subst, Option, none, some, List, [],
  ◌∷◌, ◌++◌, append-nil, append_assoc, length-append, replicate, length, ltb, arith, if◌then◌else◌,
  Bool-cases, inl, inr, ℤ, pos_part, as_usize,
}
use wasmi_plugin_framework.Bytes.{to_le, length-to_le}
use wasmi_plugin_framework.Memory.{GuestMemory}
use wasmi_plugin_framework.Memory.Words.{when-some}
use wasmi_plugin_framework.Wasi.Context.{success, inval}
use wasmi_plugin_framework.Wasi.Caller.{Caller, next, returned, finish, record_addr}
use wasmi_plugin_framework.Wasi.Poll.{
  Clock, parse_subscription, push, subscriptions, resolve, resolve_all, min_by_deadline, ring,
  event, wait_earliest, poll_oneoff,
}
use wasmi_plugin_framework.Wasi.Poll.Asked.{
  listed, asked_at, asked, asked_at_lem, all_due, resolve_all-all_due,
}
use wasmi_plugin_framework.Wasi.Poll.Earliest.{IsEarliest, IsFirst, min_by_deadline_lem}

-- The event names the clock that rang: its user data, no error, the clock type, no more.
event_lem : (userdata : ℕ) → event userdata ≡ to_le 8 userdata ++ replicate 24 0
unfolding event to_le
event_lem userdata = refl

push-listed : (subs : List Clock) (o : Option Clock) → push subs o ≡ subs ++ listed o
push-listed subs none = sym (append-nil subs)
push-listed subs (some sub) = refl

module _ {M R W : Type 0} ⦃mem : GuestMemory M⦄ where
  subscriptions_lem :
      (rounds i p : ℕ) (acc subs : List Clock) (c : Caller M R W) (m : M)
      → c.memory ≡ some m
      → asked m rounds i p ≡ some subs
      → subscriptions rounds i p acc c ≡ next (acc ++ subs) c
  unfolding subscriptions asked
  subscriptions_lem zero i p acc subs c m e h = ground (arith, append-nil acc)
  subscriptions_lem (suc rounds) i p acc subs c m e h =
      let (bytes, er, k) = when-some (mem.read m (record_addr p 48 i) 48) _ h in
      let (one, eo, k1) = when-some (asked_at m (record_addr p 48 i)) _ k in
      let same : one ≡ parse_subscription bytes =
        cc (eo, asked_at_lem m (record_addr p 48 i) bytes er) in
      let (rest, es, k2) = when-some (asked m rounds (i + 1) p) _ k1 in
      ground (
        arith,
        er,
        k2,
        same,
        subscriptions_lem rounds (i + 1) p (push acc (parse_subscription bytes)) rest c m e es,
        push-listed acc (parse_subscription bytes),
        append_assoc acc (listed (parse_subscription bytes)) rest,
      )

  -- The caller when the call returns: asleep and without fuel if the deadline is still to come.
  abbrev pub rung : ℕ → ℕ → ℕ → M → Caller M R W → Caller M R W
  rung now_ns instant deadline m c = record c {
    ctx = record (c.ctx) {
      sleep_until =
          if ltb now_ns deadline then some (instant + (deadline - now_ns)) else c.ctx.sleep_until;
    };
    memory = some m;
    fuel = if ltb now_ns deadline then 0 else c.fuel;
  }

  ring_lem :
      (now_ns instant : ℕ) (events_ptr result_ptr : ℤ) (sub : Clock) (c : Caller M R W)
      (m m1 m' : M)
      → c.memory ≡ some m
      → mem.write m (as_usize events_ptr) (event sub.userdata) ≡ some m1
      → mem.write m1 (as_usize result_ptr) (to_le 4 1) ≡ some m'
      → ring now_ns instant events_ptr result_ptr sub c
        ≡ next success (rung now_ns instant sub.deadline m' c)
  unfolding ring
  ring_lem now_ns instant events_ptr result_ptr sub c m m1 m' e e1 e2 =
      elim (Bool-cases (ltb now_ns sub.deadline)) [
        | inl future ↦ rw future (ground arith)
        | inr past ↦ rw past (ground arith)
      ]

  poll_run :
      (now : Option ℕ) (instant : ℕ) (subs_ptr events_ptr nsubs result_ptr : ℤ) (c : Caller M R W)
      (m : M) (sub : Clock) (subs : List Clock)
      → c.memory ≡ some m
      → asked m (pos_part nsubs) 0 (as_usize subs_ptr) ≡ some (sub ∷ subs)
      → poll_oneoff now instant subs_ptr events_ptr nsubs result_ptr c
        ≡ finish (wait_earliest now instant events_ptr result_ptr (sub ∷ subs) c)
  unfolding poll_oneoff asked
  poll_run now instant subs_ptr events_ptr nsubs result_ptr c m sub subs e h =
      ground
        (arith, subscriptions_lem (pos_part nsubs) 0 (as_usize subs_ptr) [] (sub ∷ subs) c m e h)

  wait_run :
      (now_ns instant : ℕ) (events_ptr result_ptr : ℤ) (sub : Clock) (subs : List Clock)
      (c : Caller M R W)
      → wait_earliest (some now_ns) instant events_ptr result_ptr (sub ∷ subs) c
        ≡ ring
            (now_ns % 2 ^ 64)
            instant
            events_ptr
            result_ptr
            (min_by_deadline (resolve (now_ns % 2 ^ 64) sub) (resolve_all (now_ns % 2 ^ 64) subs))
            c
  unfolding wait_earliest
  wait_run now_ns instant events_ptr result_ptr sub subs c = refl

  -- What a call that rang a clock has done.
  pub record HasRung (now instant : ℕ) (subs_ptr events_ptr nsubs result_ptr : ℤ) (c : Caller M R W)
      (m : M) (subs : List Clock) : Type 0 where
    pub earliest : Clock
    pub m1 : M
    pub m' : M
    pub is_earliest : IsEarliest earliest (all_due (now % 2 ^ 64) subs)
    pub is_first : IsFirst earliest (all_due (now % 2 ^ 64) subs)
    pub event_written :
        mem.write m (as_usize events_ptr) (to_le 8 earliest.userdata ++ replicate 24 0) ≡ some m1
    pub count_written : mem.write m1 (as_usize result_ptr) (to_le 4 1) ≡ some m'
    pub run :
        poll_oneoff (some now) instant subs_ptr events_ptr nsubs result_ptr c
        ≡ returned success (rung (now % 2 ^ 64) instant earliest.deadline m' c)

  -- Where the guest's records ask for a known clock at least, and the event and the result are in
  -- bounds, `poll_oneoff` returns success with one event: that of the first of the clocks asked for
  -- whose time is the least, where an absolute timeout is that time and a relative one is counted
  -- from now, up to the end of 64 bits. If that time is still to come, the guest is left without
  -- fuel, to sleep until exactly then; if not, its fuel and its sleep are as before.
  pub poll_oneoff_rings :
      (now instant : ℕ) (subs_ptr events_ptr nsubs result_ptr : ℤ) (c : Caller M R W) (m : M)
      (sub : Clock) (subs : List Clock)
      → c.memory ≡ some m
      → asked m (pos_part nsubs) 0 (as_usize subs_ptr) ≡ some (sub ∷ subs)
      → as_usize events_ptr + 32 ≤ mem.size m
      → as_usize result_ptr + 4 ≤ mem.size m
      → HasRung now instant subs_ptr events_ptr nsubs result_ptr c m (sub ∷ subs)
  poll_oneoff_rings now instant subs_ptr events_ptr nsubs result_ptr c m sub subs e h room0 room1 =
      first_write (mem.write_in m (as_usize events_ptr) (event chosen.userdata) fits)
    where
      now_ns : ℕ
      now_ns = now % 2 ^ 64

      chosen : Clock
      chosen = min_by_deadline (resolve now_ns sub) (resolve_all now_ns subs)

      fits : as_usize events_ptr + length (event chosen.userdata) ≤ mem.size m
      fits = rw (event_lem, length-append, length-to_le) room0

      choice :
          IsEarliest chosen (all_due now_ns (sub ∷ subs))
          × IsFirst chosen (all_due now_ns (sub ∷ subs))
      choice =
          subst (λ l. IsEarliest chosen l × IsFirst chosen l)
            (resolve_all-all_due now_ns (sub ∷ subs))
            (unfold resolve_all in
              min_by_deadline_lem (resolve now_ns sub) (resolve_all now_ns subs))

      second_write :
          (m1 : M)
          → mem.write m (as_usize events_ptr) (event chosen.userdata) ≡ some m1
          → (m' : M) × (mem.write m1 (as_usize result_ptr) (to_le 4 1) ≡ some m')
          → HasRung now instant subs_ptr events_ptr nsubs result_ptr c m (sub ∷ subs)
      second_write m1 e1 (m', e2) = record {
        earliest = chosen;
        m1 = m1;
        m' = m';
        is_earliest = choice.0;
        is_first = choice.1;
        event_written = rw event_lem at e1;
        count_written = e2;
        run =
            poll_run (some now) instant subs_ptr events_ptr nsubs result_ptr c m sub subs e h
            ∙ rw (
              wait_run now instant events_ptr result_ptr sub subs c,
              ring_lem now_ns instant events_ptr result_ptr chosen c m m1 m' e e1 e2,
            );
      }

      first_write :
          (m1 : M) × (mem.write m (as_usize events_ptr) (event chosen.userdata) ≡ some m1)
          → HasRung now instant subs_ptr events_ptr nsubs result_ptr c m (sub ∷ subs)
      first_write (m1, e1) = second_write m1 e1 (
          mem.write_in m1 (as_usize result_ptr) (to_le 4 1)
            (omega (arith, length-to_le 4 1, mem.size-write m (as_usize events_ptr) _ m1 e1)))

  -- Where the guest's records are in bounds and none of them asks for the realtime or the monotonic
  -- clock, whatever else they ask for, `poll_oneoff` returns `Inval` and does nothing.
  pub poll_oneoff_refuses :
      (now : Option ℕ) (instant : ℕ) (subs_ptr events_ptr nsubs result_ptr : ℤ) (c : Caller M R W)
      (m : M)
      → c.memory ≡ some m
      → asked m (pos_part nsubs) 0 (as_usize subs_ptr) ≡ some []
      → poll_oneoff now instant subs_ptr events_ptr nsubs result_ptr c ≡ returned inval c
  unfolding poll_oneoff
  poll_oneoff_refuses now instant subs_ptr events_ptr nsubs result_ptr c m e h =
      ground (arith, subscriptions_lem (pos_part nsubs) 0 (as_usize subs_ptr) [] [] c m e h)
