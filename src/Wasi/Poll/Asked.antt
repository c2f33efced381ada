-- ===== src/Wasi/Poll/Asked.antt =====
-- What the guest asks for, read from its memory: a subscription of WASI preview 1 is 48 bytes, with the
-- type at 8, and for a clock, type 0, its id at 16, the timeout at 24 and the flags at 40, the lowest of
-- which says that the timeout is a point in time. The clocks 0 and 1 are known.
use wasmi_plugin_framework.Base.{
  ℕ, zero, suc, ◌+◌, ◌-◌, ◌^◌, ◌≡◌, refl, subst, min, bit_and, not, Bool, true, false, Option, none,
  some, List, [], ◌∷◌, ◌++◌, ◌==◌, ◌&&◌, ◌||◌, ltb, get_or, take, drop, arith, if◌then◌else◌,
  Bool-cases, inl, inr,
}
use wasmi_plugin_framework.Bytes.{Bytes, from_le}
use wasmi_plugin_framework.Memory.{GuestMemory}
use wasmi_plugin_framework.Memory.Words.{when}
use wasmi_plugin_framework.Memory.Slices.{read_part}
use wasmi_plugin_framework.Wasi.Caller.{record_addr}
use wasmi_plugin_framework.Wasi.Poll.{Clock, field, parse_subscription, resolve, resolve_all}

abbrev pub listed : Option Clock → List Clock
listed none = []
listed (some sub) = sub ∷ []

module _ {M : Type 0} ⦃mem : GuestMemory M⦄ where
  -- The little-endian number in the `n` bytes at `p`.
  abbrev pub number_at : M → ℕ → ℕ → Option ℕ
  number_at m p n = when (mem.read m p n) λ bytes. some (from_le bytes)

  -- The clock subscription at `p`, if it is one of a known clock.
  unfoldable pub asked_at : M → ℕ → Option (Option Clock)
  asked_at m p = when (number_at m p 8) λ userdata. when (number_at m (p + 8) 1) λ kind.
      when (number_at m (p + 16) 4) λ clock_id. when (number_at m (p + 24) 8) λ timeout.
        when (number_at m (p + 40) 2) λ flags. some (
          if (kind == 0) && ((clock_id == 0) || (clock_id == 1))
          then some (record {
            userdata = userdata;
            clock_id = clock_id;
            deadline = timeout;
            is_absolute = not (bit_and flags 1 == 0);
          })
          else none)

  -- All that the guest asks for; `none` if a record is out of bounds.
  unfoldable pub asked : M → ℕ → ℕ → ℕ → Option (List Clock)
  asked m zero i subs_ptr = some []
  asked m (suc rounds) i subs_ptr =
      let rest = asked m rounds (i + 1) subs_ptr in
      when (mem.read m (record_addr subs_ptr 48 i) 48) λ bytes.
        when (asked_at m (record_addr subs_ptr 48 i))
          λ one. when rest λ subs. some (listed one ++ subs)

-- The point in time that a timeout means.
abbrev pub time_at : ℕ → Bool → ℕ → ℕ
time_at now true timeout = timeout
time_at now false timeout = min (now + timeout) (2 ^ 64 - 1)

abbrev pub due : ℕ → Clock → Clock
due now sub = record sub { deadline = time_at now sub.is_absolute sub.deadline }

abbrev pub all_due : ℕ → List Clock → List Clock
all_due now [] = []
all_due now (sub ∷ subs) = due now sub ∷ all_due now subs

resolve-due : (now : ℕ) (sub : Clock) → resolve now sub ≡ due now sub
resolve-due now sub = elim (Bool-cases sub.is_absolute) [
  | inl e ↦ rw (e) refl
  | inr e ↦ rw (e) refl
]

pub resolve_all-all_due : (now : ℕ) (subs : List Clock) → resolve_all now subs ≡ all_due now subs
unfolding resolve_all
resolve_all-all_due now [] = refl
resolve_all-all_due now (sub ∷ subs) = rw (resolve-due now sub, resolve_all-all_due now subs) refl

get_or-drop : (k : ℕ) (bytes : Bytes) → get_or bytes k 0 ≡ from_le (take 1 (drop k bytes))
unfolding from_le
get_or-drop zero [] = refl
get_or-drop zero (b ∷ bytes) = omega arith
get_or-drop (suc k) [] = refl
get_or-drop (suc k) (b ∷ bytes) = get_or-drop k bytes

known_lem : (id : ℕ) → ltb 1 id ≡ not ((id == 0) || (id == 1))
known_lem id = ground arith

guards_lem :
    (a b : Bool) (o : Option Clock)
    → (if a then (if not b then none else o) else none) ≡ (if a && b then o else none)
guards_lem true true o = refl
guards_lem true false o = refl
guards_lem false b o = refl

-- The record's subscription, from its bytes.
parse_lem :
    (bytes : Bytes)
    → parse_subscription bytes ≡ (
        if (from_le (take 1 (drop 8 bytes)) == 0)
          && ((field bytes 16 4 == 0) || (field bytes 16 4 == 1))
        then some (record {
          userdata = field bytes 0 8;
          clock_id = field bytes 16 4;
          deadline = field bytes 24 8;
          is_absolute = not (bit_and (field bytes 40 2) 1 == 0);
        })
        else none)
unfolding parse_subscription
parse_lem bytes =
    rw (get_or-drop 8 bytes, known_lem (field bytes 16 4))
      (guards_lem (from_le (take 1 (drop 8 bytes)) == 0)
        ((field bytes 16 4 == 0) || (field bytes 16 4 == 1)) _)

module _ {M : Type 0} ⦃mem : GuestMemory M⦄ where
  pub asked_at_lem :
      (m : M) (p : ℕ) (bytes : Bytes)
      → mem.read m p 48 ≡ some bytes
      → asked_at m p ≡ some (parse_subscription bytes)
  unfolding asked_at
  asked_at_lem m p bytes e =
      let e0 : mem.read m p 8 ≡ some (take 8 (drop 0 bytes)) =
        subst (λ o. mem.read m o 8 ≡ some (take 8 (drop 0 bytes))) (omega arith)
          (read_part m p 0 8 40 bytes e) in
      rw
        (
          e0,
          read_part m p 8 1 39 bytes e,
          read_part m p 16 4 28 bytes e,
          read_part m p 24 8 16 bytes e,
          read_part m p 40 2 6 bytes e,
          parse_lem bytes,
        )
        refl
