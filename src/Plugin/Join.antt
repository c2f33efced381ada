-- ===== src/Plugin/Join.antt =====
-- `futures::join!` of three fused futures, as its documentation describes it, over the state `S` that
-- the futures share: every poll of the whole polls those that are not done, in their order, and the
-- whole is done once all three are.
pub mod Keeps
pub mod Returns
pub mod Rounds
use wasmi_plugin_framework.Base.{ℕ, zero, suc, Option, none, some}
use wasmi_plugin_framework.Pipe.{Poll, ready, pending}

abbrev pub Future : (S A : Type 0) → Type 0
Future S A = S → Poll A × S

module _ {A : Type 0} where
  abbrev pub finished : Poll A → Option A
  finished (ready a) = some a
  finished pending = none

module _ {S A : Type 0} where
  abbrev pub poll_fused : Future S A → Option A → S → Option A × S
  poll_fused future (some a) s = (some a, s)
  poll_fused future none s = let (r, s') = future s in (finished r, s')

-- What the futures have returned so far.
pub record Joined (A B C : Type 0) : Type 0 where
  pub first : Option A
  pub second : Option B
  pub third : Option C

module _ {A B C : Type 0} where
  abbrev pub started : Joined A B C
  started = record { first = none; second = none; third = none }

  abbrev pub all_of : Option A → Option B → Option C → Option (A × B × C)
  all_of (some a) (some b) (some c) = some (a, b, c)
  all_of none b c = none
  all_of (some a) none c = none
  all_of (some a) (some b) none = none

module _ {S A B C : Type 0} (p : Future S A) (q : Future S B) (r : Future S C) (wake : S → S) where
  abbrev pub poll_all : Joined A B C → S → Joined A B C × S
  poll_all j s =
      let (a, s1) = poll_fused p j.first s in
      let (b, s2) = poll_fused q j.second s1 in
      let (c, s3) = poll_fused r j.third s2 in (record { first = a; second = b; third = c }, s3)

  abbrev pub after_all :
      (Joined A B C → S → Option ((A × B × C) × S))
      → Option (A × B × C)
      → Joined A B C
      → S
      → Option ((A × B × C) × S)
  after_all again (some out) j s = some (out, s)
  after_all again none j s = again j (wake s)

  -- `wake` is what happens until the task is woken; the fuel counts its polls.
  unfoldable pub join : ℕ → Joined A B C → S → Option ((A × B × C) × S)
  join zero j s = none
  join (suc fuel) j s =
      let (j', s') = poll_all j s in
      after_all (join fuel) (all_of j'.first j'.second j'.third) j' s'
