-- ===== src/Plugin/Join/Keeps.antt =====
-- What a joined future returns, and when the whole does not return.
use wasmi_plugin_framework.Base.{ℕ, zero, suc, ◌≡◌, refl, ap, Option, none, some, Bool, true}
use wasmi_plugin_framework.Pipe.{pending}
use wasmi_plugin_framework.Plugin.Join.{Future, finished, poll_fused, Joined, all_of, join}

module _ {S A : Type 0} (p : Future S A) (flag : S → Bool) where
  poll_fused-flag :
      ((s : S) → flag s ≡ true → flag (p s).1 ≡ true)
      → (o : Option A) (s : S) → flag s ≡ true
      → flag (poll_fused p o s).1 ≡ true
  poll_fused-flag keeps (some a) s f = f
  poll_fused-flag keeps none s f = keeps s f

  poll_fused-pending :
      ((s : S) → flag s ≡ true → ((p s).0 ≡ pending) × (flag (p s).1 ≡ true))
      → (o : Option A) (s : S) → o ≡ none
      → flag s ≡ true
      → (poll_fused p o s).0 ≡ none
  poll_fused-pending busy (some a) s e f = cc e
  poll_fused-pending busy none s e f = ap finished (busy s f).0

all_of-none :
    {A B C : Type 0} (a : Option A) (b : Option B) (c : Option C) → b ≡ none → all_of a b c ≡ none
all_of-none a (some b) c e = cc e
all_of-none none none c e = refl
all_of-none (some a) none c e = refl

module _ {S A B C : Type 0} (p : Future S A) (q : Future S B) (r : Future S C) (wake : S → S) where
  -- While a condition on the state holds that all else keeps, and under which the second future is
  -- never done, the whole is not done.
  pub join_never :
      (flag : S → Bool)
      → ((s : S) → flag s ≡ true → flag (p s).1 ≡ true)
      → ((s : S) → flag s ≡ true → ((q s).0 ≡ pending) × (flag (q s).1 ≡ true))
      → ((s : S) → flag s ≡ true → flag (r s).1 ≡ true)
      → ((s : S) → flag s ≡ true → flag (wake s) ≡ true)
      → (fuel : ℕ) (j : Joined A B C) (s : S) → j.second ≡ none
      → flag s ≡ true
      → join p q r wake fuel j s ≡ none
  unfolding join
  join_never flag keeps_p keeps_q keeps_r keeps_wake zero j s e f = refl
  join_never flag keeps_p keeps_q keeps_r keeps_wake (suc fuel) j s e f =
      let (a, s1) = poll_fused p j.first s in
      let (b, s2) = poll_fused q j.second s1 in
      let (c, s3) = poll_fused r j.third s2 in
      let f1 : flag s1 ≡ true = poll_fused-flag p flag keeps_p j.first s f in
      let open_ : b ≡ none = poll_fused-pending q flag keeps_q j.second s1 e f1 in
      let f2 : flag s2 ≡ true = poll_fused-flag q flag (λ x y. (keeps_q x y).1) j.second s1 f1 in
      let f3 : flag s3 ≡ true = poll_fused-flag r flag keeps_r j.third s2 f2 in
      rw (all_of-none a b c open_) (
        join_never flag keeps_p keeps_q keeps_r keeps_wake fuel
          (record { first = a; second = b; third = c }) (wake s3) open_ (keeps_wake s3 f3))
