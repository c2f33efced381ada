-- ===== src/Plugin/Join/Rounds.antt =====
-- Rounds of polls, by what the three futures answer.
use wasmi_plugin_framework.Base.{ℕ, suc, ◌≡◌, refl, some}
use wasmi_plugin_framework.Pipe.{ready, pending}
use wasmi_plugin_framework.Plugin.Join.{Future, started, join}

module _ {S A B C : Type 0} (p : Future S A) (q : Future S B) (r : Future S C) (wake : S → S) where
  -- None is done.
  pub join_goes_on :
      (fuel : ℕ) (s s1 s2 s3 : S)
      → p s ≡ (pending, s1)
      → q s1 ≡ (pending, s2)
      → r s2 ≡ (pending, s3)
      → join p q r wake (suc fuel) started s ≡ join p q r wake fuel started (wake s3)
  unfolding join
  join_goes_on fuel s s1 s2 s3 e1 e2 e3 = rw (e1, e2, e3) refl

  -- The second and the third are done, and the first is in the round after.
  pub join_ends :
      (fuel : ℕ) (s s1 s2 s3 s4 : S) (a : A) (b : B) (c : C)
      → p s ≡ (pending, s1)
      → q s1 ≡ (ready b, s2)
      → r s2 ≡ (ready c, s3)
      → p (wake s3) ≡ (ready a, s4)
      → join p q r wake (suc (suc fuel)) started s ≡ some ((a, b, c), s4)
  unfolding join
  join_ends fuel s s1 s2 s3 s4 a b c e1 e2 e3 e4 = rw (e1, e2, e3, e4) refl
