-- ===== src/Plugin/Join/Returns.antt =====
-- What a joined future returns is what its parts have returned.
use wasmi_plugin_framework.Base.{ℕ, zero, suc, ◌≡◌, refl, Option, none, some}
use wasmi_plugin_framework.Pipe.{Poll, ready, pending}
use wasmi_plugin_framework.Plugin.Join.{
  Future, finished, poll_fused, Joined, all_of, after_all, join,
}

module _ {S A : Type 0} where
  -- A result of a future, if there is one, is that of some poll of it.
  abbrev pub IsResult : Future S A → Option A → Type 0
  IsResult p none = Unit
  IsResult p (some a) = (s : S) × ((p s).0 ≡ ready a)

  finished-IsResult : (p : Future S A) (s : S) (o : Poll A) → (p s).0 ≡ o → IsResult p (finished o)
  finished-IsResult p s (ready a) e = (s, e)
  finished-IsResult p s pending e = tt

  poll_fused-IsResult :
      (p : Future S A) (o : Option A) (s : S) → IsResult p o → IsResult p (poll_fused p o s).0
  poll_fused-IsResult p (some a) s h = h
  poll_fused-IsResult p none s h = finished-IsResult p s (p s).0 refl

module _ {S A B C : Type 0} (p : Future S A) (q : Future S B) (r : Future S C) where
  pub record AllResults (j : Joined A B C) : Type 0 where
    pub first : IsResult p j.first
    pub second : IsResult q j.second
    pub third : IsResult r j.third

  abbrev pub ReturnsResults : Option ((A × B × C) × S) → Type 0
  ReturnsResults none = Unit
  ReturnsResults (some ((a, b, c), s)) =
      IsResult p (some a) × IsResult q (some b) × IsResult r (some c)

  after_all-ReturnsResults :
      (again : Joined A B C → S → Option ((A × B × C) × S))
      → ((j : Joined A B C) (s : S) → AllResults j → ReturnsResults (again j s))
      → (wake : S → S) (a : Option A) (b : Option B) (c : Option C) (s : S)
      → AllResults (record { first = a; second = b; third = c })
      → ReturnsResults (
          after_all p q r wake again (all_of a b c) (record { first = a; second = b; third = c }) s)
  after_all-ReturnsResults again ih wake none b c s h = ih _ (wake s) h
  after_all-ReturnsResults again ih wake (some a) none c s h = ih _ (wake s) h
  after_all-ReturnsResults again ih wake (some a) (some b) none s h = ih _ (wake s) h
  after_all-ReturnsResults again ih wake (some a) (some b) (some c) s h =
      (h.first, h.second, h.third)

  pub join-ReturnsResults :
      (wake : S → S) (fuel : ℕ) (j : Joined A B C) (s : S)
      → AllResults j
      → ReturnsResults (join p q r wake fuel j s)
  unfolding join
  join-ReturnsResults wake zero j s h = tt
  join-ReturnsResults wake (suc fuel) j s h =
      let (a, s1) = poll_fused p j.first s in
      let (b, s2) = poll_fused q j.second s1 in
      let (c, s3) = poll_fused r j.third s2 in
      after_all-ReturnsResults (join p q r wake fuel) (join-ReturnsResults wake fuel) wake a b c s3
        (record {
          first = poll_fused-IsResult p j.first s h.first;
          second = poll_fused-IsResult q j.second s1 h.second;
          third = poll_fused-IsResult r j.third s2 h.third;
        })
