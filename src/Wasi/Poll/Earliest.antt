-- ===== src/Wasi/Poll/Earliest.antt =====
-- The choice of `poll_oneoff`: the first of the clocks with the least deadline.
use wasmi_plugin_framework.Base.{
  ◌≤◌, ◌<◌, ◌≡◌, refl, ◌⊎◌, inl, inr, Bool, true, false, List, [], ◌∷◌, All, ltb, arith,
  if◌then◌else◌,
}
use wasmi_plugin_framework.Wasi.Poll.{Clock, min_by_deadline}

-- No clock of the list is due before `sub`.
abbrev pub IsEarliest : Clock → List Clock → Type 0
IsEarliest sub subs = All (λ s. sub.deadline ≤ s.deadline) subs

-- `sub` is one of the list, and due strictly before those that stand in front of it.
abbrev pub IsFirst : Clock → List Clock → Type 0
IsFirst sub [] = ⊥
IsFirst sub (x ∷ xs) = (sub ≡ x) ⊎ ((sub.deadline < x.deadline) × IsFirst sub xs)

-- `sub` is what the search may answer with `best` behind it and `subs` ahead.
record IsChoice (best : Clock) (subs : List Clock) (sub : Clock) : Type 0 where
  le : sub.deadline ≤ best.deadline
  earliest : IsEarliest sub subs
  first : (sub ≡ best) ⊎ ((sub.deadline < best.deadline) × IsFirst sub subs)

IsChoice-sooner :
    (best s : Clock) (subs : List Clock) (sub : Clock)
    → s.deadline < best.deadline
    → IsChoice s subs sub
    → IsChoice best (s ∷ subs) sub
IsChoice-sooner best s subs sub h c = record {
  le = omega arith;
  earliest = (c.le, c.earliest);
  first = inr (omega arith, c.first);
}

IsChoice-later :
    (best s : Clock) (subs : List Clock) (sub : Clock)
    → best.deadline ≤ s.deadline
    → IsChoice best subs sub
    → IsChoice best (s ∷ subs) sub
IsChoice-later best s subs sub h c = record {
  le = c.le;
  earliest = (omega arith, c.earliest);
  first = kept c.first;
}
  where
    kept :
        (sub ≡ best) ⊎ ((sub.deadline < best.deadline) × IsFirst sub subs)
        → (sub ≡ best) ⊎ ((sub.deadline < best.deadline) × IsFirst sub (s ∷ subs))
    kept (inl same) = inl same
    kept (inr (lt, f)) = inr (lt, inr (omega arith, f))

min_by_deadline-IsChoice :
    (best : Clock) (subs : List Clock) → IsChoice best subs (min_by_deadline best subs)
unfolding min_by_deadline
min_by_deadline-IsChoice best [] = record { le = omega arith; earliest = tt; first = inl refl }
min_by_deadline-IsChoice best (s ∷ subs) =
    turn (ltb s.deadline best.deadline) refl (min_by_deadline-IsChoice s subs)
      (min_by_deadline-IsChoice best subs)
  where
    turn :
        (b : Bool)
        → ltb s.deadline best.deadline ≡ b
        → IsChoice s subs (min_by_deadline s subs)
        → IsChoice best subs (min_by_deadline best subs)
        → IsChoice best (s ∷ subs) (min_by_deadline (if b then s else best) subs)
    turn true h c d = IsChoice-sooner best s subs _ (ground arith) c
    turn false h c d = IsChoice-later best s subs _ (ground arith) d

-- The search over a list that is not empty answers a clock of the list that no other precedes in
-- time, and of those with its deadline the first.
pub min_by_deadline_lem :
    (sub : Clock) (subs : List Clock)
    → IsEarliest (min_by_deadline sub subs) (sub ∷ subs)
      × IsFirst (min_by_deadline sub subs) (sub ∷ subs)
min_by_deadline_lem sub subs =
    let c = min_by_deadline-IsChoice sub subs in ((c.le, c.earliest), c.first)
