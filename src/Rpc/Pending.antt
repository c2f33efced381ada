-- ===== src/Rpc/Pending.antt =====
-- What crates/wasmi-plugin-pdk/src/transport.rs keeps for the calls under way: the map `pending`
-- from ids to the sending ends of oneshot channels, and the channels.
use wasmi_plugin_framework.Base.{
  ℕ, zero, suc, ◌<◌, ◌≡◌, ◌≢◌, refl, ap, ◌⊎◌, inl, inr, Option, none, some, List, [], ◌∷◌, ◌++◌,
  length, get_or, arith, ◌==◌, if◌then◌else◌, Bool-cases,
}
use wasmi_plugin_framework.Rpc.Message.{RpcResponse}

-- What the receiving end of a oneshot channel finds: nothing yet, the response, or that the sending
-- end was dropped.
pub data Slot (V : Type 0) : Type 0 where
  empty : Slot V
  sent : RpcResponse V → Slot V
  closed : Slot V

-- `HashMap<u64, Sender<RpcResponse>>` as an association list; a sender is its channel's number.
abbrev pub Pending : Type 0
Pending = List (ℕ × ℕ)

unfoldable pub lookup : ℕ → Pending → Option ℕ
lookup id [] = none
lookup id ((k, ch) ∷ m) = if k == id then some ch else lookup id m

unfoldable pub remove : ℕ → Pending → Pending
remove id [] = []
remove id ((k, ch) ∷ m) = let rest = remove id m in if k == id then rest else (k, ch) ∷ rest

abbrev pub insert : ℕ → ℕ → Pending → Pending
insert id ch m = (id, ch) ∷ remove id m

module _ {V : Type 0} where
  unfoldable pub set_slot : List (Slot V) → ℕ → Slot V → List (Slot V)
  set_slot [] i s = []
  set_slot (x ∷ xs) zero s = s ∷ xs
  set_slot (x ∷ xs) (suc i) s = x ∷ set_slot xs i s

  abbrev pub slot : List (Slot V) → ℕ → Slot V
  slot channels ch = get_or channels ch closed

  pub length-set_slot :
      (xs : List (Slot V)) (i : ℕ) (s : Slot V) → length (set_slot xs i s) ≡ length xs
  unfolding set_slot
  length-set_slot [] i s = refl
  length-set_slot (x ∷ xs) zero s = refl
  length-set_slot (x ∷ xs) (suc i) s = omega (arith, length-set_slot xs i s)

  pub slot-set_slot :
      (xs : List (Slot V)) (k i : ℕ) (s : Slot V) (r : RpcResponse V)
      → slot (set_slot xs k s) i ≡ sent r
      → ((i ≡ k) × (s ≡ sent r)) ⊎ (slot xs i ≡ sent r)
  unfolding set_slot
  slot-set_slot [] k i s r h = inr h
  slot-set_slot (x ∷ xs) zero zero s r h = inl (refl, h)
  slot-set_slot (x ∷ xs) zero (suc i) s r h = inr h
  slot-set_slot (x ∷ xs) (suc k) zero s r h = inr h
  slot-set_slot (x ∷ xs) (suc k) (suc i) s r h = elim (slot-set_slot xs k i s r h) [
    | inl (e, f) ↦ inl (omega (arith, e), f)
    | inr f ↦ inr f
  ]

  pub slot-append_empty :
      (xs : List (Slot V)) (i : ℕ) (r : RpcResponse V)
      → slot (xs ++ (empty ∷ [])) i ≡ sent r
      → slot xs i ≡ sent r
  slot-append_empty [] zero r h = cc h
  slot-append_empty [] (suc i) r h = h
  slot-append_empty (x ∷ xs) zero r h = h
  slot-append_empty (x ∷ xs) (suc i) r h = slot-append_empty xs i r h

  pub slot-append_last : (xs : List (Slot V)) → slot (xs ++ (empty ∷ [])) (length xs) ≡ empty
  slot-append_last [] = refl
  slot-append_last (x ∷ xs) = slot-append_last xs

  pub slot-length : (xs : List (Slot V)) → slot xs (length xs) ≡ closed
  slot-length [] = refl
  slot-length (x ∷ xs) = slot-length xs

  pub slot-set_slot_self :
      (xs : List (Slot V)) (i : ℕ) (s : Slot V) → i < length xs → slot (set_slot xs i s) i ≡ s
  unfolding set_slot
  slot-set_slot_self [] i s h = absurd (omega arith)
  slot-set_slot_self (x ∷ xs) zero s h = refl
  slot-set_slot_self (x ∷ xs) (suc i) s h = slot-set_slot_self xs i s (omega arith)

pub lookup-nil : (id ch : ℕ) → lookup id [] ≢ some ch
unfolding lookup
lookup-nil id ch h = cc h

pub lookup-remove_self : (id : ℕ) (m : Pending) → lookup id (remove id m) ≡ none
unfolding lookup remove
lookup-remove_self id [] = refl
lookup-remove_self id ((k, c) ∷ m) = ground (arith, lookup-remove_self id m)

pub lookup-remove :
    (j id : ℕ) (m : Pending) (ch : ℕ) → lookup j (remove id m) ≡ some ch → lookup j m ≡ some ch
unfolding lookup remove
lookup-remove j id [] ch h = h
lookup-remove j id ((k, c) ∷ m) ch h = elim (Bool-cases (k == id)) [
  | inl e ↦ elim (Bool-cases (k == j)) [
    | inl f ↦
        let same : j ≡ id = ground arith in
        cc (rw (e) at h, ap (λ i. lookup i (remove id m)) same, lookup-remove_self id m)
    | inr f ↦ rw (f) (lookup-remove j id m ch (rw (e) at h))
  ]
  | inr e ↦ elim (Bool-cases (k == j)) [
    | inl f ↦ rw (f) (rw (e, f) at h)
    | inr f ↦ rw (f) (lookup-remove j id m ch (rw (e, f) at h))
  ]
]

pub lookup-insert :
    (j id ch : ℕ) (m : Pending) (c : ℕ)
    → lookup j (insert id ch m) ≡ some c
    → ((id ≡ j) × (ch ≡ c)) ⊎ (lookup j m ≡ some c)
unfolding lookup
lookup-insert j id ch m c h = ground (arith, lookup-remove j id m c)

pub lookup-insert_self : (id ch : ℕ) (m : Pending) → lookup id (insert id ch m) ≡ some ch
unfolding lookup
lookup-insert_self id ch m = ground arith
