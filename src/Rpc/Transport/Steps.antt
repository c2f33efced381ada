-- ===== src/Rpc/Transport/Steps.antt =====
-- What can become of a transport. Its fields are private, so handlers and other tasks change it by
-- these steps only: registering a call, delivering a response, and using the reader and writer.
use wasmi_plugin_framework.Base.{
  ℕ, ◌+◌, ◌<◌, ◌≡◌, refl, sym, ap, ◌∙◌, ◌⊎◌, inl, inr, Option, none, some, List, [], ◌∷◌, ◌++◌,
  length, length-append, arith, Option-cases,
}
use wasmi_plugin_framework.Rpc.Message.{RpcResponse}
use wasmi_plugin_framework.Rpc.Pending.{
  lookup, Slot, empty, sent, closed, slot, length-set_slot, slot-set_slot, slot-append_empty,
  slot-append_last, slot-length, lookup-remove, lookup-insert, lookup-insert_self,
}
use wasmi_plugin_framework.Rpc.Transport.{JsonRpcTransport, register, respond, drop_sender}

module _ {V R W : Type 0} where
  pub data Step (t : JsonRpcTransport V R W) : JsonRpcTransport V R W → Type 0 where
    registers : Step t (register t)
    responds : (resp : RpcResponse V) → Step t (respond resp t)
    reads : (r : R) → Step t (record t { reader = r })
    writes : (w : W) → Step t (record t { writer = w })

  pub data Reach (t : JsonRpcTransport V R W) : JsonRpcTransport V R W → Type 0 where
    here : Reach t t
    step : {t' t'' : JsonRpcTransport V R W} → Reach t t' → Step t' t'' → Reach t t''

  -- Every pending sender is that of a channel that was made.
  abbrev pub IsBounded : JsonRpcTransport V R W → Type 0
  IsBounded t = (j c : ℕ) → lookup j t.pending ≡ some c → c < length t.channels

  -- The channel `ch` is the call's with the id `i`: its sender is pending under no other id, and a
  -- response in it has this id.
  pub record Owns (i ch : ℕ) (t : JsonRpcTransport V R W) : Type 0 where
    pub bounded : IsBounded t
    pub made : ch < length t.channels
    pub alone : (j : ℕ) → lookup j t.pending ≡ some ch → j ≡ i
    pub own : (resp : RpcResponse V) → slot t.channels ch ≡ sent resp → resp.id ≡ i

module _ {V : Type 0} where
  length-drop_sender :
      (o : Option ℕ) (channels : List (Slot V)) → length (drop_sender o channels) ≡ length channels
  length-drop_sender none channels = refl
  length-drop_sender (some ch) channels = length-set_slot channels ch closed

  slot-drop_sender :
      (o : Option ℕ) (channels : List (Slot V)) (i : ℕ) (r : RpcResponse V)
      → slot (drop_sender o channels) i ≡ sent r
      → slot channels i ≡ sent r
  slot-drop_sender none channels i r h = h
  slot-drop_sender (some ch) channels i r h = elim (slot-set_slot channels ch i closed r h) [
    | inl (e, f) ↦ cc f
    | inr f ↦ f
  ]

module _ {V R W : Type 0} (t : JsonRpcTransport V R W) where
  pub length-register : length (register t).channels ≡ length t.channels + 1
  unfolding register
  length-register = omega (
    arith,
    length-append (drop_sender (lookup t.id t.pending) t.channels) (empty ∷ []),
    length-drop_sender (lookup t.id t.pending) t.channels,
  )

  -- A call starts with an empty channel, under its id.
  pub slot-register : slot (register t).channels (length t.channels) ≡ empty
  unfolding register
  slot-register =
      ap (λ n. slot (drop_sender (lookup t.id t.pending) t.channels ++ (empty ∷ [])) n)
        (sym (length-drop_sender (lookup t.id t.pending) t.channels))
      ∙ slot-append_last (drop_sender (lookup t.id t.pending) t.channels)

  pub lookup-register_self : lookup t.id (register t).pending ≡ some (length t.channels)
  unfolding register
  lookup-register_self = lookup-insert_self t.id (length t.channels) t.pending

  lookup-register :
      (j c : ℕ)
      → lookup j (register t).pending ≡ some c
      → ((t.id ≡ j) × (length t.channels ≡ c)) ⊎ (lookup j t.pending ≡ some c)
  unfolding register
  lookup-register j c h = lookup-insert j t.id (length t.channels) t.pending c h

  register-IsBounded : IsBounded t → IsBounded (register t)
  register-IsBounded b j c h = elim (lookup-register j c h) [
    | inl (e, f) ↦ omega (arith, f, length-register)
    | inr f ↦ omega (arith, b j c f, length-register)
  ]

  -- A call owns the channel that it makes.
  pub register-Owns : IsBounded t → Owns t.id (length t.channels) (register t)
  unfolding register
  register-Owns b = record {
    bounded = register-IsBounded b;
    made = omega (arith, length-register);
    alone = λ j h. elim (lookup-register j (length t.channels) h) [
      | inl (e, f) ↦ omega (arith, e)
      | inr f ↦ absurd (omega (arith, b j (length t.channels) f))
    ];
    own = λ resp h.
        fresh resp (slot-append_empty (drop_sender old t.channels) (length t.channels) resp h);
  }
    where
      old : Option ℕ
      old = lookup t.id t.pending

      fresh :
          (resp : RpcResponse V)
          → slot (drop_sender old t.channels) (length t.channels) ≡ sent resp
          → resp.id ≡ t.id
      fresh resp h =
          cc (slot-drop_sender old t.channels (length t.channels) resp h, slot-length t.channels)

  -- A call keeps its channel while others register.
  register-keeps_Owns : (i ch : ℕ) → Owns i ch t → Owns i ch (register t)
  unfolding register
  register-keeps_Owns i ch o = record {
    bounded = register-IsBounded o.bounded;
    made = omega (arith, length-register, o.made);
    alone = λ j h. elim (lookup-register j ch h) [
      | inl (e, f) ↦ absurd (omega (arith, f, o.made))
      | inr f ↦ o.alone j f
    ];
    own = λ resp h. o.own resp (
        slot-drop_sender (lookup t.id t.pending) t.channels ch resp
          (slot-append_empty (drop_sender (lookup t.id t.pending) t.channels) ch resp h));
  }

  respond-IsBounded : (resp : RpcResponse V) → IsBounded t → IsBounded (respond resp t)
  unfolding respond
  respond-IsBounded resp b = elim (Option-cases (lookup resp.id t.pending)) [
    | inl none_pending ↦ rw (none_pending) b
    | inr (c0, e) ↦ rw (e) (λ j c h. omega (
      arith,
      b j c (lookup-remove j resp.id t.pending c h),
      length-set_slot t.channels c0 (sent resp),
    ))
  ]

  -- A response goes to the channel of the call with its id only.
  respond-Owns : (resp : RpcResponse V) (i ch : ℕ) → Owns i ch t → Owns i ch (respond resp t)
  unfolding respond
  respond-Owns resp i ch o = elim (Option-cases (lookup resp.id t.pending)) [
    | inl none_pending ↦ rw (none_pending) o
    | inr (c0, e) ↦
        let bounded : IsBounded (respond resp t) = respond-IsBounded resp o.bounded in
        rw (e) (record {
          bounded = (rw (e) at bounded);
          made = omega (arith, o.made, length-set_slot t.channels c0 (sent resp));
          alone = λ j h. o.alone j (lookup-remove j resp.id t.pending ch h);
          own = λ r h. elim (slot-set_slot t.channels c0 ch (sent resp) r h) [
            | inl (f, s) ↦ cc (s, o.alone resp.id (cc (e, f)))
            | inr f ↦ o.own r f
          ];
        })
  ]

module _ {V R W : Type 0} where
  Step-IsBounded : {t t' : JsonRpcTransport V R W} → Step t t' → IsBounded t → IsBounded t'
  Step-IsBounded {t} registers b = register-IsBounded t b
  Step-IsBounded {t} (responds resp) b = respond-IsBounded t resp b
  Step-IsBounded (reads r) b = b
  Step-IsBounded (writes w) b = b

  pub Reach-IsBounded : {t t' : JsonRpcTransport V R W} → Reach t t' → IsBounded t → IsBounded t'
  Reach-IsBounded here b = b
  Reach-IsBounded (step s k) b = Step-IsBounded k (Reach-IsBounded s b)

  Step-Owns : {t t' : JsonRpcTransport V R W} → Step t t' → (i ch : ℕ) → Owns i ch t → Owns i ch t'
  Step-Owns {t} registers i ch o = register-keeps_Owns t i ch o
  Step-Owns {t} (responds resp) i ch o = respond-Owns t resp i ch o
  Step-Owns (reads r) i ch o = record {
    bounded = o.bounded;
    made = o.made;
    alone = o.alone;
    own = o.own;
  }
  Step-Owns (writes w) i ch o = record {
    bounded = o.bounded;
    made = o.made;
    alone = o.alone;
    own = o.own;
  }

  pub Reach-Owns :
      {t t' : JsonRpcTransport V R W} → Reach t t' → (i ch : ℕ) → Owns i ch t → Owns i ch t'
  Reach-Owns here i ch o = o
  Reach-Owns (step s k) i ch o = Step-Owns k i ch (Reach-Owns s i ch o)
