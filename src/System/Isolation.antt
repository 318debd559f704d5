-- ===== src/System/Isolation.antt =====
-- Each channel holds the events of one request: what the registry's operations keep of that.
use cria.Prelude.{
  ℕ, ◌⊎◌, String, ◌≡◌, none, some, List, [], ◌∷◌, ◌++◌, ◌==◌, arith, eq_iff, Bool-cases,
  Option-cases, inl, inr,
}
use mathlib.Core.Path.{subst}
use cria.Table.{DashMap}
use cria.Streaming.{
  Mpsc, StreamRegistry, StreamItem, event, error, sender_of, register, send, unregister,
}
use cria.Streaming.Wiring.{
  IsWired, register-IsWired, send-IsWired, unregister-IsWired, sender_of-register, sender_of-send,
  sender_of-unregister, register_taken,
}
use cria.Streaming.Delivery.{
  accepted_items, accepted-send_ne, accepted-send_cases, accepted-unregister, accepted-register,
}

-- An event of the request; no task sends a status.
abbrev pub IsOf : String → StreamItem → Type 0
IsOf id (event e) = e.request_id ≡ id
IsOf id (error s) = ⊥

abbrev pub AllOf : String → List StreamItem → Type 0
AllOf id [] = Unit
AllOf id (x ∷ xs) = IsOf id x × AllOf id xs

AllOf-append :
    (id : String) (xs : List StreamItem) (x : StreamItem)
    → AllOf id xs
    → IsOf id x
    → AllOf id (xs ++ x ∷ [])
AllOf-append id [] x h own = (own, tt)
AllOf-append id (y ∷ xs) x h own = (h.0, AllOf-append id xs x h.1 own)

module _ ⦃d : DashMap⦄ ⦃ch : Mpsc⦄ where
  -- The channel holds events of one request only, and is registered for no other.
  pub record IsOwned (s : StreamRegistry) (c : ℕ) (id : String) : Type 0 where
    pub items : AllOf id (accepted_items s c)
    pub registered : (j : String) → sender_of s j ≡ some c → j ≡ id

  pub record IsIsolated (s : StreamRegistry) : Type 0 where
    pub wired : IsWired s
    pub owner : (c : ℕ) → (id : String) × IsOwned s c id

  sender_is :
      (s : StreamRegistry) (id : String) (c : ℕ)
      → (sender_of s id ≡ some c) ⊎ (¬ (sender_of s id ≡ some c))
  sender_is s id c = elim (Option-cases (sender_of s id)) [
    | inl missing ↦ inr (λ h. ground (arith, missing))
    | inr (c', found) ↦ elim (Bool-cases (c' == c)) [
      | inl same ↦ inl (ground (arith, found))
      | inr other ↦ inr (λ h. ground (arith, found))
    ]
  ]

  items-send :
      (s : StreamRegistry) (id : String) (x : StreamItem) (c : ℕ) (o : String)
      → IsOf id x
      → IsOwned s c o
      → AllOf o (accepted_items (send s id x).0 c)
  items-send s id x c o own w = elim (sender_is s id c) [
    | inr other ↦ rw (accepted-send_ne s id x c other) w.items
    | inl here ↦ elim (accepted-send_cases s id x c here) [
      | inl dropped ↦ rw dropped w.items
      | inr added ↦ rw added (
          AllOf-append o (accepted_items s c) x w.items
            (subst (λ i. IsOf i x) (w.registered id here) own))
    ]
  ]

  pub send-IsIsolated :
      (s : StreamRegistry) (id : String) (x : StreamItem)
      → IsOf id x
      → IsIsolated s
      → IsIsolated (send s id x).0
  send-IsIsolated s id x own h = record {
    wired = send-IsWired s id x h.wired;
    owner = λ c.
        let (o, w) = h.owner c in
        (
          o,
          record {
            items = items-send s id x c o own w;
            registered = λ j k. w.registered j (rw sender_of-send at k);
          },
        );
  }

  pub unregister-IsIsolated :
      (s : StreamRegistry) (id : String) → IsIsolated s → IsIsolated (unregister s id)
  unregister-IsIsolated s id h = record {
    wired = unregister-IsWired s id h.wired;
    owner = λ c.
        let (o, w) = h.owner c in
        (
          o,
          record {
            items = rw accepted-unregister w.items;
            registered = λ j k. w.registered j (ground (arith, sender_of-unregister s id j));
          },
        );
  }

  register_free-IsIsolated :
      (s : StreamRegistry) (id : String)
      → sender_of s id ≡ none
      → IsIsolated s
      → IsIsolated (register s id).0
  register_free-IsIsolated s id free h = record {
    wired = register-IsWired s id h.wired;
    owner = λ c. elim (Bool-cases (ch.opened s.net == c)) [
      | inl fresh ↦ (
        id,
        record {
          items = rw (accepted-register s id c free, fresh) tt;
          registered =
              λ j k. ground (arith, sender_of-register s id j free, h.wired.made j c, eq_iff id j);
        },
      )
      | inr old ↦
          let (o, w) = h.owner c in
          (
            o,
            record {
              items = rw (accepted-register s id c free, old) w.items;
              registered = λ j k. w.registered j (ground (arith, sender_of-register s id j free));
            },
          )
    ];
  }

  pub register-IsIsolated :
      (s : StreamRegistry) (id : String) → IsIsolated s → IsIsolated (register s id).0
  register-IsIsolated s id h = elim (Option-cases (sender_of s id)) [
    | inl free ↦ register_free-IsIsolated s id free h
    | inr (c, taken) ↦ rw (register_taken s id taken) h
  ]
