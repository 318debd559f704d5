-- ===== src/System/Keeping.antt =====
-- What every step keeps of a gateway: the channels are isolated, the cache of a request holds its
-- own events, and a request whose stream is registered has a record.
use mathlib.Core.Option
use mathlib.Core.Path.{subst}
use cria.Prelude.{
  ℕ, String, ◌≡◌, refl, ◌∙◌, some, List, [], ◌∷◌, ◌++◌, arith, str_eq, eq_iff, if◌then◌else◌,
  Bool-cases, Option-cases, inl, inr,
}
use cria.Table.{DashMap}
use cria.Pb.{TokenEvent}
use cria.State
use cria.State.{RequestRecord, RequestState, stamp}
use cria.State.Lookup.{
  get-insert_record, get-update, get-cancel, get-record_event, events-record_event, events-update,
  cancel_if_active, events-insert, events-cancel,
}
use cria.Streaming
use cria.Streaming.{Mpsc, StreamRegistry, event, sender_of}
use cria.Streaming.Wiring.{sender_of-register, sender_of-send, sender_of-unregister, register_taken}
use cria.Gateway.{Gateway}
use cria.System.Isolation.{IsIsolated, send-IsIsolated, unregister-IsIsolated, register-IsIsolated}

abbrev pub AllFor : String → List TokenEvent → Type 0
AllFor id [] = Unit
AllFor id (e ∷ es) = (e.request_id ≡ id) × AllFor id es

AllFor-append :
    (id : String) (es : List TokenEvent) (e : TokenEvent)
    → AllFor id es
    → e.request_id ≡ id
    → AllFor id (es ++ e ∷ [])
AllFor-append id [] e h own = (own, tt)
AllFor-append id (x ∷ es) e h own = (h.0, AllFor-append id es e h.1 own)

module _ ⦃d : DashMap⦄ where
  -- There is a record.
  abbrev pub IsKnown : RequestState → String → Type 0
  IsKnown s id = (r : RequestRecord) × (State.get s id ≡ some r)

  -- No record is lost, and the cache stays.
  pub record IsKept (s s' : RequestState) : Type 0 where
    pub cached : (k : String) → State.events s' k ≡ State.events s k
    pub known : (k : String) → IsKnown s k → IsKnown s' k

  pub IsKept-refl : (s : RequestState) → IsKept s s
  IsKept-refl s = record { cached = λ k. refl; known = λ k h. h }

  pub IsKept-trans : (s s' s'' : RequestState) → IsKept s s' → IsKept s' s'' → IsKept s s''
  IsKept-trans s s' s'' h g = record {
    cached = λ k. g.cached k ∙ h.cached k;
    known = λ k e. g.known k (h.known k e);
  }

  changed-IsKnown :
      (s s' : RequestState) (id k : String) (f : RequestRecord → RequestRecord)
      → State.get s' k ≡ (if str_eq id k then Option.map f (State.get s id) else State.get s k)
      → IsKnown s k
      → IsKnown s' k
  changed-IsKnown s s' id k f shown (r, there) = elim (Bool-cases (str_eq id k)) [
    | inl same ↦ (f r, ground (arith, shown, there, eq_iff id k))
    | inr other ↦ (r, ground (arith, shown, there))
  ]

  pub insert-IsKept : (s : RequestState) (r : RequestRecord) → IsKept s (State.insert s r)
  insert-IsKept s r = record {
    cached = events-insert s r;
    known = λ k (q, there). elim (Bool-cases (str_eq r.request_id k)) [
      | inl same ↦ (r, ground (arith, get-insert_record s r k))
      | inr other ↦ (q, ground (arith, get-insert_record s r k, there))
    ];
  }

  pub update-IsKept :
      (s : RequestState) (id : String) (change : RequestRecord → RequestRecord) (now : ℕ)
      → IsKept s (State.update s id change now)
  update-IsKept s id change now = record {
    cached = events-update s id change now;
    known = λ k.
        changed-IsKnown s (State.update s id change now) id k (stamp change now)
          (get-update s id k change now);
  }

  pub cancel-IsKept :
      (s : RequestState) (id reason : String) (now : ℕ) → IsKept s (State.cancel s id reason now).0
  cancel-IsKept s id reason now = record {
    cached = events-cancel s id reason now;
    known = λ k.
        changed-IsKnown s (State.cancel s id reason now).0 id k (cancel_if_active reason now)
          (get-cancel s id k reason now);
  }

module _ ⦃d : DashMap⦄ ⦃ch : Mpsc⦄ where
  pub record IsSafe (g : Gateway) : Type 0 where
    pub isolated : IsIsolated g.streams
    pub cached : (k : String) → AllFor k (State.events g.state k)
    pub present : (id : String) (c : ℕ) → sender_of g.streams id ≡ some c → IsKnown g.state id

  pub kept-IsSafe :
      (g g' : Gateway) → g'.streams ≡ g.streams → IsKept g.state g'.state → IsSafe g → IsSafe g'
  kept-IsSafe g g' same kept h = record {
    isolated = rw same h.isolated;
    cached = λ k. rw kept.cached (h.cached k);
    present = λ id c e. kept.known id (h.present id c (rw same at e));
  }

  pub registered-IsSafe :
      (g g' : Gateway) (id : String)
      → g'.streams ≡ (Streaming.register g.streams id).0
      → IsKept g.state g'.state
      → IsKnown g'.state id
      → IsSafe g
      → IsSafe g'
  registered-IsSafe g g' id more kept there h = record {
    isolated = rw more (register-IsIsolated g.streams id h.isolated);
    cached = λ k. rw kept.cached (h.cached k);
    present = λ j c e. elim (Option-cases (sender_of g.streams id)) [
      | inr (c', taken) ↦
          kept.known j (h.present j c (rw (more, register_taken g.streams id taken) at e))
      | inl free ↦ elim (Bool-cases (str_eq id j)) [
        | inl same ↦ subst (IsKnown g'.state) ((eq_iff id j).0 same) there
        | inr other ↦
            kept.known j
              (h.present j c (rw (more, sender_of-register g.streams id j free, other) at e))
      ]
    ];
  }

  pub sent-IsSafe :
      (g : Gateway) (e : TokenEvent) (id : String)
      → e.request_id ≡ id
      → IsSafe g
      → IsSafe (record g { streams = (Streaming.send g.streams id (event e)).0 })
  sent-IsSafe g e id own h = record {
    isolated = send-IsIsolated g.streams id (event e) own h.isolated;
    cached = h.cached;
    present = λ j c k. h.present j c (rw sender_of-send at k);
  }

  pub unregistered-IsSafe :
      (g : Gateway) (id : String)
      → IsSafe g
      → IsSafe (record g { streams = Streaming.unregister g.streams id })
  unregistered-IsSafe g id h = record {
    isolated = unregister-IsIsolated g.streams id h.isolated;
    cached = h.cached;
    present = λ j c k. h.present j c (ground (arith, sender_of-unregister g.streams id j));
  }

  pub recorded-IsSafe :
      (g : Gateway) (e : TokenEvent)
      → IsSafe g
      → IsSafe (record g { state = State.record_event g.state e })
  recorded-IsSafe g e h = record {
    isolated = h.isolated;
    cached = λ k. elim (Bool-cases (str_eq e.request_id k)) [
      | inl same ↦
          rw (events-record_event, same)
            (AllFor-append k (State.events g.state k) e (h.cached k) ((eq_iff _ _).0 same))
      | inr other ↦ rw (events-record_event, other) (h.cached k)
    ];
    present = λ id c k. rw get-record_event (h.present id c k);
  }
