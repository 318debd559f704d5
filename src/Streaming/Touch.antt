-- ===== src/Streaming/Touch.antt =====
-- Calls of the registry that touch some requests only, and what they leave to a stream of another.
use cria.Prelude.{
  ℕ, ◌<◌, String, ◌≡◌, refl, ◌∙◌, some, List, [], ◌∷◌, ◌++◌, arith, Every, Every-append, eq_refl,
  eq_iff, Option-cases, inl, inr,
}
use cria.Table.{DashMap}
use cria.Streaming.Channel.{Mpsc}
use cria.Streaming.Registry.{StreamRegistry, register, unregister, sender_of}
use cria.Streaming.Wiring.{
  IsWired, register_taken, register_free, opened-send, sender_of-register, sender_of-send,
  sender_of-unregister, register-IsWired, send-IsWired, unregister-IsWired,
}
use cria.Streaming.Runs.{Call, registering, sending, unregistering, make, make_all}
use cria.Streaming.Delivery.{
  accepted_items, accepted-send_ne, accepted-unregister, accepted-register,
}

-- The call sends and unregisters under identifiers of the kind only; it may register any.
abbrev pub Touches : (String → Type 0) → Call → Type 0
Touches M (registering j) = Unit
Touches M (sending j x) = M j
Touches M (unregistering j) = M j

-- Any identifier.
abbrev pub AnyId : String → Type 0
AnyId j = Unit

-- Any identifier but one.
abbrev pub OtherId : String → String → Type 0
OtherId id j = ¬ (j ≡ id)

module _ ⦃d : DashMap⦄ ⦃ch : Mpsc⦄ where
  -- The second registry is what some such calls make of the first.
  abbrev pub IsMade : (String → Type 0) → StreamRegistry → StreamRegistry → Type 0
  IsMade M s s' = (cs : List Call) × Every (Touches M) cs × (make_all s cs ≡ s')

  pub IsMade-refl : (M : String → Type 0) (s : StreamRegistry) → IsMade M s s
  IsMade-refl M s = ([], tt, refl)

  pub IsMade-call :
      (M : String → Type 0) (s : StreamRegistry) (c : Call) → Touches M c → IsMade M s (make s c)
  IsMade-call M s c h = (c ∷ [], (h, tt), refl)

  make_all-append :
      (s : StreamRegistry) (cs cs' : List Call)
      → make_all s (cs ++ cs') ≡ make_all (make_all s cs) cs'
  make_all-append s [] cs' = refl
  make_all-append s (c ∷ cs) cs' = make_all-append (make s c) cs cs'

  pub IsMade-trans :
      (M : String → Type 0) (s s' s'' : StreamRegistry)
      → IsMade M s s'
      → IsMade M s' s''
      → IsMade M s s''
  IsMade-trans M s s' s'' (cs, h, e) (cs', h', e') =
      (cs ++ cs', Every-append (Touches M) cs cs' h h', make_all-append s cs cs' ∙ rw e e')

  -- The stream that stands under the identifier, whose channel is its own.
  pub record IsServed (s : StreamRegistry) (id : String) (c : ℕ) : Type 0 where
    pub wired : IsWired s
    pub registered : sender_of s id ≡ some c

  -- The channel was made, and nobody writes to it any more.
  pub record IsRetired (s : StreamRegistry) (c : ℕ) : Type 0 where
    pub made : c < ch.opened s.net
    pub quiet : (id : String) → ¬ (sender_of s id ≡ some c)

  register-kept :
      (s : StreamRegistry) (j : String) (c : ℕ)
      → c < ch.opened s.net
      → (accepted_items (register s j).0 c ≡ accepted_items s c)
        × (c < ch.opened (register s j).0.net)
  register-kept s j c made = elim (Option-cases (sender_of s j)) [
    | inl free ↦ (
      ground (arith, accepted-register s j c free),
      omega (arith, made, (register_free s j free).0),
    )
    | inr (c', taken) ↦ rw (register_taken s j taken) (refl, made)
  ]

  registered-kept :
      (s : StreamRegistry) (j id : String) (c : ℕ)
      → sender_of s id ≡ some c
      → sender_of (register s j).0 id ≡ some c
  registered-kept s j id c h = elim (Option-cases (sender_of s j)) [
    | inl free ↦ ground (arith, sender_of-register s j id free, eq_iff j id, h)
    | inr (c', taken) ↦ rw (register_taken s j taken) h
  ]

  quiet-kept :
      (s : StreamRegistry) (j i : String) (c : ℕ)
      → IsRetired s c
      → ¬ (sender_of (register s j).0 i ≡ some c)
  quiet-kept s j i c q h = elim (Option-cases (sender_of s j)) [
    | inl free ↦ q.quiet i (ground (arith, sender_of-register s j i free, q.made))
    | inr (c', taken) ↦ q.quiet i (rw (register_taken s j taken) at h)
  ]

  make-IsServed :
      (s : StreamRegistry) (call : Call) (id : String) (c : ℕ)
      → Touches (OtherId id) call
      → IsServed s id c
      → (accepted_items (make s call) c ≡ accepted_items s c) × IsServed (make s call) id c
  make-IsServed s (registering j) id c h v = (
    (register-kept s j c (v.wired.made id c v.registered)).0,
    record {
      wired = register-IsWired s j v.wired;
      registered = registered-kept s j id c v.registered;
    },
  )
  make-IsServed s (sending j x) id c h v = (
    accepted-send_ne s j x c (λ k. h (v.wired.apart j id c k v.registered)),
    record { wired = send-IsWired s j x v.wired; registered = rw sender_of-send v.registered },
  )
  make-IsServed s (unregistering j) id c h v = (
    accepted-unregister s j c,
    record {
      wired = unregister-IsWired s j v.wired;
      registered = ground (arith, sender_of-unregister s j id, v.registered, eq_iff j id);
    },
  )

  make-IsRetired :
      (s : StreamRegistry) (call : Call) (c : ℕ)
      → IsRetired s c
      → (accepted_items (make s call) c ≡ accepted_items s c) × IsRetired (make s call) c
  unfolding unregister
  make-IsRetired s (registering j) c q =
      let (same, made) = register-kept s j c q.made in
      (same, record { made = made; quiet = λ i h. quiet-kept s j i c q h })
  make-IsRetired s (sending j x) c q = (
    accepted-send_ne s j x c (q.quiet j),
    record { made = rw opened-send q.made; quiet = λ i h. q.quiet i (rw sender_of-send at h) },
  )
  make-IsRetired s (unregistering j) c q = (
    accepted-unregister s j c,
    record { made = q.made; quiet = λ i h. q.quiet i (ground (arith, sender_of-unregister s j i)) },
  )

  -- The channel of a stream that is unregistered is written to no more.
  pub unregister-IsRetired :
      (s : StreamRegistry) (id : String) (c : ℕ) → IsServed s id c → IsRetired (unregister s id) c
  unfolding unregister
  unregister-IsRetired s id c v = record {
    made = v.wired.made id c v.registered;
    quiet = λ j h.
        let there : sender_of s j ≡ some c = ground (arith, sender_of-unregister s id j) in
        ground
          (arith, sender_of-unregister s id j, v.wired.apart j id c there v.registered, eq_refl id);
  }

  make_all-IsServed :
      (s : StreamRegistry) (cs : List Call) (id : String) (c : ℕ)
      → Every (Touches (OtherId id)) cs
      → IsServed s id c
      → (accepted_items (make_all s cs) c ≡ accepted_items s c) × IsServed (make_all s cs) id c
  make_all-IsServed s [] id c h v = (refl, v)
  make_all-IsServed s (call ∷ cs) id c h v =
      let (once, v') = make-IsServed s call id c h.0 v in
      let (rest, v'') = make_all-IsServed (make s call) cs id c h.1 v' in (rest ∙ once, v'')

  make_all-IsRetired :
      (s : StreamRegistry) (cs : List Call) (c : ℕ)
      → IsRetired s c
      → (accepted_items (make_all s cs) c ≡ accepted_items s c) × IsRetired (make_all s cs) c
  make_all-IsRetired s [] c q = (refl, q)
  make_all-IsRetired s (call ∷ cs) c q =
      let (once, q') = make-IsRetired s call c q in
      let (rest, q'') = make_all-IsRetired (make s call) cs c q' in (rest ∙ once, q'')

  -- Calls that send and unregister under other identifiers leave a stream as it is.
  pub IsMade-IsServed :
      (s s' : StreamRegistry) (id : String) (c : ℕ)
      → IsMade (OtherId id) s s'
      → IsServed s id c
      → (accepted_items s' c ≡ accepted_items s c) × IsServed s' id c
  IsMade-IsServed s s' id c (cs, h, e) v = rw e at (make_all-IsServed s cs id c h v)

  -- No call adds to a retired channel or brings it back.
  pub IsMade-IsRetired :
      (M : String → Type 0) (s s' : StreamRegistry) (c : ℕ)
      → IsMade M s s'
      → IsRetired s c
      → (accepted_items s' c ≡ accepted_items s c) × IsRetired s' c
  IsMade-IsRetired M s s' c (cs, h, e) q = rw e at (make_all-IsRetired s cs c q)
