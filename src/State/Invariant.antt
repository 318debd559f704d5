-- ===== src/State/Invariant.antt =====
-- What holds of the table after any sequence of operations.
use mathlib.Core.Option
use mathlib.Core.Path.{subst, subst₂}
use cria.Prelude.{
  ℕ, ◌≤◌, ◌<◌, String, ◌≡◌, some, List, [], ◌∷◌, arith, str_eq, eq_iff, Option-cases, inl, inr,
  Bool-cases, ◌^◌, if◌then◌else◌,
}
use cria.Table.{DashMap}
use cria.State.{RequestRecord, RequestState, insert, get, update, cancel, queued_record, new, stamp}
use cria.State.Lookup.{
  get-insert_record, get-update, get-cancel, get-record_event, cancel_if_active,
}
use cria.State.Operations.{
  Operation, submitted, marked_running, noted_token, cancelled_by_client, completed_by_worker,
  failed_with, cancelled_by_worker, recorded, perform, perform_all,
}

-- A property of every record of the table, and of the key that it stands under.
abbrev pub Each : ⦃d : DashMap⦄ → (String → RequestRecord → Type 0) → RequestState → Type 0
Each P s = (k : String) (r : RequestRecord) → get s k ≡ some r → P k r

-- A record stands under its own identifier, its change is no older than its creation and no younger
-- than `now`, and its count of tokens is a `u32`.
pub record IsSound (now : ℕ) (k : String) (r : RequestRecord) : Type 0 where
  pub keyed : r.request_id ≡ k
  pub dated : r.created_at_ms ≤ r.updated_at_ms
  pub past : r.updated_at_ms ≤ now
  pub word : r.emitted_tokens < 2 ^ 32

-- The sequence number of the operation, if it has one, is a `u32`.
abbrev pub IsWord : Operation → Type 0
IsWord (noted_token id n worker) = n < 2 ^ 32
IsWord (completed_by_worker id n worker) = n < 2 ^ 32
IsWord _ = Unit

-- The readings of the clock do not go back, and end at a reading of `last`.
abbrev pub InOrder : ℕ → List (Operation × ℕ) → ℕ → Type 0
InOrder earlier [] last = earlier ≡ last
InOrder earlier ((o, now) ∷ os) last = (earlier ≤ now) × IsWord o × InOrder now os last

module _ ⦃d : DashMap⦄ (P Q : String → RequestRecord → Type 0) where
  pub Each-changed :
      (s s' : RequestState) (id : String) (g : RequestRecord → RequestRecord)
      → ((j : String) → get s' j ≡ (if str_eq id j then Option.map g (get s id) else get s j))
      → ((k : String) (r : RequestRecord) → P k r → Q k r)
      → ((k : String) (r : RequestRecord) → P k r → Q k (g r))
      → Each P s
      → Each Q s'
  Each-changed s s' id g shown weaken keep h k r e = elim (Bool-cases (str_eq id k)) [
    | inl same ↦ elim (Option-cases (get s id)) [
      | inl missing ↦ absurd (ground (arith, shown k))
      | inr (q, found) ↦
          subst (Q k) (ground (arith, shown k))
            (keep k q (h k q (ground (arith, (eq_iff id k).0 same))))
    ]
    | inr other ↦ weaken k r (h k r (ground (arith, shown k)))
  ]

  pub Each-inserted :
      (s : RequestState) (new : RequestRecord)
      → ((k : String) (r : RequestRecord) → P k r → Q k r)
      → Q new.request_id new
      → Each P s
      → Each Q (insert s new)
  Each-inserted s new weaken fits h k r e = elim (Bool-cases (str_eq new.request_id k)) [
    | inl same ↦ subst₂ Q ((eq_iff _ _).0 same) (ground (arith, get-insert_record s new k)) fits
    | inr other ↦ weaken k r (h k r (ground (arith, get-insert_record s new k)))
  ]

module _ ⦃d : DashMap⦄ (s : RequestState) (earlier now : ℕ) (le : earlier ≤ now) where
  IsSound-weaken : (k : String) (r : RequestRecord) → IsSound earlier k r → IsSound now k r
  IsSound-weaken k r h = record {
    keyed = h.keyed;
    dated = h.dated;
    past = omega arith;
    word = h.word;
  }

  update-IsSound :
      (id : String) (change : RequestRecord → RequestRecord)
      → ((k : String) (r : RequestRecord)
          → IsSound earlier k r
          → IsSound now k (stamp change now r))
      → Each (IsSound earlier) s
      → Each (IsSound now) (update s id change now)
  update-IsSound id change =
      Each-changed (IsSound earlier) (IsSound now) s (update s id change now) id (stamp change now)
        (λ j. get-update s id j change now) IsSound-weaken

  cancel_if_active-IsSound :
      (reason k : String) (r : RequestRecord)
      → IsSound earlier k r
      → IsSound now k (cancel_if_active reason now r)
  cancel_if_active-IsSound reason k r h = ground arith

  -- Every operation keeps the records sound.
  pub perform-IsSound :
      (o : Operation) → IsWord o → Each (IsSound earlier) s → Each (IsSound now) (perform s o now)
  unfolding perform
  perform-IsSound (submitted id) w h =
      Each-inserted (IsSound earlier) (IsSound now) s (queued_record id now) IsSound-weaken
        (unfold queued_record in ground arith) h
  perform-IsSound (marked_running id worker) w h = update-IsSound id _ (λ k r q. ground arith) h
  perform-IsSound (noted_token id n worker) w h = update-IsSound id _ (λ k r q. ground arith) h
  perform-IsSound (cancelled_by_client id reason) w h =
      Each-changed (IsSound earlier) (IsSound now) s (cancel s id reason now).0 id
        (cancel_if_active reason now) (λ j. get-cancel s id j reason now) IsSound-weaken
        (cancel_if_active-IsSound reason) h
  perform-IsSound (completed_by_worker id n worker) w h =
      update-IsSound id _ (λ k r q. ground arith) h
  perform-IsSound (failed_with id error) w h = update-IsSound id _ (λ k r q. ground arith) h
  perform-IsSound (cancelled_by_worker id reason) w h =
      update-IsSound id _ (λ k r q. ground arith) h
  perform-IsSound (recorded e) w h =
      λ k r f. IsSound-weaken k r (h k r (rw (← get-record_event s e k) f))

module _ ⦃d : DashMap⦄ where
  perform_all-IsSound :
      (s : RequestState) (earlier last : ℕ) (os : List (Operation × ℕ))
      → InOrder earlier os last
      → Each (IsSound earlier) s
      → Each (IsSound last) (perform_all s os)
  unfolding perform_all
  perform_all-IsSound s earlier last [] e h = subst (λ n. Each (IsSound n) s) e h
  perform_all-IsSound s earlier last ((o, now) ∷ os) (le, w, rest) h =
      perform_all-IsSound (perform s o now) now last os rest
        (perform-IsSound s earlier now le o w h)

  -- After any operations on an empty table, in the order of the clock and with sequence numbers
  -- that are u32s, a record stands under its own identifier, was changed no earlier than it was
  -- made and no later than the last reading of the clock, and counts its tokens below 2^32.
  pub run-IsSound :
      (last : ℕ) (os : List (Operation × ℕ)) (k : String) (r : RequestRecord)
      → InOrder 0 os last
      → get (perform_all new os) k ≡ some r
      → IsSound last k r
  unfolding new get
  run-IsSound last os k r o known =
      perform_all-IsSound new 0 last os o
        (λ k r e. absurd (ground (arith, d.get-empty {V = RequestRecord} k))) k r known
