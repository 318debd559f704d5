-- ===== src/State/Progress.antt =====
-- What a record keeps while operations go on around it.
use mathlib.Core.Option
use cria.Prelude.{
  ℕ, ◌≤◌, String, ◌≡◌, Bool, true, false, ◌&&◌, not, Option, none, some, List, [], ◌∷◌, arith,
  str_eq, eq_iff, Bool-cases, inl, inr, if◌then◌else◌,
}
use cria.Table.{DashMap}
use cria.State.{RequestRecord, RequestState, get, update, cancel, queued_record, stamp}
use cria.State.Lookup.{
  get-insert_record, get-update, get-cancel, get-record_event, cancel_if_active,
}
use cria.State.Operations.{
  Operation, submitted, marked_running, noted_token, cancelled_by_client, completed_by_worker,
  failed_with, cancelled_by_worker, recorded, perform, perform_all,
}

-- A record that is there stays there, with its identifier and its creation, and its count of tokens
-- does not fall.
abbrev pub Grows : Option RequestRecord → Option RequestRecord → Type 0
Grows none o = Unit
Grows (some r) none = ⊥
Grows (some r) (some r') =
    (r'.request_id ≡ r.request_id)
    × (r'.created_at_ms ≡ r.created_at_ms)
    × (r.emitted_tokens ≤ r'.emitted_tokens)

Grows-refl : (o : Option RequestRecord) → Grows o o
Grows-refl none = tt
Grows-refl (some r) = ground arith

Grows-trans : (o p q : Option RequestRecord) → Grows o p → Grows p q → Grows o q
Grows-trans none p q h g = tt
Grows-trans (some r) (some r') (some r'') h g = ground arith
Grows-trans (some r) (some r') none h g = g
Grows-trans (some r) none q h g = absurd h

Grows-map :
    (g : RequestRecord → RequestRecord) (o : Option RequestRecord)
    → ((r : RequestRecord) → Grows (some r) (some (g r)))
    → Grows o (Option.map g o)
Grows-map g none h = tt
Grows-map g (some r) h = h r

-- The operation does not put a new record under the key.
abbrev pub is_kept : String → Operation → Bool
is_kept k (submitted id) = not (str_eq id k)
is_kept k _ = true

abbrev pub all_kept : String → List (Operation × ℕ) → Bool
all_kept k [] = true
all_kept k ((o, now) ∷ os) = is_kept k o && all_kept k os

module _ ⦃d : DashMap⦄ where
  Grows-changed :
      (s s' : RequestState) (id : String) (g : RequestRecord → RequestRecord) (k : String)
      → get s' k ≡ (if str_eq id k then Option.map g (get s id) else get s k)
      → ((r : RequestRecord) → Grows (some r) (some (g r)))
      → Grows (get s k) (get s' k)
  Grows-changed s s' id g k shown h = elim (Bool-cases (str_eq id k)) [
    | inl same ↦ rw (shown, same, (eq_iff id k).0 same) (Grows-map g (get s k) h)
    | inr other ↦ rw (shown, other) (Grows-refl (get s k))
  ]

  update-Grows :
      (s : RequestState) (id : String) (change : RequestRecord → RequestRecord) (now : ℕ)
      (k : String)
      → ((r : RequestRecord) → Grows (some r) (some (stamp change now r)))
      → Grows (get s k) (get (update s id change now) k)
  update-Grows s id change now k =
      Grows-changed s (update s id change now) id (stamp change now) k
        (get-update s id k change now)

  perform-Grows :
      (s : RequestState) (o : Operation) (now : ℕ) (k : String)
      → is_kept k o ≡ true
      → Grows (get s k) (get (perform s o now) k)
  unfolding perform
  perform-Grows s (submitted id) now k h =
      let other : str_eq id k ≡ false = ground arith in
      unfold queued_record in rw (get-insert_record, other) (Grows-refl (get s k))
  perform-Grows s (marked_running id worker) now k h = update-Grows s id _ now k (λ r. ground arith)
  perform-Grows s (noted_token id n worker) now k h = update-Grows s id _ now k (λ r. ground arith)
  perform-Grows s (cancelled_by_client id reason) now k h =
      Grows-changed s (cancel s id reason now).0 id (cancel_if_active reason now) k
        (get-cancel s id k reason now) (λ r. ground arith)
  perform-Grows s (completed_by_worker id n worker) now k h =
      update-Grows s id _ now k (λ r. ground arith)
  perform-Grows s (failed_with id error) now k h = update-Grows s id _ now k (λ r. ground arith)
  perform-Grows s (cancelled_by_worker id reason) now k h =
      update-Grows s id _ now k (λ r. ground arith)
  perform-Grows s (recorded e) now k h = rw get-record_event (Grows-refl (get s k))

  -- Over any operations that do not submit an identifier again, its record is not lost: it keeps
  -- its identifier and creation time, and its count of tokens does not fall.
  pub perform_all-Grows :
      (s : RequestState) (os : List (Operation × ℕ)) (k : String)
      → all_kept k os ≡ true
      → Grows (get s k) (get (perform_all s os) k)
  unfolding perform_all
  perform_all-Grows s [] k h = Grows-refl (get s k)
  perform_all-Grows s ((o, now) ∷ os) k h =
      Grows-trans (get s k) (get (perform s o now) k) (get (perform_all (perform s o now) os) k)
        (perform-Grows s o now k (ground arith))
        (perform_all-Grows (perform s o now) os k (ground arith))
