-- ===== src/State/Lookup.antt =====
-- What each operation of the table of records shows under every key.
use mathlib.Core.Option
use cria.Prelude.{
  ℕ, String, ◌≡◌, refl, Bool, true, false, Option, none, some, [], ◌∷◌, ◌++◌, arith, str_eq, eq_iff,
  if◌then◌else◌, Option-cases, inl, inr,
}
use cria.Table.{DashMap}
use cria.Pb.{TokenEvent}
use cria.State.{
  queued_record, RequestRecord, RequestState, cancelled, is_terminal, stamp, insert, get, update,
  cancel, events, record_event,
}

-- What an accepted `cancel` leaves in the entry.
abbrev pub cancel_record : String → ℕ → RequestRecord → RequestRecord
cancel_record reason now r = record r {
  status = cancelled;
  cancellation_reason = some reason;
  updated_at_ms = now;
}

abbrev pub cancel_if_active : String → ℕ → RequestRecord → RequestRecord
cancel_if_active reason now r = if is_terminal r then r else cancel_record reason now r

abbrev pub is_active_entry : Option RequestRecord → Bool
is_active_entry none = false
is_active_entry (some r) = if is_terminal r then false else true

module _ ⦃d : DashMap⦄ where
  pub get-insert_record :
      (s : RequestState) (r : RequestRecord) (j : String)
      → get (insert s r) j ≡ (if str_eq r.request_id j then some r else get s j)
  unfolding get insert
  get-insert_record s r j = d.get-insert s.inner r.request_id r j

  pub get-update :
      (s : RequestState) (id j : String) (change : RequestRecord → RequestRecord) (now : ℕ)
      → get (update s id change now) j
        ≡ (if str_eq id j then Option.map (stamp change now) (get s id) else get s j)
  unfolding get update
  get-update s id j change now = elim (Option-cases (d.get s.inner id)) [
    | inl missing ↦ ground (arith, eq_iff id j)
    | inr (r, found) ↦ ground (arith, d.get-insert s.inner id (stamp change now r) j)
  ]

  pub get-cancel :
      (s : RequestState) (id j reason : String) (now : ℕ)
      → get (cancel s id reason now).0 j
        ≡ (if str_eq id j then Option.map (cancel_if_active reason now) (get s id) else get s j)
  unfolding get cancel
  get-cancel s id j reason now = elim (Option-cases (d.get s.inner id)) [
    | inl missing ↦ ground (arith, eq_iff id j)
    | inr (r, found) ↦
        ground (arith, eq_iff id j, d.get-insert s.inner id (cancel_record reason now r) j)
  ]

  pub cancel-accepted :
      (s : RequestState) (id reason : String) (now : ℕ)
      → (cancel s id reason now).1 ≡ is_active_entry (get s id)
  unfolding get cancel
  cancel-accepted s id reason now = elim (Option-cases (d.get s.inner id)) [
    | inl missing ↦ ground arith
    | inr (r, found) ↦ ground arith
  ]

  pub cancel-refused :
      (s : RequestState) (id reason : String) (now : ℕ)
      → is_active_entry (get s id) ≡ false
      → cancel s id reason now ≡ (s, false)
  unfolding get cancel
  cancel-refused s id reason now h = elim (Option-cases (d.get s.inner id)) [
    | inl missing ↦ ground arith
    | inr (r, found) ↦ ground arith
  ]

  pub get-record_event :
      (s : RequestState) (e : TokenEvent) (j : String) → get (record_event s e) j ≡ get s j
  unfolding get record_event
  get-record_event s e j = refl

  pub events-record_event :
      (s : RequestState) (e : TokenEvent) (j : String)
      → events (record_event s e) j
        ≡ (if str_eq e.request_id j then events s j ++ e ∷ [] else events s j)
  unfolding record_event
  events-record_event s e j = ground (
    arith,
    d.get-insert s.cached e.request_id (events s e.request_id ++ e ∷ []) j,
    eq_iff e.request_id j,
  )

  pub cached-update :
      (s : RequestState) (id : String) (change : RequestRecord → RequestRecord) (now : ℕ)
      → (update s id change now).cached ≡ s.cached
  unfolding update
  cached-update s id change now = ground arith

  pub cached-cancel :
      (s : RequestState) (id reason : String) (now : ℕ)
      → (cancel s id reason now).0.cached ≡ s.cached
  unfolding cancel
  cached-cancel s id reason now = ground arith

  pub events-update :
      (s : RequestState) (id : String) (change : RequestRecord → RequestRecord) (now : ℕ)
      (j : String)
      → events (update s id change now) j ≡ events s j
  unfolding events
  events-update s id change now j = rw cached-update

  pub events-insert :
      (s : RequestState) (r : RequestRecord) (j : String) → events (insert s r) j ≡ events s j
  unfolding events insert
  events-insert s r j = refl

  pub events-cancel :
      (s : RequestState) (id reason : String) (now : ℕ) (j : String)
      → events (cancel s id reason now).0 j ≡ events s j
  unfolding events
  events-cancel s id reason now j = rw cached-cancel

  -- A submitted request has its new record.
  pub get-queued :
      (s : RequestState) (id : String) (now : ℕ) (j : String)
      → get (insert s (queued_record id now)) j
        ≡ (if str_eq id j then some (queued_record id now) else get s j)
  unfolding queued_record
  get-queued s id now j = get-insert_record s (queued_record id now) j
