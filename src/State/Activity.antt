-- ===== src/State/Activity.antt =====
-- How each operation moves the number of active requests, which admission control reads.
use mathlib.Core.Option
use cria.Prelude.{
  none, ℕ, ◌+◌, ◌<◌, String, ◌≡◌, Bool, true, not, Option, some, arith, Option-cases, inl, inr,
  if◌then◌else◌,
}
use cria.Table.{DashMap, weigh, count-empty, count-insert}
use cria.State.{
  queued_record, RequestRecord, RequestState, is_terminal, stamp, new, insert, get, update, cancel,
  active_count,
}
use cria.State.Lookup
use cria.State.Lookup.{is_active_entry, cancel_record}

abbrev pub is_active : RequestRecord → Bool
is_active r = not (is_terminal r)

-- 1 for a record that is there and is not terminal.
abbrev pub activity : Option RequestRecord → ℕ
activity = weigh is_active

module _ ⦃d : DashMap⦄ where
  pub active_count-new : active_count new ≡ 0
  unfolding active_count new
  active_count-new = count-empty is_active

  pub active_count-insert :
      (s : RequestState) (r : RequestRecord)
      → active_count (insert s r) + activity (get s r.request_id)
        ≡ active_count s + activity (some r)
  unfolding active_count insert get
  active_count-insert s r = count-insert is_active s.inner r.request_id r

  pub active_count-update :
      (s : RequestState) (id : String) (change : RequestRecord → RequestRecord) (now : ℕ)
      → active_count (update s id change now) + activity (get s id)
        ≡ active_count s + activity (Option.map (stamp change now) (get s id))
  unfolding active_count update get
  active_count-update s id change now = elim (Option-cases (d.get s.inner id)) [
    | inl missing ↦ ground arith
    | inr (r, found) ↦ ground (arith, count-insert is_active s.inner id (stamp change now r))
  ]

  -- The number of active requests before a cancellation is the number after it, and one more if it
  -- was accepted.
  pub active_count-cancel :
      (s : RequestState) (id reason : String) (now : ℕ)
      → active_count (cancel s id reason now).0 + (if (cancel s id reason now).1 then 1 else 0)
        ≡ active_count s
  unfolding active_count cancel
  active_count-cancel s id reason now = elim (Option-cases (d.get s.inner id)) [
    | inl missing ↦ ground arith
    | inr (r, found) ↦
        ground (arith, count-insert is_active s.inner id (cancel_record reason now r))
  ]

  -- A record that is there and active is counted.
  pub active_count-pos :
      (s : RequestState) (id : String) → is_active_entry (get s id) ≡ true → 0 < active_count s
  active_count-pos s id h = ground (arith, active_count-cancel s id "" 0, accepted)
    where
      accepted : (cancel s id "" 0).1 ≡ true
      accepted = ground (arith, Lookup.cancel-accepted s id "" 0)

  -- A submission under a new identifier makes one more request active.
  pub active_count-queued_new :
      (s : RequestState) (id : String) (now : ℕ)
      → get s id ≡ none
      → active_count (insert s (queued_record id now)) ≡ active_count s + 1
  unfolding queued_record
  active_count-queued_new s id now unknown =
      ground (arith, active_count-insert s (queued_record id now), unknown)
