-- ===== src/State/Machine.antt =====
-- One request as a machine of its own: what `get` and `events` show of it, and what each operation on
-- it does to that. The table is a family of such machines, one for each identifier.
use mathlib.Core.Option
use Prim.Native.Nat.{max}
use cria.Prelude.{
  ℕ, String, ◌≡◌, refl, ◌∙◌, ap, Bool, true, false, Option, some, List, [], ◌∷◌, ◌++◌, keep, str_eq,
  eq_iff, if◌then◌else◌, Bool-cases, inl, inr,
}
use cria.Table.{DashMap}
use cria.Pb.{TokenEvent}
use cria.State.{
  RequestRecord, RequestState, RequestStatusInternal, running, completed, failed, cancelled,
  queued_record, get, events, mark_running, note_token, finish_completed, finish_failed,
  finish_cancelled,
}
use cria.State.Lookup.{
  cancel_if_active, get-update, get-cancel, get-record_event, get-queued, events-record_event,
  events-update, events-insert, events-cancel,
}
use cria.State.Operations.{
  Operation, submitted, marked_running, noted_token, cancelled_by_client, completed_by_worker,
  failed_with, cancelled_by_worker, recorded, perform, perform_all,
}

-- What is known of a request.
pub record Entry : Type 0 where
  pub shown : Option RequestRecord
  pub cached : List TokenEvent

-- The request that an operation is about.
abbrev pub subject : Operation → String
subject (submitted id) = id
subject (marked_running id worker) = id
subject (noted_token id n worker) = id
subject (cancelled_by_client id reason) = id
subject (completed_by_worker id n worker) = id
subject (failed_with id error) = id
subject (cancelled_by_worker id reason) = id
subject (recorded e) = e.request_id

-- A worker's report: a new status, what else it says, and the time.
abbrev reported : RequestStatusInternal → ℕ → RequestRecord → RequestRecord
reported status now r = record r { status = status; updated_at_ms = now }

abbrev counted : ℕ → String → RequestRecord → RequestRecord
counted n worker r = record r { emitted_tokens = max r.emitted_tokens n; worker_id = some worker }

-- A submission makes the record anew; the rest changes a record that is there, and a client's
-- cancellation only one that is not terminal.
abbrev pub change_shown : Operation → ℕ → Option RequestRecord → Option RequestRecord
change_shown (submitted id) now o = some (queued_record id now)
change_shown (marked_running id worker) now o =
    Option.map (λ r. record (reported running now r) { worker_id = some worker }) o
change_shown (noted_token id n worker) now o =
    Option.map (λ r. counted n worker (reported running now r)) o
change_shown (cancelled_by_client id reason) now o = Option.map (cancel_if_active reason now) o
change_shown (completed_by_worker id n worker) now o =
    Option.map (λ r. counted n worker (reported completed now r)) o
change_shown (failed_with id error) now o =
    Option.map (λ r. record (reported failed now r) { error_message = some error }) o
change_shown (cancelled_by_worker id reason) now o =
    Option.map (λ r. record (reported cancelled now r) { error_message = some reason }) o
change_shown (recorded e) now o = o

abbrev pub change_cached : Operation → List TokenEvent → List TokenEvent
change_cached (recorded e) es = es ++ e ∷ []
change_cached o es = es

abbrev pub change : Operation × ℕ → Entry → Entry
change (o, now) x = record { shown = change_shown o now x.shown; cached = change_cached o x.cached }

-- The machine over its own operations.
abbrev pub follow : List (Operation × ℕ) → Entry → Entry
follow [] x = x
follow (p ∷ ps) x = follow ps (change p x)

abbrev pub own_operations : String → List (Operation × ℕ) → List (Operation × ℕ)
own_operations k = keep (λ p. str_eq (subject p.0) k)

pub own_operations-append :
    (k : String) (os os' : List (Operation × ℕ))
    → own_operations k (os ++ os') ≡ own_operations k os ++ own_operations k os'
own_operations-append k [] os' = refl
own_operations-append k (p ∷ os) os' = elim (Bool-cases (str_eq (subject p.0) k)) [
  | inl own ↦ rw own (ap (λ l. p ∷ l) (own_operations-append k os os'))
  | inr other ↦ rw other (own_operations-append k os os')
]

pub follow-append :
    (ps qs : List (Operation × ℕ)) (x : Entry) → follow (ps ++ qs) x ≡ follow qs (follow ps x)
follow-append [] qs x = refl
follow-append (p ∷ ps) qs x = follow-append ps qs (change p x)

either_way : {A : Type 0} (b : Bool) (x : A) → x ≡ (if b then x else x)
either_way true x = refl
either_way false x = refl

module _ ⦃d : DashMap⦄ where
  -- What the table shows of a request.
  abbrev pub entry_of : RequestState → String → Entry
  entry_of s k = record { shown = get s k; cached = events s k }

  at_own :
      (s : RequestState) (id k : String) (f : RequestRecord → RequestRecord)
      → (if str_eq id k then Option.map f (get s id) else get s k)
        ≡ (if str_eq id k then Option.map f (get s k) else get s k)
  at_own s id k f = elim (Bool-cases (str_eq id k)) [
    | inl same ↦
        ap (λ j. if str_eq id k then Option.map f (get s j) else get s k) ((eq_iff id k).0 same)
    | inr other ↦ rw other refl
  ]

  shown-perform :
      (s : RequestState) (o : Operation) (now : ℕ) (k : String)
      → get (perform s o now) k
        ≡ (if str_eq (subject o) k then change_shown o now (get s k) else get s k)
  unfolding perform mark_running note_token finish_completed finish_failed finish_cancelled
  shown-perform s (submitted id) now k = get-queued s id now k
  shown-perform s (marked_running id worker) now k = get-update s id k _ now ∙ at_own s id k _
  shown-perform s (noted_token id n worker) now k = get-update s id k _ now ∙ at_own s id k _
  shown-perform s (cancelled_by_client id reason) now k =
      get-cancel s id k reason now ∙ at_own s id k _
  shown-perform s (completed_by_worker id n worker) now k =
      get-update s id k _ now ∙ at_own s id k _
  shown-perform s (failed_with id error) now k = get-update s id k _ now ∙ at_own s id k _
  shown-perform s (cancelled_by_worker id reason) now k = get-update s id k _ now ∙ at_own s id k _
  shown-perform s (recorded e) now k = get-record_event s e k ∙ either_way (str_eq e.request_id k) _

  cached-perform :
      (s : RequestState) (o : Operation) (now : ℕ) (k : String)
      → events (perform s o now) k
        ≡ (if str_eq (subject o) k then change_cached o (events s k) else events s k)
  unfolding perform mark_running note_token finish_completed finish_failed finish_cancelled
  cached-perform s (submitted id) now k =
      events-insert s (queued_record id now) k ∙ either_way (str_eq id k) _
  cached-perform s (marked_running id worker) now k =
      events-update s id _ now k ∙ either_way (str_eq id k) _
  cached-perform s (noted_token id n worker) now k =
      events-update s id _ now k ∙ either_way (str_eq id k) _
  cached-perform s (cancelled_by_client id reason) now k =
      events-cancel s id reason now k ∙ either_way (str_eq id k) _
  cached-perform s (completed_by_worker id n worker) now k =
      events-update s id _ now k ∙ either_way (str_eq id k) _
  cached-perform s (failed_with id error) now k =
      events-update s id _ now k ∙ either_way (str_eq id k) _
  cached-perform s (cancelled_by_worker id reason) now k =
      events-update s id _ now k ∙ either_way (str_eq id k) _
  cached-perform s (recorded e) now k = events-record_event s e k

  pub entry-perform :
      (s : RequestState) (o : Operation) (now : ℕ) (k : String)
      → entry_of (perform s o now) k
        ≡ (if str_eq (subject o) k then change (o, now) (entry_of s k) else entry_of s k)
  entry-perform s o now k = elim (Bool-cases (str_eq (subject o) k)) [
    | inl own ↦ rw (own, shown-perform, cached-perform, own) refl
    | inr other ↦ rw (other, shown-perform, cached-perform, other) refl
  ]

  -- The table over any operations shows of each request, in its record and in its cache, what the
  -- request's own operations, in their order, make of what was shown of it: nothing that is done
  -- to other requests, and no order between requests, can be told from it.
  pub entry-perform_all :
      (s : RequestState) (os : List (Operation × ℕ)) (k : String)
      → entry_of (perform_all s os) k ≡ follow (own_operations k os) (entry_of s k)
  unfolding perform_all
  entry-perform_all s [] k = refl
  entry-perform_all s ((o, now) ∷ os) k = elim (Bool-cases (str_eq (subject o) k)) [
    | inl own ↦ rw own (
        entry-perform_all (perform s o now) os k
        ∙ ap (follow (own_operations k os)) (rw own at (entry-perform s o now k)))
    | inr other ↦ rw other (
        entry-perform_all (perform s o now) os k
        ∙ ap (follow (own_operations k os)) (rw other at (entry-perform s o now k)))
  ]
