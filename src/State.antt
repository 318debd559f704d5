-- ===== src/State.antt =====
-- control-plane/src/state/mod.rs: the record of each request, the table of records and the cache of
-- the events that were routed. The clock's readings are arguments: `now` is what `now_ms` returned.
pub mod Lookup
pub mod Activity
pub mod Operations
pub mod Invariant
pub mod Progress
pub mod Keyed
pub mod Machine
pub mod Histories
use Prim.Native.Nat.{max}
use cria.Prelude.{
  if◌then◌else◌, ℕ, ◌+◌, ◌%◌, ◌^◌, String, Bool, true, false, not, Option, none, some, or_else,
  List, [], ◌∷◌, ◌++◌,
}
use cria.Table.{DashMap, count}
use cria.Pb.{TokenEvent}

pub data RequestStatusInternal : Type 0 where
  queued running completed failed cancelled : RequestStatusInternal

pub record RequestRecord : Type 0 where
  pub request_id : String
  pub status : RequestStatusInternal
  pub emitted_tokens : ℕ
  pub worker_id : Option String
  pub error_message : Option String
  pub cancellation_reason : Option String
  pub created_at_ms : ℕ
  pub updated_at_ms : ℕ

-- The system clock in milliseconds since the epoch, cut to a `u64`.
unfoldable pub now_ms : ℕ → ℕ
now_ms clock_ms = clock_ms % 2 ^ 64

-- `RequestRecord::queued`.
unfoldable pub queued_record : String → ℕ → RequestRecord
queued_record request_id now = record {
  request_id = request_id;
  status = queued;
  emitted_tokens = 0;
  worker_id = none;
  error_message = none;
  cancellation_reason = none;
  created_at_ms = now;
  updated_at_ms = now;
}

-- What `update` leaves in the entry.
abbrev pub stamp : (RequestRecord → RequestRecord) → ℕ → RequestRecord → RequestRecord
stamp change now r = record (change r) { updated_at_ms = now }

abbrev pub is_terminal_status : RequestStatusInternal → Bool
is_terminal_status completed = true
is_terminal_status failed = true
is_terminal_status cancelled = true
is_terminal_status _ = false

abbrev pub is_terminal : RequestRecord → Bool
is_terminal r = is_terminal_status r.status

module _ ⦃d : DashMap⦄ where
  pub record RequestState : Type 0 where
    pub inner : d.Map RequestRecord
    pub cached : d.Map (List TokenEvent)

  unfoldable pub new : RequestState
  new = record { inner = d.empty; cached = d.empty }

  unfoldable pub insert : RequestState → RequestRecord → RequestState
  insert s r = record s { inner = d.insert s.inner r.request_id r }

  unfoldable pub get : RequestState → String → Option RequestRecord
  get s request_id = d.get s.inner request_id

  unfoldable pub active_count : RequestState → ℕ
  active_count s = count (λ r. not (is_terminal r)) s.inner

  unfoldable pub update : RequestState → String → (RequestRecord → RequestRecord) → ℕ → RequestState
  update s request_id change now = elim (d.get s.inner request_id) [
    | none ↦ s
    | some r ↦ record s { inner = d.insert s.inner request_id (stamp change now r) }
  ]

  unfoldable pub mark_running : RequestState → String → String → ℕ → RequestState
  mark_running s request_id worker_id =
      update s request_id (λ r. record r { status = running; worker_id = some worker_id })

  unfoldable pub note_token : RequestState → String → ℕ → String → ℕ → RequestState
  note_token s request_id sequence_number worker_id = update s request_id λ r. record r {
    status = running;
    emitted_tokens = max r.emitted_tokens sequence_number;
    worker_id = some worker_id;
  }

  unfoldable pub cancel : RequestState → String → String → ℕ → RequestState × Bool
  cancel s request_id reason now = elim (d.get s.inner request_id) [
    | none ↦ (s, false)
    | some r ↦ if is_terminal r then (s, false) else (
      record s {
        inner = d.insert s.inner request_id (record r {
          status = cancelled;
          cancellation_reason = some reason;
          updated_at_ms = now;
        });
      },
      true,
    )
  ]

  unfoldable pub finish_completed : RequestState → String → ℕ → String → ℕ → RequestState
  finish_completed s request_id sequence_number worker_id = update s request_id λ r. record r {
    status = completed;
    emitted_tokens = max r.emitted_tokens sequence_number;
    worker_id = some worker_id;
  }

  unfoldable pub finish_failed : RequestState → String → String → ℕ → RequestState
  finish_failed s request_id error =
      update s request_id (λ r. record r { status = failed; error_message = some error })

  unfoldable pub finish_cancelled : RequestState → String → String → ℕ → RequestState
  finish_cancelled s request_id reason =
      update s request_id (λ r. record r { status = cancelled; error_message = some reason })

  -- `unwrap_or_default` of what is cached.
  unfoldable pub events : RequestState → String → List TokenEvent
  events s request_id = or_else (d.get s.cached request_id) []

  unfoldable pub record_event : RequestState → TokenEvent → RequestState
  unfolding events
  record_event s e = record s {
    cached = d.insert s.cached e.request_id (events s e.request_id ++ e ∷ []);
  }
