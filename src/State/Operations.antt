-- ===== src/State/Operations.antt =====
-- Sequences of operations on the table, as the handlers and the router make them in any order.
use cria.Prelude.{ℕ, String, List, [], ◌∷◌}
use cria.Table.{DashMap}
use cria.Pb.{TokenEvent}
use cria.State.{
  RequestState, insert, mark_running, note_token, cancel, finish_completed, finish_failed,
  finish_cancelled, record_event, queued_record,
}

-- The calls that change the table, with their arguments; `submitted` is `insert` of the record that
-- `RequestRecord::queued` makes, as both front ends call it.
pub data Operation : Type 0 where
  submitted : String → Operation
  marked_running : String → String → Operation
  noted_token : String → ℕ → String → Operation
  cancelled_by_client : String → String → Operation
  completed_by_worker : String → ℕ → String → Operation
  failed_with : String → String → Operation
  cancelled_by_worker : String → String → Operation
  recorded : TokenEvent → Operation

module _ ⦃d : DashMap⦄ where
  unfoldable pub perform : RequestState → Operation → ℕ → RequestState
  unfolding mark_running note_token finish_completed finish_failed finish_cancelled
  perform s (submitted id) now = insert s (queued_record id now)
  perform s (marked_running id worker) now = mark_running s id worker now
  perform s (noted_token id n worker) now = note_token s id n worker now
  perform s (cancelled_by_client id reason) now = (cancel s id reason now).0
  perform s (completed_by_worker id n worker) now = finish_completed s id n worker now
  perform s (failed_with id error) now = finish_failed s id error now
  perform s (cancelled_by_worker id reason) now = finish_cancelled s id reason now
  perform s (recorded e) now = record_event s e

  -- Each operation with the clock's reading at its time.
  unfoldable pub perform_all : RequestState → List (Operation × ℕ) → RequestState
  perform_all s [] = s
  perform_all s ((o, now) ∷ os) = perform_all (perform s o now) os
