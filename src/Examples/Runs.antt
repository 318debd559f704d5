-- ===== src/Examples/Runs.antt =====
-- Runs of the table of records and of the registry of streams.
use cria.Prelude.{◌≢◌, true, ℕ, ◌≡◌, refl, none, some, List, [], ◌∷◌, arith}
use cria.Table.{assoc_map, find, put, without}
use cria.State.{
  RequestRecord, RequestStatusInternal, queued_record, new, insert, get, update, cancel,
  mark_running, note_token,
}
use cria.State.Operations.{
  Operation, submitted, marked_running, noted_token, cancelled_by_client, perform, perform_all,
}
use cria.State.Invariant.{IsSound, InOrder, run-IsSound}
use cria.State.Machine.{entry_of, follow, own_operations, entry-perform_all}
use cria.Streaming
use cria.Streaming.{sender_of, register, event, send}
use cria.Streaming.Race.{looks_free, enter, register-race}
use cria.Streaming.Delivery.{accepted_items}
use cria.Kafka.Messages.{TokenEventKind, into_proto}
use cria.Examples.Setup.{channels, no_channels, token_event}

abbrev calls_of_table : List (Operation × ℕ)
calls_of_table =
    (submitted "r1", 3)
    ∷ (marked_running "r1" "w1", 4)
    ∷ (noted_token "r1" 2 "w1", 5)
    ∷ (submitted "r2", 6)
    ∷ (noted_token "r1" 1 "w1", 6)
    ∷ (cancelled_by_client "r1" "stop", 9)
    ∷ []

abbrev left_record : RequestRecord
left_record = record {
  request_id = "r1";
  status = RequestStatusInternal.cancelled;
  emitted_tokens = 2;
  worker_id = some "w1";
  error_message = none;
  cancellation_reason = some "stop";
  created_at_ms = 3;
  updated_at_ms = 9;
}

left_is : get (perform_all new calls_of_table) "r1" ≡ some left_record
unfolding get perform_all perform new insert queued_record update cancel mark_running note_token put
    without find
left_is = refl

in_order : InOrder 0 calls_of_table 9
in_order = ground arith

run-IsSound_example : IsSound 9 "r1" left_record
run-IsSound_example = run-IsSound 9 calls_of_table "r1" left_record in_order left_is

nobody : sender_of (Streaming.new no_channels) "r1" ≡ none
unfolding sender_of Streaming.new find
nobody = refl

register-race_example :
    let (s', first) = enter (Streaming.new no_channels) "r1" in
    let (s'', second) = enter s' "r1" in
    let x = event (into_proto (token_event "r1" TokenEventKind.token 1)) in
    (looks_free (Streaming.new no_channels) "r1" ≡ true)
    × (register (Streaming.new no_channels) "r1" ≡ (s', some first))
    × (first ≢ second)
    × (sender_of s'' "r1" ≡ some second)
    × (accepted_items (send s'' "r1" x).0 first ≡ accepted_items s'' first)
register-race_example =
    register-race (Streaming.new no_channels) "r1"
      (event (into_proto (token_event "r1" TokenEventKind.token 1))) nobody

entry-perform_all_example :
    entry_of (perform_all new calls_of_table) "r1"
    ≡ follow (own_operations "r1" calls_of_table) (entry_of new "r1")
entry-perform_all_example = entry-perform_all new calls_of_table "r1"
