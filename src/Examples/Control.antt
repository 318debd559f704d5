-- ===== src/Examples/Control.antt =====
-- Cancellations, replays and a duplicate, on a gateway with a queued request.
use mathlib.Core.Option
use cria.Prelude.{
  ◌+◌, ◌≡◌, refl, false, none, some, List, [], ◌∷◌, ◌++◌, map, str_eq, if◌then◌else◌,
}
use cria.Table.{assoc_map, find, put, without}
use cria.Text.{trim, trim_start, trim_end, is_whitespace, is_empty}
use cria.HashMap
use cria.Config.{request_topic_for_model}
use cria.Pb.{TokenEvent}
use cria.State
use cria.State.{RequestRecord, RequestStatusInternal, queued_record}
use cria.State.Lookup.{is_active_entry, cancel_if_active}
use cria.Streaming.{sender_of, event, already_exists}
use cria.Streaming.Delivery.{accepted_items}
use cria.Telemetry.{calls, is_inc, cancelled_requests}
use cria.Kafka.Messages.{TokenEventKind, into_proto}
use cria.Api.Begin.{rejected, status, chosen_id, chosen_model, wants_replay, identify, replay_task}
use cria.Api.Control.{response, cancel_message, cancel, get_status}
use cria.Api.Failure.{failed_record}
use cria.Api.Duplicate.{duplicate_text, identify-taken}
use cria.Api.Replay.{ends_terminal, replay_task-delivers}
use cria.Api.Cancellation.{cancel-effect, cancel-twice, told_workers}
use cria.Examples.Setup.{
  channels, broker, config, producer, ambient, asking, busy, abort, token_event,
}
use cria.Examples.Routing.{always-IsHeld, busy_known, busy_registered}

named : is_empty (trim " r1 ") ≡ false
unfolding trim trim_start trim_end is_whitespace
named = refl

cancel-effect_example :
    let id = trim " r1 " in
    let accepted = is_active_entry (State.get busy.state id) in
    let (g', reply) = cancel producer busy (abort " r1 ") ambient in
    (reply
      ≡ response
          (record { request_id = id; accepted = accepted; message = cancel_message accepted }))
    × (State.get g'.state "r1" ≡ (
        if str_eq id "r1"
        then Option.map (cancel_if_active "stop" 1) (State.get busy.state id)
        else State.get busy.state "r1"))
    × (g'.streams ≡ busy.streams)
    × (calls (is_inc cancelled_requests) g'.metrics
        ≡ calls (is_inc cancelled_requests) busy.metrics + (if accepted then 1 else 0))
    × (g'.sent ≡ busy.sent ++ (if accepted then told_workers producer id "stop" 2 else []))
cancel-effect_example = cancel-effect producer busy (abort " r1 ") ambient "r1" named

busy_known_trimmed : State.get busy.state (trim "r1") ≡ some (queued_record "r1" 1)
unfolding trim trim_start trim_end is_whitespace
busy_known_trimmed = busy_known

named_r1 : is_empty (trim "r1") ≡ false
unfolding trim trim_start trim_end is_whitespace
named_r1 = refl

same_name : trim " r1 " ≡ trim "r1"
unfolding trim trim_start trim_end is_whitespace
same_name = refl

queued_active : State.is_terminal (queued_record "r1" 1) ≡ false
unfolding queued_record
queued_active = refl

abbrev cached_events : List TokenEvent
cached_events =
    into_proto (token_event "r1" TokenEventKind.token 1)
    ∷ into_proto (token_event "r1" TokenEventKind.completed 1)
    ∷ []

replay_task-delivers_example :
    (accepted_items (replay_task busy.streams "r1" cached_events) 0
      ≡ accepted_items busy.streams 0 ++ map event cached_events)
    × (sender_of (replay_task busy.streams "r1" cached_events) "r1"
        ≡ (if ends_terminal false cached_events then none else some 0))
replay_task-delivers_example =
    replay_task-delivers busy.streams "r1" 0 cached_events busy_registered (always-IsHeld 0)

once : wants_replay (asking "r1" false) ≡ false
unfolding wants_replay
once = refl

routed : request_topic_for_model config (chosen_model config (asking "r1" false)) ≡ some "jobs"
unfolding request_topic_for_model chosen_model trim trim_start trim_end is_whitespace HashMap.get
    HashMap.insert HashMap.empty find put without
routed = refl

taken : sender_of busy.streams (chosen_id (asking "r1" false) "u1") ≡ some 0
unfolding chosen_id trim trim_start trim_end is_whitespace
taken = busy_registered

identify-taken_example :
    let (g', begun) = identify config busy (asking "r1" false) ambient "hi" 4 in
    (begun ≡ rejected (status already_exists duplicate_text))
    × (g'.streams ≡ busy.streams)
    × (State.get g'.state (chosen_id (asking "r1" false) "u1")
        ≡ some (failed_record (chosen_id (asking "r1" false) "u1") duplicate_text 1 3))
identify-taken_example =
    identify-taken config busy (asking "r1" false) ambient "hi" 4 "jobs" 0 once routed taken

cancel-twice_example :
    let g' = (cancel producer busy (abort "r1") ambient).0 in
    (get_status g' (trim "r1")
      ≡ response (record {
        request_id = "r1";
        status = 5;
        emitted_tokens = 0;
        worker_id = "";
        error_message = "";
        created_at_ms = 1;
        updated_at_ms = 1;
      }))
    × (cancel producer g' (abort " r1 ") ambient ≡ (
      g',
      response (record {
        request_id = trim "r1";
        accepted = false;
        message = "request not found or already terminal";
      }),
    ))
unfolding queued_record
cancel-twice_example =
    cancel-twice producer busy (abort "r1") (abort " r1 ") ambient ambient (queued_record "r1" 1)
      named_r1 same_name busy_known_trimmed queued_active
