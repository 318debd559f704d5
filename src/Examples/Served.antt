-- ===== src/Examples/Served.antt =====
-- A request from its admission to its end among the steps of the other tasks, and a replay that
-- outlives its stream.
use cria.Prelude.{eq_iff, Every, ◌≡◌, refl, true, false, none, some, List, [], ◌∷◌, map, ◌↔◌, arith}
use cria.Table.{assoc_map, discard, find, put, without, count, tally}
use cria.Text.{trim, trim_start, trim_end, is_whitespace}
use cria.HashMap
use cria.Config.{request_topic_for_model}
use cria.Pb
use cria.Pb.{TokenEvent}
use cria.State
use cria.Streaming
use cria.Streaming.{event, sender_of}
use cria.Streaming.Wiring.{new-IsWired}
use cria.Streaming.Delivery.{accepted_items}
use cria.Kafka.Messages.{TokenEventKind, stream_job_options, into_proto}
use cria.Kafka.Producer
use cria.Kafka.Producer.{produce_request}
use cria.Kafka.Router.{note_event, deliver_event, apply_event}
use cria.Api.Begin.{
  enqueuing, job_of, chosen_id, chosen_model, wants_replay, normalize_max_tokens, admit, identify,
  submit_begin, replay_cached_events,
}
use cria.Api.Finish.{produce, submit_end}
use cria.System.{
  System, Action, submit_starts, submit_ends, infer_starts, event_comes, event_goes, replay_goes,
  started, step, run,
}
use cria.System.Runs.{started-IsSafe}
use cria.System.Steps.{run-IsSafe}
use cria.System.Service.{of_request, until_end, has_end, handed}
use cria.System.Served.{submit_starts-served, infer_starts-served}
use cria.State.Machine.{entry_of, follow, own_operations}
use cria.System.Records.{Avoids, reported}
use cria.System.Recorded.{submit_starts-recorded}
use cria.System.Intrusion.{replay-intrudes}
use cria.Bff.Leaks.{infer_id}
use cria.Examples.Setup.{
  channels, broker, no_channels, config, producer, ambient, idle, asking, token_event,
}
use cria.Examples.Service.{job, job_begun, job_sent}
use cria.Examples.Browser.{wanting, servable, idle_free}
use cria.Examples.Routing.{always-IsHeld}

abbrev at_rest : System
at_rest = record {
  gateway = idle;
  submissions = [];
  inferences = [];
  replays = [];
  delivering = none;
}

-- Another client's request comes between, and its events.
abbrev meanwhile : List Action
meanwhile =
    event_comes (token_event "r1" TokenEventKind.token 1) 5
    ∷ submit_starts (asking "r2" false) ambient
    ∷ event_goes
    ∷ submit_ends 0
    ∷ event_comes (token_event "r2" TokenEventKind.token 1) 6
    ∷ event_goes
    ∷ event_comes (token_event "r1" TokenEventKind.completed 1) 7
    ∷ event_goes
    ∷ submit_ends 0
    ∷ []

submit_starts-served_example :
    let s' = run config producer at_rest (submit_starts (asking "r1" false) ambient ∷ meanwhile) in
    let mine =
      of_request "r1"
        (handed config producer at_rest (submit_starts (asking "r1" false) ambient ∷ meanwhile)) in
    (accepted_items s'.gateway.streams 0 ≡ map event (until_end mine))
    × ((sender_of s'.gateway.streams "r1" ≡ some 0) ↔ (has_end mine ≡ false))
submit_starts-served_example =
    submit_starts-served config producer at_rest (asking "r1" false) ambient job 0 meanwhile
      (new-IsWired no_channels) (record { submissions = tt; replays = tt }) job_begun job_sent
      (always-IsHeld 0)

others_avoid : Every (Avoids "r1") meanwhile
unfolding chosen_id trim trim_start trim_end is_whitespace
others_avoid = (
  tt,
  (
    (λ same. ground (arith, (eq_iff "r2" "r1").1 same)),
    (tt, (tt, (tt, (tt, (tt, (tt, (tt, tt))))))),
  ),
)

submit_starts-recorded_example :
    let s' = step config producer at_rest (submit_starts (asking "r1" false) ambient) in
    entry_of
      (run config producer at_rest
        (submit_starts (asking "r1" false) ambient ∷ meanwhile)).gateway.state
      "r1"
    ≡ follow (own_operations "r1" (reported config producer s' meanwhile)) (record {
      shown = some (State.queued_record "r1" 1);
      cached = State.events idle.state "r1";
    })
submit_starts-recorded_example =
    submit_starts-recorded config producer at_rest (asking "r1" false) ambient job 0 meanwhile
      job_begun others_avoid

infer_starts-served_example :
    let s' = run config producer at_rest (infer_starts (wanting "r1") ambient ∷ meanwhile) in
    let id = infer_id (wanting "r1") ambient in
    let mine =
      of_request id
        (handed config producer at_rest (infer_starts (wanting "r1") ambient ∷ meanwhile)) in
    (accepted_items s'.gateway.streams 0 ≡ map event (until_end mine))
    × ((sender_of s'.gateway.streams id ≡ some 0) ↔ (has_end mine ≡ false))
unfolding Streaming.new
infer_starts-served_example =
    infer_starts-served config producer at_rest (wanting "r1") ambient meanwhile
      (new-IsWired no_channels) (record { submissions = tt; replays = tt }) (servable "r1")
      idle_free (always-IsHeld 0)

-- A request that ended is replayed, and its end is delivered once more while the replay waits.
abbrev outlived : List Action
outlived =
    submit_starts (asking "r1" false) ambient
    ∷ submit_ends 0
    ∷ event_comes (token_event "r1" TokenEventKind.completed 1) 5
    ∷ event_goes
    ∷ submit_starts (asking "r1" true) ambient
    ∷ event_comes (token_event "r1" TokenEventKind.completed 1) 6
    ∷ event_goes
    ∷ []

abbrev left_over : System
left_over = run config producer (started no_channels) outlived

abbrev replayed : TokenEvent
replayed = into_proto (token_event "r1" TokenEventKind.completed 1)

left_over_replays :
    left_over.replays ≡ record { request_id = "r1"; left = replayed ∷ []; terminal = false } ∷ []
unfolding run step started produce produce_request Producer.send submit_begin normalize_max_tokens
    identify admit job_of chosen_id chosen_model wants_replay trim trim_start trim_end is_whitespace
    State.active_count State.new count tally request_topic_for_model HashMap.get HashMap.insert
    HashMap.empty Streaming.register Streaming.new find put without stream_job_options submit_end
    note_event deliver_event apply_event replay_cached_events State.get State.insert
    State.queued_record State.record_event State.events State.finish_completed State.update
    Streaming.send Streaming.unregister into_proto Pb.event_type_of Pb.as_i32 discard
left_over_replays = refl

left_over_begun :
    (submit_begin config left_over.gateway (asking "r1" false) ambient).1 ≡ enqueuing job 2
unfolding run step started produce produce_request Producer.send submit_begin normalize_max_tokens
    identify admit job_of chosen_id chosen_model wants_replay trim trim_start trim_end is_whitespace
    State.active_count State.new count tally request_topic_for_model HashMap.get HashMap.insert
    HashMap.empty Streaming.register Streaming.new find put without stream_job_options submit_end
    note_event deliver_event apply_event replay_cached_events State.get State.insert
    State.queued_record State.record_event State.events State.finish_completed State.update
    Streaming.send Streaming.unregister into_proto Pb.event_type_of Pb.as_i32 discard
left_over_begun = refl

replay-intrudes_example :
    let s' =
      run config producer left_over
        (submit_starts (asking "r1" false) ambient ∷ replay_goes 0 ∷ []) in
    (accepted_items s'.gateway.streams 2 ≡ event replayed ∷ [])
    × (sender_of s'.gateway.streams job.request_id ≡ some 2)
replay-intrudes_example =
    replay-intrudes config producer left_over (asking "r1" false) ambient job 2
      (record { request_id = "r1"; left = replayed ∷ []; terminal = false }) replayed [] []
      (run-IsSafe config producer (started no_channels) outlived
        (started-IsSafe no_channels (λ i. refl))).gateway.isolated.wired
      left_over_replays refl refl left_over_begun (always-IsHeld 2)
