-- ===== src/Examples/Service.antt =====
-- The gRPC service, on an idle gateway and on one with a queued request.
use cria.Prelude.{eq_iff, ◌+◌, ◌≡◌, refl, false, none, some, str_eq, arith, if◌then◌else◌}
use cria.Table.{assoc_map, find, put, without, count, tally}
use cria.Text.{trim, trim_start, trim_end, is_whitespace}
use cria.HashMap
use cria.Config.{request_topic_for_model}
use cria.State
use cria.State.{RequestRecord, RequestStatusInternal, queued_record}
use cria.Streaming
use cria.Streaming.{resource_exhausted, sender_of, event, not_found, already_exists, unavailable}
use cria.Telemetry.{calls, is_up, is_down}
use cria.Kafka.Messages.{stream_job_options, InferenceJob}
use cria.Kafka.Producer
use cria.Kafka.Producer.{produced, refused, not_delivered, produce_request, produce_cancellation}
use cria.Gateway.{Gateway}
use cria.Api.Begin.{
  rejected, enqueuing, status, job_of, chosen_id, chosen_model, wants_replay, normalize_max_tokens,
  admit, identify, submit_begin,
}
use cria.Api.Finish.{refusal, produce, submit}
use cria.Api.Admission.{IsAdmitted, submit_begin-IsAdmitted}
use cria.Api.Race.{submit-race}
use cria.Api.Failure.{failed_record, submit-refused}
use cria.Examples.Setup.{
  channels, broker, broken_broker, config, producer, idle, ambient, asking, busy,
}

abbrev pub job : InferenceJob
job = record {
  request_id = "r1";
  model_id = "mock";
  prompt = "hi";
  max_tokens = 4;
  sampling = none;
  stream_options = some (record { include_probabilities = false; replay_from_beginning = false });
  deadline_ms = 1000;
  timestamp_ms = 2;
}

pub job_begun : (submit_begin config idle (asking "r1" false) ambient).1 ≡ enqueuing job 0
unfolding submit_begin normalize_max_tokens identify admit job_of chosen_id chosen_model
    wants_replay trim trim_start trim_end is_whitespace State.active_count State.new count tally
    request_topic_for_model HashMap.get HashMap.insert HashMap.empty Streaming.register
    Streaming.new find put without stream_job_options
job_begun = refl

pub job_sent :
    (produce producer (submit_begin config idle (asking "r1" false) ambient).0 job).1 ≡ produced
unfolding produce produce_request find HashMap.insert HashMap.empty put without Producer.send
job_sent = refl

job_not_sent :
    (produce ⦃k = broken_broker⦄ producer
      (submit_begin config idle (asking "r1" false) ambient).0
      job).1
    ≡ refused not_delivered
unfolding produce produce_request find HashMap.insert HashMap.empty put without Producer.send
job_not_sent = refl

abbrev admitted_gateway : Gateway
admitted_gateway = (submit_begin config idle (asking "r1" false) ambient).0

submit_begin-IsAdmitted_example :
    IsAdmitted config idle (asking "r1" false) ambient admitted_gateway job 0
submit_begin-IsAdmitted_example =
    submit_begin-IsAdmitted config idle (asking "r1" false) ambient job 0 job_begun

submit-refused_example :
    let (g', answer) =
      submit ⦃k = broken_broker⦄ config producer idle (asking "r1" false) ambient in
    (answer ≡ refusal (status unavailable "failed to enqueue inference request"))
    × (State.get g'.state "r2" ≡ (
        if str_eq "r1" "r2"
        then some (failed_record "r1" "failed to enqueue inference request" 1 3)
        else State.get idle.state "r2"))
    × (sender_of g'.streams "r2" ≡ sender_of idle.streams "r2")
    × (calls is_up g'.metrics + calls is_down idle.metrics
        ≡ calls is_up idle.metrics + calls is_down g'.metrics)
submit-refused_example =
    submit-refused ⦃k = broken_broker⦄ config producer idle (asking "r1" false) ambient job 0
      not_delivered "r2" job_begun job_not_sent

-- One place is left below the limit of two.
second_begun :
    (submit_begin config busy (asking "r2" false) ambient).1
    ≡ enqueuing (record job { request_id = "r2" }) 1
unfolding submit_begin normalize_max_tokens identify admit job_of chosen_id chosen_model
    wants_replay trim trim_start trim_end is_whitespace State.active_count State.new State.insert
    State.queued_record count tally request_topic_for_model HashMap.get HashMap.insert HashMap.empty
    Streaming.register Streaming.new find put without stream_job_options
second_begun = refl

third_begun :
    (submit_begin config busy (asking "r3" false) ambient).1
    ≡ enqueuing (record job { request_id = "r3" }) 1
unfolding submit_begin normalize_max_tokens identify admit job_of chosen_id chosen_model
    wants_replay trim trim_start trim_end is_whitespace State.active_count State.new State.insert
    State.queued_record count tally request_topic_for_model HashMap.get HashMap.insert HashMap.empty
    Streaming.register Streaming.new find put without stream_job_options
third_begun = refl

one_place_left : State.active_count busy.state + 1 ≡ 2
unfolding State.active_count State.insert State.new queued_record count tally put without
one_place_left = refl

unknown_second : State.get busy.state "r2" ≡ none
unfolding State.get State.insert State.new queued_record find put without
unknown_second = refl

unknown_third : State.get busy.state "r3" ≡ none
unfolding State.get State.insert State.new queued_record find put without
unknown_third = refl

submit-race_example :
    let g' = (submit_begin config busy (asking "r2" false) ambient).0 in
    let (g'', begun) = admit g' (record job { request_id = "r3" }) ambient in
    ((submit_begin config g' (asking "r3" false) ambient).1
      ≡ rejected (status resource_exhausted "too many active requests"))
    × (begun ≡ enqueuing (record job { request_id = "r3" }) (channels.opened g'.streams.net))
    × (State.active_count g''.state ≡ 3)
submit-race_example =
    submit-race config busy (asking "r2" false) (asking "r3" false) ambient ambient
      (record job { request_id = "r2" }) (record job { request_id = "r3" }) 1 1 second_begun
      third_begun (λ same. ground (arith, (eq_iff "r2" "r3").1 same)) unknown_second unknown_third
      one_place_left
