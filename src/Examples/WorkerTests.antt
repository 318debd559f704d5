-- ===== src/Examples/WorkerTests.antt =====
-- The tests of workers/python/tests, as equations.
use cria.Prelude.{◌≡◌, refl, false, none, some, [], ◌∷◌, map, leb}
use cria.Text.{is_whitespace}
use cria.Kafka.Messages.{TokenEventKind}
use cria.Worker.Events.{InferenceJob, SamplingOptions, Payload, from_payload, sampling_from}
use cria.Worker.Backend.{mock_backend}
use cria.Worker.Job.{TokenProducer, Ambient, Run, process_job}
use cria.Worker.Transcript.{heard}

abbrev fake_kafka : TokenProducer
fake_kafka = record { refuses = λ es e. none }

-- The third check and those behind it find the cancellation.
abbrev cancelled_after_first_token : Ambient
cancelled_after_first_token = record { is_cancelled = λ n. leb 2 n; now_ms = λ n. 0 }

abbrev default_sampling : SamplingOptions
default_sampling = record { temperature = 7; top_p = 9; top_k = 50; seed = 0 }

abbrev cancel_me : InferenceJob
cancel_me = record {
  request_id = "cancel-me";
  model_id = "mock";
  prompt = "cancel after one token";
  max_tokens = 16;
  sampling = default_sampling;
  deadline_ms = 0;
}

abbrev no_run : Run
no_run = record { published = []; metrics = []; flushes = 0; checks = 0; readings = 0 }

abbrev ran : Run
ran =
    (process_job fake_kafka "test-worker" cancelled_after_first_token cancel_me mock_backend
      no_run).0

process_job_emits_cancelled_when_backend_stops :
    (map (λ e. e.event_type) ran.published
      ≡ TokenEventKind.started ∷ TokenEventKind.token ∷ TokenEventKind.cancelled ∷ [])
    × (ran.flushes ≡ 1)
unfolding process_job mock_backend is_whitespace
process_job_emits_cancelled_when_backend_stops = (refl, refl)

mock_backend_generates_requested_token_count :
    map (λ t. t.text) (heard (λ n. false) 0 (mock_backend "hello" 5 default_sampling)).0
    ≡ "This " ∷ "is " ∷ "a " ∷ "mock " ∷ "distributed " ∷ []
unfolding heard mock_backend is_whitespace
mock_backend_generates_requested_token_count = refl

abbrev small_payload : Payload
small_payload = record {
  request_id = some "req-1";
  model_id = none;
  prompt = some "hello";
  max_tokens = some 8;
  sampling = none;
  deadline_ms = none;
}

inference_job_uses_defaults_for_missing_sampling :
    from_payload small_payload default_sampling
    ≡ some (record {
      request_id = "req-1";
      model_id = "mock";
      prompt = "hello";
      max_tokens = 8;
      sampling = default_sampling;
      deadline_ms = 0;
    })
unfolding from_payload
inference_job_uses_defaults_for_missing_sampling = refl

-- A temperature of 0 is not what the job gets.
zero_temperature_is_replaced :
    (sampling_from
      (record small_payload {
        sampling = some (record { temperature = some 0; top_p = none; top_k = none; seed = none });
      })
      default_sampling).temperature
    ≡ 7
unfolding sampling_from
zero_temperature_is_replaced = refl
