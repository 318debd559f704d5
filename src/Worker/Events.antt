-- ===== src/Worker/Events.antt =====
-- workers/python/inference_worker/events.py: the job that a message of the request topic becomes,
-- and the token events. A payload is the dictionary that `json.loads` gives, as far as it is read
-- and with the types of what the control plane writes. A float is kept as the bit pattern of the
-- `f32` on the control plane's side.
use cria.Prelude.{ℕ, String, Bool, true, false, ◌||◌, Option, none, some, or_else, ◌==◌}
use cria.Text.{is_empty}
use cria.Kafka.Messages.{TokenEventEnvelope, TokenEventKind}

pub record SamplingPayload : Type 0 where
  pub temperature : Option ℕ
  pub top_p : Option ℕ
  pub top_k : Option ℕ
  pub seed : Option ℕ

pub record Payload : Type 0 where
  pub request_id : Option String
  pub model_id : Option String
  pub prompt : Option String
  pub max_tokens : Option ℕ
  pub sampling : Option SamplingPayload
  pub deadline_ms : Option ℕ

pub record SamplingOptions : Type 0 where
  pub temperature : ℕ
  pub top_p : ℕ
  pub top_k : ℕ
  pub seed : ℕ

-- Both zeros of a float are false.
abbrev pub is_float_zero : ℕ → Bool
is_float_zero b = b == 0 || b == 2147483648

abbrev pub is_int_zero : ℕ → Bool
is_int_zero n = n == 0

-- Python's `value or default`: a missing value and a false one give the default.
abbrev pub or_default {ℓ} : {A : Type ℓ} → (A → Bool) → Option A → A → A
or_default is_false none default = default
or_default is_false (some value) default = elim (is_false value) [ true ↦ default | false ↦ value ]

abbrev pub absent : SamplingPayload
absent = record { temperature = none; top_p = none; top_k = none; seed = none }

-- `SamplingOptions.from_payload`.
unfoldable pub sampling_from : Payload → SamplingOptions → SamplingOptions
sampling_from payload defaults =
    let raw = or_else payload.sampling absent in
    record {
      temperature = or_default is_float_zero raw.temperature defaults.temperature;
      top_p = or_default is_float_zero raw.top_p defaults.top_p;
      top_k = or_default is_int_zero raw.top_k defaults.top_k;
      seed = or_default is_int_zero raw.seed defaults.seed;
    }

pub record InferenceJob : Type 0 where
  pub request_id : String
  pub model_id : String
  pub prompt : String
  pub max_tokens : ℕ
  pub sampling : SamplingOptions
  pub deadline_ms : ℕ

infixl 20 ◌>>=◌
◌>>=◌ {ℓ ℓ'} : {A : Type ℓ} {B : Type ℓ'} → Option A → (A → Option B) → Option B
none >>= f = none
some a >>= f = f a

-- `InferenceJob.from_payload`; `none` is the `KeyError` of a missing `request_id` or `prompt`.
unfoldable pub from_payload : Payload → SamplingOptions → Option InferenceJob
unfolding sampling_from ◌>>=◌
from_payload payload defaults = do
  request_id ← payload.request_id
  prompt ← payload.prompt
  some (record {
    request_id = request_id;
    model_id = or_default is_empty payload.model_id "mock";
    prompt = prompt;
    max_tokens = or_default is_int_zero payload.max_tokens 128;
    sampling = sampling_from payload defaults;
    deadline_ms = or_default is_int_zero payload.deadline_ms 0;
  })

-- `token_event`, with the reading of the clock that it takes, as the gateway reads it.
unfoldable pub token_event :
    String → ℕ → TokenEventKind → String → String → ℕ → Option String → ℕ → TokenEventEnvelope
token_event request_id sequence_number event_type worker_id token probability error_message now =
    record {
      request_id = request_id;
      sequence_number = sequence_number;
      token = token;
      probability = probability;
      event_type = event_type;
      worker_id = worker_id;
      error_message = error_message;
      timestamp_ms = now;
    }
