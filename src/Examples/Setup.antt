-- ===== src/Examples/Setup.antt =====
-- Channels that accept whatever is sent, a broker that takes every record and a small configuration,
-- to apply the statements about control-plane to.
use cria.Prelude.{
  ℕ, ◌+◌, String, refl, Bool, true, false, ◌&&◌, none, some, List, [], ◌∷◌, ◌++◌, ◌==◌, str_eq,
  if◌then◌else◌,
}
use cria.Table.{assoc_map}
use cria.HashMap
use cria.State
use cria.Streaming
use cria.Streaming.{Mpsc, StreamItem}
use cria.Config.{Config}
use cria.Pb.{InferenceRequest, CancelRequest}
use cria.Kafka.Messages.{Kafka, TokenEventEnvelope, TokenEventKind}
use cria.Kafka.Producer.{KafkaProducer}
use cria.Gateway.{Gateway}
use cria.Api.Begin.{Ambient}

pub record Channels : Type 0 where
  pub made : ℕ
  pub items : ℕ → List StreamItem

instance abbrev pub channels : Mpsc
channels = record {
  Net = Channels;
  opened = λ net. net.made;
  accepted = λ net i. net.items i;
  channel = λ capacity net. record {
    made = net.made + 1;
    items = λ i. if net.made == i then [] else net.items i;
  };
  send = λ net i x. (
    record net { items = λ j. if true && i == j then net.items j ++ x ∷ [] else net.items j },
    true,
  );
  closed_text = "channel closed";
  opened-channel = λ capacity net. refl;
  accepted-channel = λ capacity net i. refl;
  opened-send = λ net i x. refl;
  accepted-send = λ net i x j. refl;
}

abbrev pub token_event : String → TokenEventKind → ℕ → TokenEventEnvelope
token_event id kind n = record {
  request_id = id;
  sequence_number = n;
  token = "a";
  probability = 0;
  event_type = kind;
  worker_id = "w1";
  error_message = none;
  timestamp_ms = 7;
}

-- The broker that says of each record whether it is delivered.
abbrev broker_that : Bool → Kafka
broker_that answers = record {
  encode_job = λ job. some job.request_id;
  encode_cancellation = λ event. some event.request_id;
  parse_envelope =
      λ text. if str_eq text "" then none else some (token_event text TokenEventKind.token 1);
  delivers = λ sent r. answers;
}

instance abbrev pub broker : Kafka
broker = broker_that true

abbrev pub broken_broker : Kafka
broken_broker = broker_that false

abbrev pub config : Config
config = record {
  grpc_addr = "0.0.0.0:50051";
  bff_addr = "0.0.0.0:8080";
  metrics_addr = "0.0.0.0:9090";
  kafka_brokers = "localhost:9092";
  model_routes = HashMap.insert HashMap.empty "mock" "jobs";
  default_model_id = "mock";
  token_topic = "events";
  control_topic = "control";
  gateway_group_id = "gateway";
  max_active_requests = 2;
  max_prompt_chars = 10;
  default_max_tokens = 4;
  max_tokens_limit = 8;
  request_timeout_ms = 1000;
  grpc_tls_cert = none;
  grpc_tls_key = none;
  grpc_tls_client_ca = none;
  grpc_tls_require_client_auth = false;
}

abbrev pub producer : KafkaProducer
producer = record { request_topics = config.model_routes; control_topic = "control" }

abbrev pub no_channels : Channels
no_channels = record { made = 0; items = λ i. [] }

abbrev pub idle : Gateway
idle = record { state = State.new; streams = Streaming.new no_channels; metrics = []; sent = [] }

abbrev pub ambient : Ambient
ambient = record { uuid = "u1"; queued_at = 1; stamped_at = 2; failed_at = 3 }

abbrev pub asking : String → Bool → InferenceRequest
asking id again = record {
  request_id = id;
  prompt = " hi ";
  max_tokens = 0;
  sampling = none;
  deadline_ms = 0;
  stream_options = some (record { include_probabilities = false; replay_from_beginning = again });
  model_id = "";
}

-- One request is queued and its stream is registered.
abbrev pub busy : Gateway
busy = record idle {
  state = State.insert State.new (State.queued_record "r1" 1);
  streams = (Streaming.register (Streaming.new no_channels) "r1").0;
}

abbrev pub abort : String → CancelRequest
abort id = record { request_id = id; reason = "stop" }

-- A start, another request's token, a token and the end.
abbrev pub topic_events : List (TokenEventEnvelope × ℕ)
topic_events =
    (token_event "r1" TokenEventKind.started 0, 10)
    ∷ (token_event "r2" TokenEventKind.token 1, 11)
    ∷ (token_event "r1" TokenEventKind.token 1, 12)
    ∷ (token_event "r1" TokenEventKind.completed 1, 13)
    ∷ []
