-- ===== src/Config.antt =====
-- control-plane/src/config.rs: the configuration, read from the environment, and the routes from
-- models to topics. The environment is a function; a variable that is not Unicode counts as unset.
-- An address is kept as the text that the standard parser of `SocketAddr` accepted, and which texts
-- that is is an argument, for the code only hands addresses on.
pub mod Parse
pub mod Routes
pub mod Bounds
pub mod Models
use cria.Prelude.{
  ℕ, ◌%◌, ◌^◌, String, Bool, true, false, not, Option, none, some, or_else, List, [], ◌∷◌, str_eq,
  if◌then◌else◌,
}
use Prim.Native.Nat.{compare, Ordering}
use Prim.Native.String.{◌++◌, compare as compare_text}
use cria.Text.{trim, is_empty}
use cria.HashMap
use cria.HashMap.{HashMap}
use Parse.{
  Result, ok, err, ◌>>=◌, env_or, optional_env, parse_env, parse_uint, parse_bool, parse_addr,
}
use Routes.{parse_model_routes}

pub record Config : Type 0 where
  pub grpc_addr : String
  pub bff_addr : String
  pub metrics_addr : String
  pub kafka_brokers : String
  pub model_routes : HashMap String
  pub default_model_id : String
  pub token_topic : String
  pub control_topic : String
  pub gateway_group_id : String
  pub max_active_requests : ℕ
  pub max_prompt_chars : ℕ
  pub default_max_tokens : ℕ
  pub max_tokens_limit : ℕ
  pub request_timeout_ms : ℕ
  pub grpc_tls_cert : Option String
  pub grpc_tls_key : Option String
  pub grpc_tls_client_ca : Option String
  pub grpc_tls_require_client_auth : Bool

-- `Config::from_env`; `uuid` is what `Uuid::new_v4` printed.
unfoldable pub from_env : (String → Option String) → (String → Bool) → String → Result Config
from_env env is_addr uuid = do
  let request_topic = env_or env "KAFKA_REQUEST_TOPIC" "inference_requests.mock"
  let default_model_id = env_or env "DEFAULT_MODEL_ID" "mock"
  let default_routes =
      "mock=" ++ request_topic ++ ",tinyllama-1.1b-chat=inference_requests.tinyllama-1.1b-chat"
  model_routes ←
      parse_model_routes (env_or env "MODEL_ROUTES" default_routes) default_model_id request_topic
  grpc_addr ← parse_env env (parse_addr is_addr) "GRPC_ADDR" "0.0.0.0:50051"
  bff_addr ← parse_env env (parse_addr is_addr) "BFF_ADDR" "0.0.0.0:8080"
  metrics_addr ← parse_env env (parse_addr is_addr) "METRICS_ADDR" "0.0.0.0:9090"
  max_active_requests ← parse_env env (parse_uint 64) "MAX_ACTIVE_REQUESTS" "128"
  max_prompt_chars ← parse_env env (parse_uint 64) "MAX_PROMPT_CHARS" "12000"
  default_max_tokens ← parse_env env (parse_uint 32) "DEFAULT_MAX_TOKENS" "128"
  max_tokens_limit ← parse_env env (parse_uint 32) "MAX_TOKENS_LIMIT" "1024"
  request_timeout_ms ← parse_env env (parse_uint 64) "REQUEST_TIMEOUT_MS" "120000"
  grpc_tls_require_client_auth ← parse_env env parse_bool "GRPC_TLS_REQUIRE_CLIENT_AUTH" "false"
  ok (record {
    grpc_addr = grpc_addr;
    bff_addr = bff_addr;
    metrics_addr = metrics_addr;
    kafka_brokers = env_or env "KAFKA_BROKERS" "localhost:9092";
    model_routes = model_routes;
    default_model_id = default_model_id;
    token_topic = env_or env "KAFKA_TOKEN_TOPIC" "inference_token_events";
    control_topic = env_or env "KAFKA_CONTROL_TOPIC" "inference_control_events";
    gateway_group_id = or_else (env "KAFKA_GATEWAY_GROUP_ID") ("llm-inference-gateway-" ++ uuid);
    max_active_requests = max_active_requests;
    max_prompt_chars = max_prompt_chars;
    default_max_tokens = default_max_tokens;
    max_tokens_limit = max_tokens_limit;
    request_timeout_ms = request_timeout_ms;
    grpc_tls_cert = optional_env env "GRPC_TLS_CERT";
    grpc_tls_key = optional_env env "GRPC_TLS_KEY";
    grpc_tls_client_ca = optional_env env "GRPC_TLS_CLIENT_CA";
    grpc_tls_require_client_auth = grpc_tls_require_client_auth;
  })

unfoldable pub request_topic_for_model : Config → String → Option String
request_topic_for_model c model_id = HashMap.get c.model_routes model_id

-- A text at its place in a sorted list.
unfoldable pub insert_sorted : String → List String → List String
insert_sorted a [] = a ∷ []
insert_sorted a (b ∷ l) =
    let rest = insert_sorted a l in
    elim (compare_text a b) [ Ordering.gt ↦ b ∷ rest | _ ↦ a ∷ (b ∷ l) ]

-- `sort()` on texts: the sorted list is determined, whatever the algorithm.
unfoldable pub sort : List String → List String
unfolding insert_sorted
sort [] = []
sort (a ∷ l) = insert_sorted a (sort l)

unfoldable pub model_ids : Config → List String
model_ids c = sort (HashMap.keys c.model_routes)
