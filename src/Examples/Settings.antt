-- ===== src/Examples/Settings.antt =====
-- The configuration: routes, numbers, an environment that sets nothing, and a wait for topics.
use mathlib.Core.List
use cria.Prelude.{
  ℕ, suc, ◌+◌, ◌*◌, ◌≤◌, ◌⊎◌, String, ◌≡◌, refl, Bool, true, false, Option, none, some, or_else,
  List, str_eq, if◌then◌else◌, arith,
}
use cria.Table.{find, put, without}
use cria.Text.{trim, trim_start, trim_end, is_whitespace, split, split_once}
use cria.Text.Split.{separated}
use cria.HashMap
use cria.HashMap.{HashMap}
use cria.Config.{Config, from_env}
use cria.Config.Parse.{ok, env_or, optional_env, parse_env, parse_uint, parse_bool, parse_addr}
use cria.Config.Routes.{add_entry, add_entries, parse_model_routes}
use cria.Config.Routes.RoundTrip.{comma, IsRoute, write_route, last_of, parse_model_routes-written}
use cria.Config.Bounds.{IsConfig, from_env-IsConfig}
use cria.Kafka.Topics.{used_topics, wait_for_topics, Ends, wait_for_topics-Ends}
use cria.Config.Parse.{Result}
use cria.Tls.{ServerTlsConfig, IsMutual, load_server_tls, load_server_tls-IsMutual}
use cria.Examples.Setup.{config}

abbrev read_routes : HashMap String
read_routes = HashMap.or_insert (HashMap.insert HashMap.empty "a" "x") "mock" "jobs"

routes_read : parse_model_routes " a = x ,," "mock" "jobs" ≡ ok read_routes
unfolding parse_model_routes add_entries add_entry trim trim_start trim_end is_whitespace split
    split_once
routes_read = refl

route_found : HashMap.get read_routes "a" ≡ some "x"
unfolding HashMap.get HashMap.insert HashMap.or_insert HashMap.empty find put without
route_found = refl

abbrev model_a : String
model_a = "a"

a-IsRoute : IsRoute ("a", "x")
unfolding trim_start trim_end is_whitespace
a-IsRoute = record {
  model = ((refl, refl), refl);
  topic = ((refl, refl), refl);
  no_equals = refl;
  no_comma = refl;
  no_comma_topic = refl;
}

parse_model_routes-written_example :
    (routes : HashMap String) × (parse_model_routes
        (separated comma
          (write_route ("a", "x"))
          (List.map write_route (List.◌∷◌ ("a", "x") List.[])))
        "mock"
        "jobs"
      ≡ ok routes)
    × (HashMap.get routes "a" ≡ (
        if str_eq "mock" "a"
        then some (
            or_else
              (last_of "mock" (List.◌∷◌ ("a", "x") (List.◌∷◌ ("a", "x") List.[])) none)
              "jobs")
        else last_of "a" (List.◌∷◌ ("a", "x") (List.◌∷◌ ("a", "x") List.[])) none))
parse_model_routes-written_example =
    parse_model_routes-written ("a", "x") (List.◌∷◌ ("a", "x") List.[]) "mock" "jobs" "a" a-IsRoute
      (a-IsRoute, tt)

abbrev unset : String → Option String
unset key = none

abbrev any_address : String → Bool
any_address text = true

abbrev defaults : Config
defaults = record {
  grpc_addr = "0.0.0.0:50051";
  bff_addr = "0.0.0.0:8080";
  metrics_addr = "0.0.0.0:9090";
  kafka_brokers = "localhost:9092";
  model_routes =
      HashMap.or_insert
        (HashMap.insert (HashMap.insert HashMap.empty "mock" "inference_requests.mock")
          "tinyllama-1.1b-chat" "inference_requests.tinyllama-1.1b-chat")
        "mock" "inference_requests.mock";
  default_model_id = "mock";
  token_topic = "inference_token_events";
  control_topic = "inference_control_events";
  gateway_group_id = "llm-inference-gateway-u1";
  max_active_requests = 128;
  max_prompt_chars = 12000;
  default_max_tokens = 128;
  max_tokens_limit = 1024;
  request_timeout_ms = 120000;
  grpc_tls_cert = none;
  grpc_tls_key = none;
  grpc_tls_client_ca = none;
  grpc_tls_require_client_auth = false;
}

defaults_read : from_env unset any_address "u1" ≡ ok defaults
unfolding from_env parse_model_routes add_entries add_entry trim trim_start trim_end is_whitespace
    split split_once env_or optional_env parse_env parse_uint parse_bool parse_addr
defaults_read = refl

from_env-IsConfig_example : IsConfig defaults
from_env-IsConfig_example = from_env-IsConfig unset any_address "u1" {c = defaults} defaults_read

abbrev seconds : ℕ → ℕ
seconds round = round * 1000

abbrev nothing_named : ℕ → Option (List String)
nothing_named round = some List.[]

a_second : (i : ℕ) → seconds i + 1000 ≤ seconds (suc i)
a_second i = omega arith

wait_for_topics-Ends_example :
    (n : ℕ) × Ends
      (used_topics config)
      nothing_named
      seconds
      0
      n
      (wait_for_topics config nothing_named seconds)
wait_for_topics-Ends_example = wait_for_topics-Ends nothing_named seconds a_second config

abbrev any_file : String → Result String
any_file path = ok path

abbrev two_sided : Config
two_sided = record config {
  grpc_tls_cert = some "server.crt";
  grpc_tls_key = some "server.key";
  grpc_tls_client_ca = some "ca.crt";
  grpc_tls_require_client_auth = true;
}

abbrev mutual_tls : ServerTlsConfig
mutual_tls = record {
  certificate = "server.crt";
  key = "server.key";
  client_ca_root = some "ca.crt";
}

tls_loaded : load_server_tls any_file two_sided ≡ ok (some mutual_tls)
unfolding load_server_tls
tls_loaded = refl

load_server_tls-IsMutual_example :
    ((some mutual_tls ≡ none)
      × ((two_sided.grpc_tls_cert ≡ none) ⊎ (two_sided.grpc_tls_key ≡ none)))
    ⊎ ((t : ServerTlsConfig) × (some mutual_tls ≡ some t) × IsMutual any_file two_sided t)
load_server_tls-IsMutual_example =
    load_server_tls-IsMutual any_file two_sided (some mutual_tls) refl tls_loaded
