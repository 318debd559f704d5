-- ===== src/Examples/Boot.antt =====
-- A start in which everything goes well, and the registration of the metrics.
use cria.Prelude.{
  ◌*◌, String, ◌≡◌, refl, ◌⊎◌, Bool, true, false, ◌||◌, none, some, List, [], ◌∷◌, str_eq,
  if◌then◌else◌,
}
use cria.Table.{assoc_map, find, put, without}
use cria.HashMap
use cria.Text.{trim, trim_start, trim_end, is_whitespace, split, split_once}
use cria.Config.{from_env, sort, insert_sorted}
use cria.Config.Routes.{add_entry, add_entries, parse_model_routes}
use cria.Kafka.Topics.{wait_for_topics, wait_from, available, awaited_topics, used_topics, dedup}
use cria.Tls.{load_server_tls}
use cria.Config.Parse.{
  ok, err, env_or, optional_env, parse_env, parse_uint, parse_bool, parse_addr, digits,
}
use cria.Telemetry.Registration
use cria.Telemetry.Registration.{
  Prometheus, register_all, metric_opts, names_any, none_of, new-once,
}
use cria.Kafka.Producer.{refused, not_encoded}
use cria.Api.Finish.{produce}
use cria.Startup.Clients.{Outside, new_producer, new_consumer, await_topics}
use cria.Startup.Main.{serve_grpc, serve_all, main}
use cria.Startup.Gates.{IsReady, main-outcome}
use cria.System.{Action, submit_starts, submit_ends, cancel_called, started, run}
use cria.System.Published.{IsWithin}
use cria.Startup.Published.{run-published}
use cria.Startup.Routed.{IsGiven, by_submit, produce-routed}
use cria.Examples.Setup.{
  channels, no_channels, broker, config, producer, idle, ambient, asking, abort,
}
use cria.Examples.Service.{job, job_begun}

abbrev is_in : String → List String → Bool
is_in name [] = false
is_in name (other ∷ names) = str_eq other name || is_in name names

instance abbrev registry_of_names : Prometheus
registry_of_names = record {
  Registry = List String;
  is_registered = λ names name. is_in name names;
  register = λ names name help. if is_in name names then none else some (name ∷ names);
  register-free = λ names name help valid free. (name ∷ names, rw free refl, λ other. refl);
  register-taken = λ names name help there. rw there refl;
}

abbrev all_well : Outside
all_well = record {
  env = λ key. none;
  is_addr = λ text. true;
  uuid = "u1";
  fetch = λ round. some (
      "inference_requests.mock" ∷ "inference_requests.tinyllama-1.1b-chat"
      ∷ "inference_token_events" ∷ "inference_control_events" ∷ []);
  elapsed = λ round. round * 1000;
  create = λ settings. ok tt;
  subscribe = λ settings topics. ok tt;
  bind = λ addr. ok tt;
  read = λ path. ok path;
  tls_config = λ t. ok tt;
  serve = λ addr. ok tt;
}

main-outcome_example :
    ((message : String) × (main all_well [] no_channels ≡ ([], err message)))
    ⊎ IsReady all_well [] no_channels (main all_well [] no_channels)
main-outcome_example = main-outcome all_well [] no_channels

producer_made : new_producer all_well config ≡ ok producer
unfolding new_producer
producer_made = refl

produce-routed_example :
    let (g', result) = produce producer idle job in
    ((broker.encode_job job ≡ none) × (g'.sent ≡ idle.sent) × (result ≡ refused not_encoded))
    ⊎ IsGiven config job idle.sent g'.sent result
produce-routed_example =
    produce-routed all_well config producer idle job producer_made
      (by_submit idle (asking "r1" false) ambient 0 job_begun)

main_serves : (main all_well [] no_channels).1 ≡ ok tt
unfolding main from_env parse_model_routes add_entries add_entry trim trim_start trim_end
    is_whitespace split split_once env_or optional_env parse_env parse_uint parse_bool parse_addr
    await_topics wait_for_topics wait_from available awaited_topics sort insert_sorted dedup
    HashMap.empty HashMap.get HashMap.insert HashMap.or_insert find put without new_producer
    new_consumer serve_all serve_grpc load_server_tls Registration.new register_all digits
main_serves = refl

abbrev some_actions : List Action
some_actions =
    submit_starts (asking "r1" false) ambient
    ∷ cancel_called (abort "r1") ambient
    ∷ submit_ends 0
    ∷ []

all_named : available (used_topics config) (some ("events" ∷ "jobs" ∷ "control" ∷ [])) ≡ true
unfolding available HashMap.insert HashMap.empty put without
all_named = refl

run-published_example :
    IsWithin
      ("events" ∷ "jobs" ∷ "control" ∷ [])
      (run config producer (started no_channels) some_actions).gateway.sent
run-published_example =
    run-published all_well config producer no_channels some_actions
      ("events" ∷ "jobs" ∷ "control" ∷ []) producer_made all_named
