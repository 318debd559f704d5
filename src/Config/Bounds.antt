-- ===== src/Config/Bounds.antt =====
-- What a configuration that was read guarantees to the rest of the gateway.
use cria.Prelude.{
  ℕ, ◌^◌, ◌<◌, ltb, true, inl, inr, String, ◌≡◌, refl, Bool, Option, some, arith, Option-cases,
}
use Prim.Native.String.{◌++◌}
use cria.Config.{Config, from_env, request_topic_for_model}
use cria.Config.Parse.{Result, ok, err, env_or, parse_env, parse_uint, parse_uint-lt}
use cria.Config.Routes.{parse_model_routes}
use cria.Config.Routes.Laws.{parse_model_routes-default}

-- The numbers are of their widths, and the default model has a topic.
pub record IsConfig (c : Config) : Type 0 where
  pub active : c.max_active_requests < 2 ^ 64
  pub prompt : c.max_prompt_chars < 2 ^ 64
  pub default_tokens : c.default_max_tokens < 2 ^ 32
  pub limit : c.max_tokens_limit < 2 ^ 32
  pub timeout : c.request_timeout_ms < 2 ^ 64
  pub default_routed :
      (topic : String) × (request_topic_for_model c c.default_model_id ≡ some topic)

abbrev fits : ℕ → Result ℕ → Bool
fits bound (ok n) = ltb n bound
fits bound (err e) = true

parse_env-fits :
    (env : String → Option String) (width : ℕ) (key default : String)
    → fits (2 ^ width) (parse_env env (parse_uint width) key default) ≡ true
unfolding parse_env
parse_env-fits env width key default =
    elim (Option-cases (parse_uint width (env_or env key default))) [
      | inl bad ↦ rw (bad, fits) refl
      | inr (m, read) ↦ ground (arith, read, parse_uint-lt width (env_or env key default) read)
    ]

-- An environment that is read without an error gives numbers of their widths, and a default model
-- that has a topic, whatever MODEL_ROUTES lists.
pub from_env-IsConfig :
    (env : String → Option String) (is_addr : String → Bool) (uuid : String) {c : Config}
    → from_env env is_addr uuid ≡ ok c
    → IsConfig c
unfolding from_env
from_env-IsConfig env is_addr uuid {c = c} h =
    let topic = env_or env "KAFKA_REQUEST_TOPIC" "inference_requests.mock" in
    let default_model_id = env_or env "DEFAULT_MODEL_ID" "mock" in
    let default_routes =
      "mock=" ++ topic ++ ",tinyllama-1.1b-chat=inference_requests.tinyllama-1.1b-chat" in
    let raw = env_or env "MODEL_ROUTES" default_routes in
    let read : parse_model_routes raw default_model_id topic ≡ ok c.model_routes =
      ground (arith, h) in
    let named : default_model_id ≡ c.default_model_id = ground (arith, h) in
    record {
      active = ground (arith, h, parse_env-fits env 64 "MAX_ACTIVE_REQUESTS" "128");
      prompt = ground (arith, h, parse_env-fits env 64 "MAX_PROMPT_CHARS" "12000");
      default_tokens = ground (arith, h, parse_env-fits env 32 "DEFAULT_MAX_TOKENS" "128");
      limit = ground (arith, h, parse_env-fits env 32 "MAX_TOKENS_LIMIT" "1024");
      timeout = ground (arith, h, parse_env-fits env 64 "REQUEST_TIMEOUT_MS" "120000");
      default_routed =
          unfold request_topic_for_model in
          rw (← named) (parse_model_routes-default raw default_model_id topic read);
    }
