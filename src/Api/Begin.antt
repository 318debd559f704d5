-- ===== src/Api/Begin.antt =====
-- `submit` up to the producer's call, with `normalize_max_tokens` and `replay_cached_events`.
use Prim.Native.String.{len, ◌++◌ as append}
use mathlib.Core.Option
use cria.Prelude.{
  ℕ, ◌%◌, ◌^◌, String, Bool, false, none, some, List, [], ◌∷◌, ◌++◌, ltb, leb, ◌==◌, if◌then◌else◌,
}
use cria.Table.{DashMap}
use cria.Text.{trim, is_empty, join, show}
use cria.Config.{Config, request_topic_for_model, model_ids}
use cria.Pb.{InferenceRequest, TokenEvent, event_type_of}
use cria.State
use cria.State.{queued_record}
use cria.Streaming
use cria.Streaming.{
  Mpsc, StreamRegistry, Status, StatusCode, invalid_argument, resource_exhausted, already_exists,
  unavailable, not_found, event,
}
use cria.Telemetry.{inc, active_streams_inc, active_streams_dec, rejected_requests}
use cria.Kafka.Messages.{InferenceJob, sampling_job_options, stream_job_options}
use cria.Kafka.Router.{is_terminal_event}
use cria.Gateway.{Gateway}

-- What a handler reads from outside: `Uuid::new_v4`, and the clock at each call of `now_ms`.
pub record Ambient : Type 0 where
  pub uuid : String
  pub queued_at : ℕ
  pub stamped_at : ℕ
  pub failed_at : ℕ

abbrev pub status : StatusCode → String → Status
status code message = record { code = code; message = message }

-- `Result<u32, Status>`.
pub data Tokens : Type 0 where
  within : ℕ → Tokens
  exceeded : Status → Tokens

unfoldable pub normalize_max_tokens : ℕ → ℕ → ℕ → Tokens
normalize_max_tokens value default limit =
    let value' = if value == 0 then default else value in
    if ltb limit value'
    then exceeded (status invalid_argument (append "max_tokens exceeds limit of " (show limit)))
    else within value'

-- Where the first half of `submit` leads: to an answer, to a stream and the spawned task that
-- replays the cached events into it, or to the producer, with the job and the client's receiver.
pub data Begun : Type 0 where
  rejected : Status → Begun
  replaying : ℕ → String → List TokenEvent → Begun
  enqueuing : InferenceJob → ℕ → Begun

unfoldable pub chosen_id : InferenceRequest → String → String
chosen_id request uuid =
    if is_empty (trim request.request_id) then uuid else trim request.request_id

unfoldable pub chosen_model : Config → InferenceRequest → String
chosen_model c request =
    if is_empty (trim request.model_id) then c.default_model_id else trim request.model_id

unfoldable pub wants_replay : InferenceRequest → Bool
wants_replay request = elim request.stream_options [
  | none ↦ false
  | some options ↦ options.replay_from_beginning
]

unfoldable pub job_of : Config → InferenceRequest → Ambient → String → ℕ → InferenceJob
job_of c request amb prompt max_tokens = record {
  request_id = chosen_id request amb.uuid;
  model_id = chosen_model c request;
  prompt = prompt;
  max_tokens = max_tokens;
  sampling = Option.map sampling_job_options request.sampling;
  stream_options = Option.map stream_job_options request.stream_options;
  deadline_ms =
      if request.deadline_ms == 0 then c.request_timeout_ms % 2 ^ 64 else request.deadline_ms;
  timestamp_ms = amb.stamped_at;
}

module _ ⦃d : DashMap⦄ ⦃ch : Mpsc⦄ where
  unfoldable pub replay_cached_events : Gateway → String → Gateway × Begun
  replay_cached_events g request_id =
      if is_empty (trim request_id)
      then (
        g,
        rejected
            (status invalid_argument "request_id is required when replay_from_beginning is true"),
      )
      else elim (State.get g.state request_id) [
        | none ↦ (g, rejected (status not_found "request not found"))
        | some r ↦ elim (Streaming.register g.streams request_id).1 [
          | none ↦ (g, rejected (status already_exists "request id already has an active stream"))
          | some receiver ↦ (
            record g { streams = (Streaming.register g.streams request_id).0 },
            replaying receiver request_id (State.events g.state request_id),
          )
        ]
      ]

  -- The spawned task: its loop over the events, and what it does behind the last one.
  unfoldable pub replay_loop :
      StreamRegistry → String → Bool → List TokenEvent → StreamRegistry × Bool
  replay_loop s request_id terminal [] = (s, terminal)
  replay_loop s request_id terminal (e ∷ es) =
      replay_loop (Streaming.send s request_id (event e)).0 request_id
        (is_terminal_event (event_type_of e.event_type)) es

  unfoldable pub replay_task : StreamRegistry → String → List TokenEvent → StreamRegistry
  replay_task s request_id es =
      let (s', terminal) = replay_loop s request_id false es in
      if terminal then Streaming.unregister s' request_id else s'

  -- From the insertion of the record on: the record is there before the stream is registered.
  unfoldable pub admit : Gateway → InferenceJob → Ambient → Gateway × Begun
  admit g job amb =
      let state' = State.insert g.state (queued_record job.request_id amb.queued_at) in
      let metrics' = g.metrics ++ active_streams_inc ∷ [] in
      elim (Streaming.register g.streams job.request_id).1 [
        | none ↦ (
          record g {
            state =
                State.finish_failed state' job.request_id "request id already has an active stream"
                  amb.failed_at;
            metrics = metrics' ++ active_streams_dec ∷ [];
          },
          rejected (status already_exists "request id already has an active stream"),
        )
        | some receiver ↦ (
          record g {
            state = state';
            streams = (Streaming.register g.streams job.request_id).0;
            metrics = metrics';
          },
          enqueuing job receiver,
        )
      ]

  -- From the choice of the identifier on.
  unfoldable pub identify :
      Config → Gateway → InferenceRequest → Ambient → String → ℕ → Gateway × Begun
  identify c g request amb prompt max_tokens =
      if wants_replay request
      then replay_cached_events g (chosen_id request amb.uuid)
      else elim (request_topic_for_model c (chosen_model c request)) [
        | none ↦ (
          g,
          rejected (
              status invalid_argument (
                append "unknown model_id " (
                  append (chosen_model c request)
                    (append "; available models: " (join ", " (model_ids c)))))),
        )
        | some topic ↦ admit g (job_of c request amb prompt max_tokens) amb
      ]

  unfoldable pub submit_begin : Config → Gateway → InferenceRequest → Ambient → Gateway × Begun
  submit_begin c g request amb =
      let prompt = trim request.prompt in
      if is_empty prompt
      then (g, rejected (status invalid_argument "prompt must not be empty"))
      else if ltb c.max_prompt_chars (len prompt)
      then (g, rejected (status invalid_argument "prompt exceeds MAX_PROMPT_CHARS"))
      else if leb c.max_active_requests (State.active_count g.state)
      then (
        record g { metrics = g.metrics ++ inc rejected_requests ∷ [] },
        rejected (status resource_exhausted "too many active requests"),
      )
      else elim (normalize_max_tokens request.max_tokens c.default_max_tokens c.max_tokens_limit) [
        | exceeded s ↦ (g, rejected s)
        | within max_tokens ↦ identify c g request amb prompt max_tokens
      ]
