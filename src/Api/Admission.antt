-- ===== src/Api/Admission.antt =====
-- What `submit` has checked and done when it hands a job to the producer.
use Prim.Native.String.{len}
use cria.Prelude.{
  ℕ, ◌≤◌, ◌<◌, String, ◌≡◌, refl, false, none, some, [], ◌∷◌, ◌++◌, arith, ◌==◌, Bool-cases,
  Option-cases, inl, inr, ◌⊎◌, if◌then◌else◌,
}
use cria.Table.{DashMap}
use cria.Text.{trim, is_empty}
use cria.Config.{Config, request_topic_for_model}
use cria.Pb.{InferenceRequest}
use cria.State
use cria.State.{queued_record}
use cria.Streaming
use cria.Streaming.{Mpsc, sender_of, Status}
use cria.Telemetry.{active_streams_inc}
use cria.Kafka.Messages.{InferenceJob}
use cria.Gateway.{Gateway}
use cria.Api.Begin.{
  Ambient, enqueuing, Tokens, within, exceeded, normalize_max_tokens, chosen_id, chosen_model,
  wants_replay, job_of, replay_cached_events, admit, identify, submit_begin,
}

-- A value of 0 stands for the default; what is within the limit is passed on, and the rest refused.
pub normalize_within :
    (value default limit n : ℕ)
    → normalize_max_tokens value default limit ≡ within n
    → (n ≤ limit) × (n ≡ (if value == 0 then default else value))
unfolding normalize_max_tokens
normalize_within value default limit n h = ground arith

pub Tokens-cases : (t : Tokens) → ((n : ℕ) × (t ≡ within n)) ⊎ ((s : Status) × (t ≡ exceeded s))
Tokens-cases (within n) = inl (n, refl)
Tokens-cases (exceeded s) = inr (s, refl)

module _ ⦃d : DashMap⦄ ⦃ch : Mpsc⦄ where
  -- The gateway behind an admission.
  abbrev pub admitted : Gateway → InferenceJob → Ambient → Gateway
  admitted g job amb = record g {
    state = State.insert g.state (queued_record job.request_id amb.queued_at);
    streams = (Streaming.register g.streams job.request_id).0;
    metrics = g.metrics ++ active_streams_inc ∷ [];
  }

  pub record IsAdmitted (c : Config) (g : Gateway) (request : InferenceRequest) (amb : Ambient)
      (g' : Gateway) (job : InferenceJob) (receiver : ℕ) : Type 0 where
    pub fits : (is_empty job.prompt ≡ false) × (len job.prompt ≤ c.max_prompt_chars)
    pub room : State.active_count g.state < c.max_active_requests
    pub tokens : job.max_tokens ≤ c.max_tokens_limit
    pub routed : (topic : String) × (request_topic_for_model c job.model_id ≡ some topic)
    pub job_is : job ≡ job_of c request amb (trim request.prompt) job.max_tokens
    pub free : sender_of g.streams job.request_id ≡ none
    pub receiver_is : receiver ≡ ch.opened g.streams.net
    pub after : g' ≡ admitted g job amb

  pub register_cases :
      (g : Gateway) (id : String) (receiver : ℕ)
      → (Streaming.register g.streams id).1 ≡ some receiver
      → (sender_of g.streams id ≡ none) × (receiver ≡ ch.opened g.streams.net)
  unfolding Streaming.register sender_of
  register_cases g id receiver h = ground arith

  admit-enqueuing :
      (g : Gateway) (job job' : InferenceJob) (amb : Ambient) (receiver : ℕ)
      → (admit g job amb).1 ≡ enqueuing job' receiver
      → (job' ≡ job)
        × (sender_of g.streams job.request_id ≡ none)
        × (receiver ≡ ch.opened g.streams.net)
        × ((admit g job amb).0 ≡ admitted g job amb)
  unfolding admit
  admit-enqueuing g job job' amb receiver h =
      elim (Option-cases (Streaming.register g.streams job.request_id).1) [
        | inl taken ↦ absurd (ground (arith, taken))
        | inr (r, free) ↦ ground (arith, free, register_cases g job.request_id r)
      ]

  replay-not-enqueuing :
      (g : Gateway) (id : String) (job : InferenceJob) (receiver : ℕ)
      → ¬ ((replay_cached_events g id).1 ≡ enqueuing job receiver)
  unfolding replay_cached_events
  replay-not-enqueuing g id job receiver h = ground arith

  pub identify-enqueuing :
      (c : Config) (g : Gateway) (request : InferenceRequest) (amb : Ambient) (prompt : String)
      (n : ℕ) (job : InferenceJob) (receiver : ℕ)
      → (identify c g request amb prompt n).1 ≡ enqueuing job receiver
      → ((topic : String) × (request_topic_for_model c (chosen_model c request) ≡ some topic))
        × (job ≡ job_of c request amb prompt n)
        × (sender_of g.streams job.request_id ≡ none)
        × (receiver ≡ ch.opened g.streams.net)
        × ((identify c g request amb prompt n).0 ≡ admitted g job amb)
  unfolding identify
  identify-enqueuing c g request amb prompt n job receiver h =
      elim (Bool-cases (wants_replay request)) [
        | inl again ↦ absurd (
            replay-not-enqueuing g (chosen_id request amb.uuid) job receiver
              (ground (arith, again)))
        | inr fresh ↦ elim (Option-cases (request_topic_for_model c (chosen_model c request))) [
          | inl unknown ↦ absurd (ground (arith, fresh, unknown))
          | inr (topic, known) ↦
              let (same, free, made, after) =
                admit-enqueuing g (job_of c request amb prompt n) job amb receiver
                  (ground (arith, fresh, known)) in
              ((topic, known), same, rw same free, made, rw (fresh, known) (rw same after))
        ]
      ]

  -- The checks that stand before the choice of the identifier.
  pub checks_passed :
      (c : Config) (g : Gateway) (request : InferenceRequest) (amb : Ambient) (job : InferenceJob)
      (receiver : ℕ)
      → (submit_begin c g request amb).1 ≡ enqueuing job receiver
      → (n : ℕ) × (normalize_max_tokens request.max_tokens c.default_max_tokens c.max_tokens_limit
          ≡ within n)
        × (is_empty (trim request.prompt) ≡ false)
        × (len (trim request.prompt) ≤ c.max_prompt_chars)
        × (State.active_count g.state < c.max_active_requests)
        × (submit_begin c g request amb ≡ identify c g request amb (trim request.prompt) n)
  unfolding submit_begin
  checks_passed c g request amb job receiver h =
      elim (Tokens-cases
        (normalize_max_tokens request.max_tokens c.default_max_tokens c.max_tokens_limit)) [
          | inl (n, fine) ↦ (
            n,
            fine,
            ground (arith, fine),
            ground (arith, fine),
            ground (arith, fine),
            ground (arith, fine),
          )
          | inr (s, bad) ↦ absurd (ground (arith, bad))
        ]

  -- Whenever submit gets as far as the producer: the prompt is not blank and within the limit,
  -- fewer than the limit of requests were active, the tokens are within the limit, the model has a
  -- topic, the job is the one the request describes, no stream was registered under its
  -- identifier, and the gateway has exactly the new queued record, the new stream and the raised
  -- gauge more.
  pub submit_begin-IsAdmitted :
      (c : Config) (g : Gateway) (request : InferenceRequest) (amb : Ambient) (job : InferenceJob)
      (receiver : ℕ)
      → (submit_begin c g request amb).1 ≡ enqueuing job receiver
      → IsAdmitted c g request amb (submit_begin c g request amb).0 job receiver
  submit_begin-IsAdmitted c g request amb job receiver h =
      let (n, normal, solid, short, room, path) = checks_passed c g request amb job receiver h in
      let (routed, same, free, made, after) =
        identify-enqueuing c g request amb (trim request.prompt) n job receiver (rw (← path) h) in
      record {
        fits = rw same (unfold job_of in (solid, short));
        room = room;
        tokens = rw same (
            unfold job_of in
            (normalize_within request.max_tokens c.default_max_tokens c.max_tokens_limit n
              normal).0);
        routed = rw same (unfold job_of in routed);
        job_is = rw same (unfold job_of in refl);
        free = free;
        receiver_is = made;
        after = rw path after;
      }
