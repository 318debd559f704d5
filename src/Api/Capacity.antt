-- ===== src/Api/Capacity.antt =====
-- Admission control: how many requests can be active.
use cria.Prelude.{◌⊎◌, ℕ, ◌+◌, ◌≤◌, ◌<◌, String, ◌≡◌, some, arith, inl, inr}
use cria.Table.{DashMap}
use cria.Text.{trim}
use cria.Config.{Config}
use cria.Pb.{InferenceRequest}
use cria.State
use cria.State.{RequestState, queued_record, finish_failed}
use cria.State.Activity.{active_count-insert, active_count-update, activity}
use cria.Streaming.{Mpsc}
use cria.Kafka.Messages.{InferenceJob}
use cria.Gateway.{Gateway}
use cria.Api.Admission.{Tokens-cases}
use cria.Api.Begin.{
  Ambient, normalize_max_tokens, chosen_id, job_of, replay_cached_events, admit, identify,
  submit_begin,
}

module _ ⦃d : DashMap⦄ where
  active_count-queued :
      (s : RequestState) (id : String) (now : ℕ)
      → State.active_count (State.insert s (queued_record id now)) ≤ State.active_count s + 1
  active_count-queued s id now = omega (arith, active_count-insert s (queued_record id now), one)
    where
      one : activity (some (queued_record id now)) ≤ 1
      one = ground arith

  pub active_count-failed :
      (s : RequestState) (id error : String) (now : ℕ)
      → State.active_count (finish_failed s id error now) ≤ State.active_count s
  unfolding finish_failed
  active_count-failed s id error now = ground (
    arith,
    active_count-update s id
        (λ r. record r { status = State.RequestStatusInternal.failed; error_message = some error })
        now,
  )

module _ ⦃d : DashMap⦄ ⦃ch : Mpsc⦄ where
  active_count-admit :
      (g : Gateway) (job : InferenceJob) (amb : Ambient)
      → State.active_count (admit g job amb).0.state ≤ State.active_count g.state + 1
  unfolding admit
  active_count-admit g job amb = ground (
    arith,
    active_count-queued g.state job.request_id amb.queued_at,
    active_count-failed (State.insert g.state (queued_record job.request_id amb.queued_at))
        job.request_id "request id already has an active stream" amb.failed_at,
  )

  pub state-replay : (g : Gateway) (id : String) → (replay_cached_events g id).0.state ≡ g.state
  unfolding replay_cached_events
  state-replay g id = ground arith

  active_count-identify :
      (c : Config) (g : Gateway) (request : InferenceRequest) (amb : Ambient) (prompt : String)
      (n : ℕ)
      → State.active_count (identify c g request amb prompt n).0.state
        ≤ State.active_count g.state + 1
  unfolding identify
  active_count-identify c g request amb prompt n = ground (
    arith,
    state-replay g (chosen_id request amb.uuid),
    active_count-admit g (job_of c request amb prompt n) amb,
  )

  -- Where no more requests are active than the limit, none of submit's outcomes makes more active
  -- than the limit; and either the limit was not yet reached, or no record is changed.
  pub active_count-submit_begin :
      (c : Config) (g : Gateway) (request : InferenceRequest) (amb : Ambient)
      → State.active_count g.state ≤ c.max_active_requests
      → (State.active_count (submit_begin c g request amb).0.state ≤ c.max_active_requests)
        × ((State.active_count g.state < c.max_active_requests)
            ⊎ ((submit_begin c g request amb).0.state ≡ g.state))
  unfolding submit_begin
  active_count-submit_begin c g request amb h =
      elim (Tokens-cases
        (normalize_max_tokens request.max_tokens c.default_max_tokens c.max_tokens_limit)) [
          | inl (n, fine) ↦
              ground (arith, fine, active_count-identify c g request amb (trim request.prompt) n)
          | inr (s, bad) ↦ ground (arith, bad)
        ]
