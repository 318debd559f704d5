-- ===== src/System/Cases.antt =====
-- Every outcome of the first halves of `submit` and `infer`, to prove a property of all of them.
use Prim.Native.String.{len}
use cria.Prelude.{ℕ, String, ◌≡◌, refl, [], ◌∷◌, ◌++◌, ltb, leb, Bool-cases, Option-cases, inl, inr}
use cria.Table.{DashMap}
use cria.Text.{trim, is_empty}
use cria.Config.{Config, request_topic_for_model}
use cria.Pb.{InferenceRequest}
use cria.State
use cria.State.{queued_record}
use cria.Streaming.{Mpsc, Status}
use cria.Telemetry.{inc, rejected_requests}
use cria.Kafka.Messages.{InferenceJob}
use cria.Gateway.{Gateway}
use cria.Api.Begin.{
  Ambient, Begun, rejected, normalize_max_tokens, chosen_id, chosen_model, wants_replay, job_of,
  replay_cached_events, admit, identify, submit_begin,
}
use cria.Api.Admission.{Tokens-cases}

module _ ⦃d : DashMap⦄ ⦃ch : Mpsc⦄ (P : Gateway × Begun → Type 0) where
  identify-cases :
      (c : Config) (g : Gateway) (request : InferenceRequest) (amb : Ambient) (prompt : String)
      (n : ℕ)
      → ((status : Status) → P (g, rejected status))
      → ((id : String) → P (replay_cached_events g id))
      → ((job : InferenceJob) → job.request_id ≡ chosen_id request amb.uuid → P (admit g job amb))
      → P (identify c g request amb prompt n)
  unfolding identify
  identify-cases c g request amb prompt n refuse again new =
      elim (Bool-cases (wants_replay request)) [
        | inl replays_it ↦ rw replays_it (again (chosen_id request amb.uuid))
        | inr fresh ↦ elim (Option-cases (request_topic_for_model c (chosen_model c request))) [
          | inl unknown ↦ rw (fresh, unknown) (refuse _)
          | inr (topic, known) ↦
              rw (fresh, known) (new (job_of c request amb prompt n) (unfold job_of in refl))
        ]
      ]

  pub submit_begin-cases :
      (c : Config) (g : Gateway) (request : InferenceRequest) (amb : Ambient)
      → ((status : Status) → P (g, rejected status))
      → ((status : Status)
          → P (record g { metrics = g.metrics ++ inc rejected_requests ∷ [] }, rejected status))
      → ((id : String) → P (replay_cached_events g id))
      → ((job : InferenceJob) → job.request_id ≡ chosen_id request amb.uuid → P (admit g job amb))
      → P (submit_begin c g request amb)
  unfolding submit_begin
  submit_begin-cases c g request amb refuse full again new =
      elim (Bool-cases (is_empty (trim request.prompt))) [
        | inl blank ↦ rw blank (refuse _)
        | inr solid ↦ elim (Bool-cases (ltb c.max_prompt_chars (len (trim request.prompt)))) [
          | inl long ↦ rw (solid, long) (refuse _)
          | inr short ↦ elim (Bool-cases (leb c.max_active_requests (State.active_count g.state))) [
            | inl reached ↦ rw (solid, short, reached) (full _)
            | inr room ↦
                elim (Tokens-cases (
                  normalize_max_tokens request.max_tokens c.default_max_tokens
                    c.max_tokens_limit)) [
                      | inr (s, bad) ↦ rw (solid, short, room, bad) (refuse s)
                      | inl (n, fine) ↦
                          rw (solid, short, room, fine)
                            (identify-cases c g request amb (trim request.prompt) n refuse again
                              new)
                    ]
          ]
        ]
      ]
