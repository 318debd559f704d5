-- ===== src/System/Records.antt =====
-- The record and the cache of a request along a run, from what the tasks do about it.
use cria.Prelude.{
  ℕ, String, ◌≡◌, refl, ◌∙◌, ap, sym, List, [], ◌∷◌, ◌++◌, Every, str_eq, eq_iff, Bool-cases,
  Option-cases, inl, inr,
}
use cria.Table.{DashMap}
use cria.Text.{trim, is_empty}
use cria.Config.{Config, request_topic_for_model}
use cria.Pb.{InferenceRequest}
use cria.State
use cria.State.{RequestState, queued_record}
use cria.State.Operations.{Operation, submitted, failed_with, perform, perform_all}
use cria.State.Machine.{
  subject, follow, own_operations, entry_of, entry-perform, entry-perform_all,
  own_operations-append, follow-append,
}
use cria.Streaming
use cria.Streaming.{Mpsc}
use cria.Kafka.Messages.{Kafka, InferenceJob, into_proto}
use cria.Kafka.Producer.{KafkaProducer}
use cria.Kafka.Router.{deliver_event}
use cria.Gateway.{Gateway}
use cria.Api.Begin.{Ambient, chosen_id, admit, submit_begin}
use cria.Api.Capacity.{state-replay}
use cria.Bff.Infer.{InferRequest, filled_or, infer_job, infer_admit, infer_begin}
use cria.Bff.Leaks.{infer_id}
use cria.System.{
  System, Action, submit_starts, submit_ends, infer_starts, cancel_called, cancel_clicked,
  event_comes, submit_goes_on, infer_goes_on, step, run,
}
use cria.System.Cases.{submit_begin-cases}
use cria.System.Moves.{step-Moves}
use cria.System.Refines.{submit_waits-state, infer_waits-state, replay_goes_on-state}
use cria.System.Reports.{
  answered, noted, reported_by, reported_by-IsStuck, state-submit_end, state-infer_end,
  state-cancel, state-click, state-note_event,
}

-- The action submits no request under the identifier.
abbrev pub Avoids : String → Action → Type 0
Avoids k (submit_starts request amb) = ¬ (chosen_id request amb.uuid ≡ k)
Avoids k (infer_starts request amb) = ¬ (infer_id request amb ≡ k)
Avoids k a = Unit

module _ ⦃d : DashMap⦄ where
  entry-other :
      (s : RequestState) (o : Operation) (now : ℕ) (k : String)
      → ¬ (subject o ≡ k)
      → entry_of (perform s o now) k ≡ entry_of s k
  entry-other s o now k other = elim (Bool-cases (str_eq (subject o) k)) [
    | inl same ↦ absurd (other ((eq_iff (subject o) k).0 same))
    | inr differs ↦ rw differs at (entry-perform s o now k)
  ]

module _ ⦃d : DashMap⦄ ⦃ch : Mpsc⦄ where
  entry-admit :
      (g : Gateway) (job : InferenceJob) (amb : Ambient) (k : String)
      → ¬ (job.request_id ≡ k)
      → entry_of (admit g job amb).0.state k ≡ entry_of g.state k
  unfolding admit perform
  entry-admit g job amb k other =
      let id = job.request_id in
      let queued = State.insert g.state (queued_record id amb.queued_at) in
      let first = entry-other g.state (submitted id) amb.queued_at k other in
      elim (Option-cases (Streaming.register g.streams id).1) [
        | inl taken ↦
            rw (taken, admit)
              (entry-other queued (failed_with id "request id already has an active stream")
                  amb.failed_at k other
                ∙ first)
        | inr (r, free) ↦ rw (free, admit) first
      ]

  entry-submit_begin :
      (c : Config) (g : Gateway) (request : InferenceRequest) (amb : Ambient) (k : String)
      → ¬ (chosen_id request amb.uuid ≡ k)
      → entry_of (submit_begin c g request amb).0.state k ≡ entry_of g.state k
  entry-submit_begin c g request amb k other =
      submit_begin-cases (λ r. entry_of r.0.state k ≡ entry_of g.state k) c g request amb
        (λ status. refl) (λ status. refl) (λ id. rw state-replay refl)
        (λ job its. entry-admit g job amb k (λ same. other (sym its ∙ same)))

  entry-infer_begin :
      (c : Config) (g : Gateway) (request : InferRequest) (amb : Ambient) (k : String)
      → ¬ (infer_id request amb ≡ k)
      → entry_of (infer_begin c g request amb).0.state k ≡ entry_of g.state k
  unfolding infer_begin infer_admit infer_job perform
  entry-infer_begin c g request amb k other =
      let id = infer_id request amb in
      let first = entry-other g.state (submitted id) amb.queued_at k other in
      elim (Bool-cases (is_empty (trim request.prompt))) [
        | inl blank ↦ rw blank refl
        | inr solid ↦
            elim (Option-cases
              (request_topic_for_model c (filled_or request.model_id c.default_model_id))) [
                | inl unknown ↦ rw (solid, unknown) refl
                | inr (topic, known) ↦ elim (Option-cases (Streaming.register g.streams id).1) [
                  | inl taken ↦ rw (solid, known, taken, infer_admit) first
                  | inr (r, free) ↦ rw (solid, known, free, infer_admit) first
                ]
              ]
      ]

module _ ⦃d : DashMap⦄ ⦃ch : Mpsc⦄ ⦃k : Kafka⦄ where
  -- A step that is these operations on the table, and reports them.
  by_operations :
      (s : System) (s' : RequestState) (a : Action) (id : String) (os : List (Operation × ℕ))
      → s' ≡ perform_all s.gateway.state os
      → reported_by s a ≡ os
      → entry_of s' id ≡ follow (own_operations id (reported_by s a)) (entry_of s.gateway.state id)
  by_operations s s' a id os path same =
      ap (λ t. entry_of t id) path
      ∙ entry-perform_all s.gateway.state os id
      ∙ ap (λ l. follow (own_operations id l) (entry_of s.gateway.state id)) (sym same)

  entry-step :
      (c : Config) (p : KafkaProducer) (s : System) (a : Action) (id : String)
      → Avoids id a
      → entry_of (step c p s a).gateway.state id
        ≡ follow (own_operations id (reported_by s a)) (entry_of s.gateway.state id)
  unfolding submit_goes_on infer_goes_on reported_by deliver_event perform_all
  entry-step c p s a id =
      step-Moves c p s
        (λ b s'.
          Avoids id b
          → entry_of s'.gateway.state id
            ≡ follow (own_operations id (reported_by s b)) (entry_of s.gateway.state id))
        (record {
          stays = λ b stuck avoids.
              by_operations s s.gateway.state b id [] refl (reported_by-IsStuck s b stuck);
          submits = λ request amb avoids.
              rw submit_waits-state (entry-submit_begin c s.gateway request amb id avoids);
          is_answered = λ i w rest found avoids.
              by_operations s _ (submit_ends i) id
                (answered w.result w.job.request_id w.ambient.failed_at)
                (state-submit_end s.gateway w.job w.receiver w.ambient w.result)
                (rw (found, reported_by) refl);
          infers = λ request amb avoids.
              rw infer_waits-state (entry-infer_begin c s.gateway request amb id avoids);
          infer_is_answered = λ i receiver result rest found avoids. rw state-infer_end refl;
          cancels = λ request amb avoids.
              by_operations s _ (cancel_called request amb) id _ (state-cancel p s request amb)
                refl;
          clicks = λ j amb avoids.
              by_operations s _ (cancel_clicked j amb) id _ (state-click p s j amb) refl;
          notes = λ e now ready avoids.
              by_operations s _ (event_comes e now) id (noted (into_proto e) now)
                (state-note_event (into_proto e) now s.gateway) (rw (ready, reported_by) refl);
          hands = λ e waiting avoids. refl;
          replays = λ i r rest found avoids. rw replay_goes_on-state refl;
        })
        a

  -- What the steps of a run do to requests, submissions apart, in order.
  unfoldable pub reported : Config → KafkaProducer → System → List Action → List (Operation × ℕ)
  reported c p s [] = []
  reported c p s (a ∷ actions) = reported_by s a ++ reported c p (step c p s a) actions

  pub entry-run :
      (c : Config) (p : KafkaProducer) (s : System) (actions : List Action) (id : String)
      → Every (Avoids id) actions
      → entry_of (run c p s actions).gateway.state id
        ≡ follow (own_operations id (reported c p s actions)) (entry_of s.gateway.state id)
  unfolding run reported
  entry-run c p s [] id h = refl
  entry-run c p s (a ∷ actions) id h =
      let s' = step c p s a in
      let x = entry_of s.gateway.state id in
      entry-run c p s' actions id h.1
      ∙ ap (follow (own_operations id (reported c p s' actions))) (entry-step c p s a id h.0)
      ∙ sym (
          follow-append (own_operations id (reported_by s a))
            (own_operations id (reported c p s' actions)) x)
      ∙ ap (λ l. follow l x)
          (sym (own_operations-append id (reported_by s a) (reported c p s' actions)))
