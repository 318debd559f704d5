-- ===== src/Api/Failure.antt =====
-- `submit` where the producer refuses, and where the request already has a stream.
use cria.Prelude.{
  ℕ, ◌+◌, String, ◌≡◌, refl, none, some, [], ◌∷◌, ◌++◌, arith, str_eq, eq_iff, eq_refl,
  if◌then◌else◌,
}
use cria.Table.{DashMap}
use cria.Config.{Config}
use cria.Pb.{InferenceRequest}
use cria.State
use cria.State.{RequestRecord, RequestStatusInternal, queued_record, finish_failed, stamp}
use cria.State.Lookup.{get-insert_record, get-update}
use cria.Streaming
use cria.Streaming.{Mpsc, sender_of, already_exists, unavailable}
use cria.Streaming.Wiring.{sender_of-register, sender_of-unregister}
use cria.Telemetry.{
  is_up, is_down, calls, calls-append, active_streams_inc, active_streams_dec, inc, failed_requests,
}
use cria.Kafka.Messages.{Kafka, InferenceJob}
use cria.Kafka.Producer.{KafkaProducer, ProduceError, refused}
use cria.Gateway.{Gateway}
use cria.Api.Begin.{Ambient, enqueuing, status, submit_begin}
use cria.Api.Finish.{refusal, produce, submit_end, submit}
use cria.Api.Admission.{admitted, submit_begin-IsAdmitted}

-- The record that a failed submission leaves.
abbrev pub failed_record : String → String → ℕ → ℕ → RequestRecord
failed_record id error made now = record {
  request_id = id;
  status = RequestStatusInternal.failed;
  emitted_tokens = 0;
  worker_id = none;
  error_message = some error;
  cancellation_reason = none;
  created_at_ms = made;
  updated_at_ms = now;
}

module _ ⦃d : DashMap⦄ where
  pub get-queued_then_failed :
      (s : State.RequestState) (id error : String) (made now : ℕ) (j : String)
      → State.get (finish_failed (State.insert s (queued_record id made)) id error now) j
        ≡ (if str_eq id j then some (failed_record id error made now) else State.get s j)
  unfolding finish_failed queued_record
  get-queued_then_failed s id error made now j = ground (
    arith,
    get-update (State.insert s (queued_record id made)) id j
        (λ r. record r { status = RequestStatusInternal.failed; error_message = some error }) now,
    get-insert_record s (queued_record id made) id,
    get-insert_record s (queued_record id made) j,
    eq_refl id,
    eq_iff id j,
  )

module _ ⦃d : DashMap⦄ ⦃ch : Mpsc⦄ where
  refused_end :
      (g : Gateway) (job : InferenceJob) (receiver : ℕ) (amb : Ambient) (reason : ProduceError)
      (j : String)
      → sender_of g.streams job.request_id ≡ none
      → let g' = (submit_end (admitted g job amb) job receiver amb (refused reason)).0 in
        (State.get g'.state j ≡ (
          if str_eq job.request_id j
          then some (
              failed_record job.request_id "failed to enqueue inference request" amb.queued_at
                amb.failed_at)
          else State.get g.state j))
        × (sender_of g'.streams j ≡ sender_of g.streams j)
        × (calls is_up g'.metrics + calls is_down g.metrics
            ≡ calls is_up g.metrics + calls is_down g'.metrics)
  unfolding submit_end
  refused_end g job receiver amb reason j free = (
    get-queued_then_failed g.state job.request_id _ amb.queued_at amb.failed_at j,
    ground (
      arith,
      sender_of-unregister (Streaming.register g.streams job.request_id).0 job.request_id j,
      sender_of-register g.streams job.request_id j free,
      eq_iff job.request_id j,
    ),
    unfold calls in
        omega (
          arith,
          calls-append is_up (g.metrics ++ active_streams_inc ∷ [])
              (inc failed_requests ∷ active_streams_dec ∷ []),
          calls-append is_up g.metrics (active_streams_inc ∷ []),
          calls-append is_down (g.metrics ++ active_streams_inc ∷ [])
              (inc failed_requests ∷ active_streams_dec ∷ []),
          calls-append is_down g.metrics (active_streams_inc ∷ []),
        ),
  )

module _ ⦃d : DashMap⦄ ⦃ch : Mpsc⦄ ⦃k : Kafka⦄ where
  submit-refused_path :
      (c : Config) (p : KafkaProducer) (g : Gateway) (request : InferenceRequest) (amb : Ambient)
      (job : InferenceJob) (receiver : ℕ) (reason : ProduceError)
      → (submit_begin c g request amb).1 ≡ enqueuing job receiver
      → (submit_begin c g request amb).0 ≡ admitted g job amb
      → (produce p (admitted g job amb) job).1 ≡ refused reason
      → submit c p g request amb
        ≡ submit_end (produce p (admitted g job amb) job).0 job receiver amb (refused reason)
  unfolding submit
  submit-refused_path c p g request amb job receiver reason h after no_send =
      rw (h, after, no_send) refl

  -- A submission that passes the checks and that the producer refuses is answered UNAVAILABLE; its
  -- record is left failed, every other record and every registration is as before, and the gauge
  -- of active streams is raised as often as it is lowered.
  pub submit-refused :
      (c : Config) (p : KafkaProducer) (g : Gateway) (request : InferenceRequest) (amb : Ambient)
      (job : InferenceJob) (receiver : ℕ) (reason : ProduceError) (j : String)
      → (submit_begin c g request amb).1 ≡ enqueuing job receiver
      → (produce p (submit_begin c g request amb).0 job).1 ≡ refused reason
      → let (g', answer) = submit c p g request amb in
        (answer ≡ refusal (status unavailable "failed to enqueue inference request"))
        × (State.get g'.state j ≡ (
            if str_eq job.request_id j
            then some (
                failed_record job.request_id "failed to enqueue inference request" amb.queued_at
                  amb.failed_at)
            else State.get g.state j))
        × (sender_of g'.streams j ≡ sender_of g.streams j)
        × (calls is_up g'.metrics + calls is_down g.metrics
            ≡ calls is_up g.metrics + calls is_down g'.metrics)
  submit-refused c p g request amb job receiver reason j h no_send =
      let fine = submit_begin-IsAdmitted c g request amb job receiver h in
      let path =
        submit-refused_path c p g request amb job receiver reason h fine.after
          (rw fine.after at no_send) in
      let (record_is, registered, balance) = refused_end g job receiver amb reason j fine.free in
      rw path (unfold submit_end produce in (refl, record_is, registered, balance))
