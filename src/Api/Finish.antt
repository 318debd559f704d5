-- ===== src/Api/Finish.antt =====
-- `submit` from the producer's call on, and the whole of it where nothing comes between.
use cria.Prelude.{ℕ, String, List, [], ◌∷◌, ◌++◌}
use cria.Table.{DashMap}
use cria.Config.{Config}
use cria.Pb.{InferenceRequest, TokenEvent}
use cria.State
use cria.Streaming
use cria.Streaming.{Mpsc, Status, unavailable}
use cria.Telemetry.{
  inc, active_streams_dec, requests_total, failed_requests, enqueue_latency_observe,
}
use cria.Kafka.Messages.{Kafka, InferenceJob}
use cria.Kafka.Producer.{KafkaProducer, ProduceResult, produced, refused, produce_request}
use cria.Gateway.{Gateway}
use cria.Api.Begin.{Ambient, Begun, rejected, replaying, enqueuing, status, submit_begin}

-- What `submit` answers: a status, or the receiver of the client's stream; a replay's spawned task
-- goes on beside it.
pub data Answer : Type 0 where
  refusal : Status → Answer
  stream : ℕ → Answer
  replay : ℕ → String → List TokenEvent → Answer

module _ ⦃d : DashMap⦄ ⦃ch : Mpsc⦄ where
  -- What follows the producer's answer.
  unfoldable pub submit_end :
      Gateway → InferenceJob → ℕ → Ambient → ProduceResult → Gateway × Answer
  submit_end g job receiver amb produced = (
    record g { metrics = g.metrics ++ inc requests_total ∷ enqueue_latency_observe ∷ [] },
    stream receiver,
  )
  submit_end g job receiver amb (refused reason) = (
    record g {
      state =
          State.finish_failed g.state job.request_id "failed to enqueue inference request"
            amb.failed_at;
      streams = Streaming.unregister g.streams job.request_id;
      metrics = g.metrics ++ inc failed_requests ∷ active_streams_dec ∷ [];
    },
    refusal (status unavailable "failed to enqueue inference request"),
  )

module _ ⦃d : DashMap⦄ ⦃ch : Mpsc⦄ ⦃k : Kafka⦄ where
  unfoldable pub produce : KafkaProducer → Gateway → InferenceJob → Gateway × ProduceResult
  produce p g job =
      let (sent, result) = produce_request p job g.sent in (record g { sent = sent }, result)

  conclude : KafkaProducer → Ambient → Gateway → Begun → Gateway × Answer
  conclude p amb g (rejected s) = (g, refusal s)
  conclude p amb g (replaying receiver id events) = (g, replay receiver id events)
  conclude p amb g (enqueuing job receiver) =
      let (g', result) = produce p g job in submit_end g' job receiver amb result

  -- `submit` with no other task between its halves.
  unfoldable pub submit :
      Config → KafkaProducer → Gateway → InferenceRequest → Ambient → Gateway × Answer
  unfolding conclude produce
  submit c p g request amb =
      let (g', begun) = submit_begin c g request amb in conclude p amb g' begun
