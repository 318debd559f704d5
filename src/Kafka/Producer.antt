-- ===== src/Kafka/Producer.antt =====
-- `KafkaProducer`: the records that it sends, and when it refuses.
use cria.Prelude.{String, none, some, List, [], ◌∷◌, ◌++◌, if◌then◌else◌}
use cria.Table.{Assoc, find}
use cria.Kafka.Messages.{InferenceJob, CancellationEvent, FutureRecord, Kafka}

pub data ProduceError : Type 0 where
  unknown_model_id not_encoded not_delivered : ProduceError

-- `Result<()>` of the two calls.
pub data ProduceResult : Type 0 where
  produced : ProduceResult
  refused : ProduceError → ProduceResult

pub record KafkaProducer : Type 0 where
  pub request_topics : Assoc String
  pub control_topic : String

module _ ⦃k : Kafka⦄ where
  -- `producer.send(..).await`: `sent` holds the records sent so far, refused ones too.
  unfoldable pub send : List FutureRecord → FutureRecord → List FutureRecord × ProduceResult
  send sent r = (sent ++ r ∷ [], if k.delivers sent r then produced else refused not_delivered)

  unfoldable pub produce_request :
      KafkaProducer → InferenceJob → List FutureRecord → List FutureRecord × ProduceResult
  produce_request p job sent = elim (find job.model_id p.request_topics.entries) [
    | none ↦ (sent, refused unknown_model_id)
    | some topic ↦ elim (k.encode_job job) [
      | none ↦ (sent, refused not_encoded)
      | some payload ↦ send sent (record { topic = topic; key = job.request_id; payload = payload })
    ]
  ]

  unfoldable pub produce_cancellation :
      KafkaProducer → CancellationEvent → List FutureRecord → List FutureRecord × ProduceResult
  produce_cancellation p event sent = elim (k.encode_cancellation event) [
    | none ↦ (sent, refused not_encoded)
    | some payload ↦
        send sent (record { topic = p.control_topic; key = event.request_id; payload = payload })
  ]
