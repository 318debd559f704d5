-- ===== src/Api/Duplicate.antt =====
-- A submission under an identifier whose stream is still registered.
use cria.Prelude.{ℕ, String, ◌≡◌, false, some, arith, str_eq, if◌then◌else◌, eq_refl}
use cria.Table.{DashMap}
use cria.Config.{Config, request_topic_for_model}
use cria.Pb.{InferenceRequest}
use cria.State
use cria.State.{queued_record}
use cria.Streaming.{Mpsc, sender_of, already_exists}
use cria.Streaming.Wiring.{register_taken}
use cria.Kafka.Messages.{InferenceJob}
use cria.Gateway.{Gateway}
use cria.Api.Begin.{
  Ambient, rejected, status, wants_replay, chosen_id, chosen_model, job_of, admit, identify,
}
use cria.Api.Failure.{failed_record, get-queued_then_failed}

abbrev pub duplicate_text : String
duplicate_text = "request id already has an active stream"

module _ ⦃d : DashMap⦄ ⦃ch : Mpsc⦄ where
  admit-taken :
      (g : Gateway) (job : InferenceJob) (amb : Ambient) (c : ℕ) (j : String)
      → sender_of g.streams job.request_id ≡ some c
      → ((admit g job amb).1 ≡ rejected (status already_exists duplicate_text))
        × ((admit g job amb).0.streams ≡ g.streams)
        × (State.get (admit g job amb).0.state j ≡ (
            if str_eq job.request_id j
            then some (failed_record job.request_id duplicate_text amb.queued_at amb.failed_at)
            else State.get g.state j))
  unfolding admit
  admit-taken g job amb c j taken =
      let refused = register_taken g.streams job.request_id taken in
      (
        ground (arith, refused),
        ground (arith, refused),
        ground (
          arith,
          refused,
          get-queued_then_failed g.state job.request_id duplicate_text amb.queued_at amb.failed_at
              j,
        ),
      )

  -- A submission past the first checks that wants no replay and whose model has a topic, under an
  -- identifier whose stream is registered, is answered ALREADY_EXISTS and leaves the streams; but
  -- the record that stands under the identifier, whatever it held, is replaced by a new one that
  -- is failed.
  pub identify-taken :
      (c : Config) (g : Gateway) (request : InferenceRequest) (amb : Ambient) (prompt : String)
      (n : ℕ) (topic : String) (sender : ℕ)
      → wants_replay request ≡ false
      → request_topic_for_model c (chosen_model c request) ≡ some topic
      → sender_of g.streams (chosen_id request amb.uuid) ≡ some sender
      → let (g', begun) = identify c g request amb prompt n in
        (begun ≡ rejected (status already_exists duplicate_text))
        × (g'.streams ≡ g.streams)
        × (State.get g'.state (chosen_id request amb.uuid)
            ≡ some (
                failed_record
                  (chosen_id request amb.uuid)
                  duplicate_text
                  amb.queued_at
                  amb.failed_at))
  unfolding identify
  identify-taken c g request amb prompt n topic sender fresh known taken =
      let id = chosen_id request amb.uuid in
      let (answer, streams, record_is) =
        admit-taken g (job_of c request amb prompt n) amb sender id (unfold job_of in taken) in
      rw (fresh, known) (answer, streams, unfold job_of in ground (arith, record_is, eq_refl id))
