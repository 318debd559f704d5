-- ===== src/Worker/Job.antt =====
-- `process_job` of workers/python/inference_worker/main.py. The producer of confluent_kafka may raise
-- an exception in `produce`; the answers of the watcher of cancellations and the readings of the clock
-- are functions of how many were taken before.
use cria.Prelude.{ℕ, suc, String, Bool, true, false, Option, none, some, List, [], ◌∷◌, ◌++◌}
use cria.Kafka.Messages.{TokenEventEnvelope, TokenEventKind}
use cria.Worker.Events.{InferenceJob, token_event}
use cria.Worker.Backend.{Generator, returns, raises, asks, yields, GeneratedToken, InferenceBackend}

pub data MetricCall : Type 0 where
  jobs_total_inc jobs_failed_inc jobs_cancelled_inc tokens_total_inc : MetricCall
  active_jobs_inc active_jobs_dec job_duration_observe : MetricCall

-- `produce`, by the events that the producer took before: the exception that it raises, if any.
pub record TokenProducer : Type 0 where
  pub refuses : List TokenEventEnvelope → TokenEventEnvelope → Option String

pub record Ambient : Type 0 where
  pub is_cancelled : ℕ → Bool
  pub now_ms : ℕ → ℕ

-- What the worker has done so far.
pub record Run : Type 0 where
  pub published : List TokenEventEnvelope
  pub metrics : List MetricCall
  pub flushes : ℕ
  pub checks : ℕ
  pub readings : ℕ

-- How a piece of Python ends.
pub data Outcome : Type 0 where
  returned : Outcome
  raised : String → Outcome

abbrev pub note : MetricCall → Run → Run
note m run = record run { metrics = run.metrics ++ m ∷ [] }

abbrev pub flush : Run → Run
flush run = record run { flushes = suc run.flushes }

abbrev pub checked : Run → Run
checked run = record run { checks = suc run.checks }

module _ (t : TokenProducer) (worker_id : String) (a : Ambient) (job : InferenceJob) where
  -- `kafka.publish_token_event(token_event(...))`.
  unfoldable pub publish : Run → ℕ → TokenEventKind → GeneratedToken → Option String → Run × Outcome
  unfolding token_event
  publish run sequence kind generated error =
      let event =
        token_event job.request_id sequence kind worker_id generated.text generated.probability
          error (a.now_ms run.readings) in
      let read = record run { readings = suc run.readings } in
      elim (t.refuses run.published event) [
        | some text ↦ (read, raised text)
        | none ↦ (record read { published = run.published ++ event ∷ [] }, returned)
      ]

  -- The defaults of `token` and `probability`.
  abbrev pub no_token : GeneratedToken
  no_token = record { text = ""; probability = 0 }

  abbrev pub publish_cancelled : Run → ℕ → Run × Outcome
  publish_cancelled run sequence =
      publish (note jobs_cancelled_inc run) sequence TokenEventKind.cancelled no_token
        (some "cancelled by client")

  abbrev pub is_cancelled : Run → Bool
  is_cancelled run = a.is_cancelled run.checks

  -- What follows the loop over the generated tokens.
  abbrev pub publish_end : Run → ℕ → Run × Outcome
  publish_end run sequence = elim (is_cancelled run) [
    | true ↦ publish_cancelled (checked run) sequence
    | false ↦ publish (checked run) sequence TokenEventKind.completed no_token none
  ]

  -- The `return` inside the loop.
  abbrev pub publish_return : Run → ℕ → Run × Outcome
  publish_return run sequence =
      let (r, o) = publish_cancelled run sequence in
      elim o [ returned ↦ (flush r, returned) | raised text ↦ (r, raised text) ]

  -- The body of the `try`, from where the generator stands, with the sequence number it ends with.
  unfoldable pub generated_from : Generator → ℕ → Run → (Run × Outcome) × ℕ
  generated_from returns sequence run = (publish_end run sequence, sequence)
  generated_from (raises text) sequence run = ((run, raised text), sequence)
  generated_from (asks go_on) sequence run =
      generated_from (go_on (is_cancelled run)) sequence (checked run)
  generated_from (yields generated rest) sequence run = elim (is_cancelled run) [
    | true ↦ (publish_return (checked run) sequence, sequence)
    | false ↦
        let (r, o) =
          publish (note tokens_total_inc (checked run)) (suc sequence) TokenEventKind.token
            generated none in
        elim o [
          | returned ↦ generated_from rest (suc sequence) r
          | raised text ↦ ((r, raised text), suc sequence)
        ]
  ]

  -- The `except` clause.
  abbrev pub excepted : (Run × Outcome) × ℕ → Run × Outcome
  excepted ((run, returned), sequence) = (run, returned)
  excepted ((run, raised text), sequence) =
      publish (note jobs_failed_inc run) sequence TokenEventKind.failed no_token (some text)

  -- The `finally` clause, and the timer's exit.
  abbrev pub finished : Run × Outcome → Run × Outcome
  finished (run, o) = (note job_duration_observe (flush (note active_jobs_dec run)), o)

  unfoldable pub process_job : InferenceBackend → Run → Run × Outcome
  unfolding publish generated_from
  process_job generate run =
      let begun = note active_jobs_inc (note jobs_total_inc run) in
      let (r, o) = publish begun 0 TokenEventKind.started no_token none in
      elim o [
        | raised text ↦ (note job_duration_observe r, raised text)
        | returned ↦
            finished
              (excepted (generated_from (generate job.prompt job.max_tokens job.sampling) 0 r))
      ]
