-- ===== src/Worker/Transcript.antt =====
-- What `process_job` publishes of a job, whatever the backend's generator does.
use mathlib.Core.List.{append_assoc}
use cria.Prelude.{
  ℕ, suc, String, ◌≡◌, Bool, true, false, Option, none, some, List, [], ◌∷◌, ◌++◌, arith,
}
use cria.Kafka.Messages.{TokenEventEnvelope, TokenEventKind}
use cria.Worker.Events.{InferenceJob, token_event}
use cria.Worker.Backend.{Generator, returns, raises, asks, yields, GeneratedToken, InferenceBackend}
use cria.Worker.Job.{
  TokenProducer, Ambient, Run, returned, note, checked, no_token, publish, generated_from, excepted,
  process_job, jobs_total_inc, active_jobs_inc, jobs_cancelled_inc, jobs_failed_inc,
  tokens_total_inc,
}

-- How a job ends: with all its tokens, cancelled, or with an exception of the backend.
pub data Verdict : Type 0 where
  whole stopped : Verdict
  broke : String → Verdict

-- What a generator yields and how it ends, when the n-th check of the cancellation from here on is
-- answered so.
unfoldable pub heard : (ℕ → Bool) → ℕ → Generator → List GeneratedToken × Verdict
heard c n returns = ([], elim (c n) [ true ↦ stopped | false ↦ whole ])
heard c n (raises text) = ([], broke text)
heard c n (asks go_on) = heard c (suc n) (go_on (c n))
heard c n (yields t rest) = elim (c n) [
  | true ↦ ([], stopped)
  | false ↦ let (ts, v) = heard c (suc n) rest in (t ∷ ts, v)
]

-- The producer takes every event.
abbrev pub IsReliable : TokenProducer → Type 0
IsReliable t = (es : List TokenEventEnvelope) (e : TokenEventEnvelope) → t.refuses es e ≡ none

module _ (worker_id : String) (now_ms : ℕ → ℕ) (id : String) where
  abbrev event : ℕ → ℕ → TokenEventKind → GeneratedToken → Option String → TokenEventEnvelope
  event sequence reading kind t error =
      token_event id sequence kind worker_id t.text t.probability error (now_ms reading)

  -- The terminal event.
  abbrev pub end_event : ℕ → ℕ → Verdict → TokenEventEnvelope
  end_event sequence reading whole =
      event sequence reading TokenEventKind.completed (record { text = ""; probability = 0 }) none
  end_event sequence reading stopped =
      event sequence reading TokenEventKind.cancelled (record { text = ""; probability = 0 })
        (some "cancelled by client")
  end_event sequence reading (broke text) =
      event sequence reading TokenEventKind.failed (record { text = ""; probability = 0 })
        (some text)

  -- The tokens in order, each under the next number, then the terminal event under the last one.
  unfoldable pub told : ℕ → ℕ → List GeneratedToken → Verdict → List TokenEventEnvelope
  told sequence reading [] v = end_event sequence reading v ∷ []
  told sequence reading (t ∷ ts) v =
      event (suc sequence) reading TokenEventKind.token t none
      ∷ told (suc sequence) (suc reading) ts v

  -- The start, under number 0, and the rest.
  unfoldable pub transcript : ℕ → List GeneratedToken → Verdict → List TokenEventEnvelope
  unfolding told
  transcript reading ts v =
      event 0 reading TokenEventKind.started (record { text = ""; probability = 0 }) none
      ∷ told 0 (suc reading) ts v

module _ (t : TokenProducer) (worker_id : String) (a : Ambient) (job : InferenceJob)
    (reliable : IsReliable t) where
  -- The run after an event that was taken.
  abbrev after : Run → ℕ → TokenEventKind → GeneratedToken → Option String → Run
  after run n kind g error = record run {
    published =
        run.published ++ event worker_id a.now_ms job.request_id n run.readings kind g error ∷ [];
    readings = suc run.readings;
  }

  publish-reliable :
      (run : Run) (n : ℕ) (kind : TokenEventKind) (g : GeneratedToken) (error : Option String)
      → publish t worker_id a job run n kind g error ≡ (after run n kind g error, returned)
  unfolding publish
  publish-reliable run n kind g error = ground (
    arith,
    reliable run.published (event worker_id a.now_ms job.request_id n run.readings kind g error),
  )

  -- The `try` and its `except` publish what the generator tells.
  excepted-generated_from :
      (g : Generator) (n : ℕ) (run : Run)
      → let (run', o) = excepted t worker_id a job (generated_from t worker_id a job g n run) in
        let (ts, v) = heard a.is_cancelled run.checks g in
        (run'.published
          ≡ run.published ++ told worker_id a.now_ms job.request_id n run.readings ts v)
        × (o ≡ returned)
  unfolding generated_from heard told
  excepted-generated_from returns n run = ground (
    arith,
    publish-reliable (note jobs_cancelled_inc (checked run)) n TokenEventKind.cancelled
        (no_token t worker_id a job) (some "cancelled by client"),
    publish-reliable (checked run) n TokenEventKind.completed (no_token t worker_id a job) none,
  )
  excepted-generated_from (raises text) n run = ground (
    arith,
    publish-reliable (note jobs_failed_inc run) n TokenEventKind.failed (no_token t worker_id a job)
        (some text),
  )
  excepted-generated_from (asks go_on) n run =
      excepted-generated_from (go_on (a.is_cancelled run.checks)) n (checked run)
  excepted-generated_from (yields g rest) n run =
      let run' = after (note tokens_total_inc (checked run)) (suc n) TokenEventKind.token g none in
      ground (
        arith,
        publish-reliable (note jobs_cancelled_inc (checked run)) n TokenEventKind.cancelled
            (no_token t worker_id a job) (some "cancelled by client"),
        publish-reliable (note tokens_total_inc (checked run)) (suc n) TokenEventKind.token g none,
        excepted-generated_from rest (suc n) run',
        append_assoc run.published
            (event worker_id a.now_ms job.request_id (suc n) run.readings TokenEventKind.token g
                none
              ∷ [])
            (told worker_id a.now_ms job.request_id (suc n) (suc run.readings)
              (heard a.is_cancelled (suc run.checks) rest).0
              (heard a.is_cancelled (suc run.checks) rest).1),
      )

  -- Where the producer takes every event, a job that runs on any backend returns, and what it
  -- publishes is: the start under number 0; the tokens that the generator yields, numbered from 1
  -- in order; and one terminal event, under the number of the last token: completed when the
  -- generator ends, cancelled when a check finds the cancellation, failed when the generator
  -- raises.
  pub process_job-transcript :
      (backend : InferenceBackend) (run : Run)
      → let (run', o) = process_job t worker_id a job backend run in
        let (ts, v) =
          heard a.is_cancelled run.checks (backend job.prompt job.max_tokens job.sampling) in
        (run'.published
          ≡ run.published ++ transcript worker_id a.now_ms job.request_id run.readings ts v)
        × (o ≡ returned)
  unfolding process_job transcript
  process_job-transcript backend run =
      let begun = note active_jobs_inc (note jobs_total_inc run) in
      let g = backend job.prompt job.max_tokens job.sampling in
      let begins =
        event worker_id a.now_ms job.request_id 0 run.readings TokenEventKind.started
          (no_token t worker_id a job) none in
      let (ts, v) = heard a.is_cancelled run.checks g in
      ground (
        arith,
        publish-reliable begun 0 TokenEventKind.started (no_token t worker_id a job) none,
        excepted-generated_from g 0
            (after begun 0 TokenEventKind.started (no_token t worker_id a job) none),
        append_assoc run.published (begins ∷ [])
            (told worker_id a.now_ms job.request_id 0 (suc run.readings) ts v),
      )
