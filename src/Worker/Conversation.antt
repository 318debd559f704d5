-- ===== src/Worker/Conversation.antt =====
-- A job from end to end: what the worker publishes of it, through the router of the control plane
-- (control-plane/src/kafka/mod.rs) to the request's record and the client's stream.
use Prim.Native.Nat.{max}
use mathlib.Core.List.{append_cancel_left}
use cria.Prelude.{
  ℕ, suc, ◌+◌, String, ◌≡◌, refl, ap, true, none, some, List, [], ◌∷◌, ◌++◌, map, length, arith,
  ◌∙◌, sym,
}
use cria.Table.{DashMap}
use cria.State
use cria.State.{RequestRecord, RequestStatusInternal}
use cria.Streaming.{Mpsc, sender_of}
use cria.Streaming.Wiring.{IsWired}
use cria.Streaming.Delivery.{IsHeld, accepted_items}
use cria.Kafka.Messages.{TokenEventEnvelope, Kafka}
use cria.Kafka.Router.{Message, route_events}
use cria.Kafka.Router.Batch.{own, valid_events, route_events-eq-route_all}
use cria.Kafka.Router.Records.{record-route_all, last_status, highest}
use cria.Kafka.Router.Delivery.{delivered-route_all, until_terminal, has_terminal, item}
use cria.Gateway.{Gateway}
use cria.Worker.Events.{InferenceJob, token_event}
use cria.Worker.Backend.{GeneratedToken, InferenceBackend}
use cria.Worker.Job.{TokenProducer, Ambient, Run, process_job}
use cria.Worker.Transcript.{
  Verdict, whole, stopped, broke, heard, IsReliable, told, transcript, process_job-transcript,
}

-- The events with the readings of the clock when the router handles them, one after the other.
unfoldable pub stamped : (ℕ → ℕ) → ℕ → List TokenEventEnvelope → List (TokenEventEnvelope × ℕ)
stamped clock i [] = []
stamped clock i (e ∷ es) = (e, clock i) ∷ stamped clock (suc i) es

-- The status that a job's end leaves.
abbrev pub verdict_status : Verdict → RequestStatusInternal
verdict_status whole = RequestStatusInternal.completed
verdict_status stopped = RequestStatusInternal.cancelled
verdict_status (broke text) = RequestStatusInternal.failed

module _ (worker_id : String) (now_ms : ℕ → ℕ) (id : String) (clock : ℕ → ℕ) where
  said : ℕ → ℕ → ℕ → List GeneratedToken → Verdict → List (TokenEventEnvelope × ℕ)
  said i n r ts v = stamped clock i (told worker_id now_ms id n r ts v)

  highest-said :
      (i n r : ℕ) (ts : List GeneratedToken) (v : Verdict)
      → max n (highest (said i n r ts v)) ≡ n + length ts
  unfolding said stamped told token_event
  highest-said i n r [] whole = ground arith
  highest-said i n r [] stopped = ground arith
  highest-said i n r [] (broke text) = ground arith
  highest-said i n r (t ∷ ts) v = ground (arith, highest-said (suc i) (suc n) (suc r) ts v)

  last_status-said :
      (i n r : ℕ) (ts : List GeneratedToken) (v : Verdict) (st : RequestStatusInternal)
      → last_status st (said i n r ts v) ≡ verdict_status v
  unfolding said stamped told token_event
  last_status-said i n r [] whole st = refl
  last_status-said i n r [] stopped st = refl
  last_status-said i n r [] (broke text) st = refl
  last_status-said i n r (t ∷ ts) v st = last_status-said (suc i) (suc n) (suc r) ts v _

  until_terminal-said :
      (i n r : ℕ) (ts : List GeneratedToken) (v : Verdict)
      → (until_terminal (said i n r ts v) ≡ said i n r ts v)
        × (has_terminal (said i n r ts v) ≡ true)
  unfolding said stamped told token_event
  until_terminal-said i n r [] whole = (refl, refl)
  until_terminal-said i n r [] stopped = (refl, refl)
  until_terminal-said i n r [] (broke text) = (refl, refl)
  until_terminal-said i n r (t ∷ ts) v =
      let (all, ended) = until_terminal-said (suc i) (suc n) (suc r) ts v in (rw all refl, ended)

  all_said : ℕ → List GeneratedToken → Verdict → List (TokenEventEnvelope × ℕ)
  all_said r ts v = stamped clock 0 (transcript worker_id now_ms id r ts v)

  -- What the router makes of the events of a whole job.
  all_said-read :
      (r : ℕ) (ts : List GeneratedToken) (v : Verdict) (st : RequestStatusInternal)
      → (last_status st (all_said r ts v) ≡ verdict_status v)
        × (highest (all_said r ts v) ≡ length ts)
        × (until_terminal (all_said r ts v) ≡ all_said r ts v)
        × (has_terminal (all_said r ts v) ≡ true)
  unfolding all_said said stamped transcript token_event
  all_said-read r ts v st =
      let (all, ended) = until_terminal-said 1 0 (suc r) ts v in
      (
        last_status-said 1 0 (suc r) ts v _,
        ground (arith, highest-said 1 0 (suc r) ts v),
        rw all refl,
        ended,
      )

module _ ⦃d : DashMap⦄ ⦃ch : Mpsc⦄ ⦃k : Kafka⦄ where
  -- A worker runs a job, on any backend, with a producer that takes every event; the router
  -- handles any messages, among which the events of the job's request are those that the worker
  -- published of this job, in their order. Where the request has a record, and a registered client
  -- that keeps its receiver in a registry where no two requests share a channel: the record ends
  -- with the status that the end of the job has, and with the number of the tokens that the
  -- backend yielded or the count that it had, whichever is more; the client is handed exactly the
  -- worker's events, in order; and it is unregistered.
  pub job-conversed :
      (t : TokenProducer) (worker_id : String) (a : Ambient) (job : InferenceJob)
      (backend : InferenceBackend) (run : Run) (es : List TokenEventEnvelope) (g : Gateway)
      (ms : List (Message × ℕ)) (clock : ℕ → ℕ) (r : RequestRecord) (c : ℕ)
      → IsReliable t
      → (process_job t worker_id a job backend run).0.published ≡ run.published ++ es
      → own job.request_id (valid_events ms) ≡ stamped clock 0 es
      → State.get g.state job.request_id ≡ some r
      → IsWired g.streams
      → sender_of g.streams job.request_id ≡ some c
      → IsHeld c
      → let (ts, v) =
          heard a.is_cancelled run.checks (backend job.prompt job.max_tokens job.sampling) in
        ((r' : RequestRecord) × (State.get (route_events g ms).state job.request_id ≡ some r')
          × (r'.status ≡ verdict_status v)
          × (r'.emitted_tokens ≡ max r.emitted_tokens (length ts)))
        × (accepted_items (route_events g ms).streams c
            ≡ accepted_items g.streams c ++ map item (stamped clock 0 es))
        × (sender_of (route_events g ms).streams job.request_id ≡ none)
  unfolding all_said
  job-conversed t worker_id a job backend run es g ms clock r c reliable published arrived known
        wired registered held =
      let (ts, v) =
        heard a.is_cancelled run.checks (backend job.prompt job.max_tokens job.sampling) in
      let (told_so, _) = process_job-transcript t worker_id a job reliable backend run in
      let same : es ≡ transcript worker_id a.now_ms job.request_id run.readings ts v =
        append_cancel_left run.published _ _ (sym published ∙ told_so) in
      let (r', found, status, tokens) =
        record-route_all g (valid_events ms) job.request_id r known in
      let (handed, left) =
        delivered-route_all g (valid_events ms) job.request_id c wired registered held in
      let mine : own job.request_id (valid_events ms)
          ≡ all_said worker_id a.now_ms job.request_id clock run.readings ts v =
        arrived ∙ ap (stamped clock 0) same in
      let (ends, counted, whole_said, ended) =
        all_said-read worker_id a.now_ms job.request_id clock run.readings ts v r.status in
      rw route_events-eq-route_all (
        (r', found, status ∙ rw mine ends, tokens ∙ rw (mine, counted) refl),
        handed ∙ rw (mine, whole_said, same) refl,
        left ∙ rw (mine, ended) refl,
      )
