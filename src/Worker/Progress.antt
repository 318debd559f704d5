-- ===== src/Worker/Progress.antt =====
-- That the loop of the worker goes on: what it takes for every message to be served.
use mathlib.Core.List.{append_assoc, append-nil}
use cria.Prelude.{◌≡◌, refl, sym, ap, ◌∙◌, none, List, [], ◌∷◌, ◌++◌, arith}
use cria.Worker.Events.{InferenceJob}
use cria.Worker.Job.{Ambient, returned}
use cria.Worker.Loop.{
  Message, Polled, nothing, consumer_error, message, Setting, Worker, read, read_job, commit,
  process_message, serve_one, serve,
}
use cria.Worker.Committed.{AllServed, serve-AllServed}
use cria.Worker.Transcript.{IsReliable, process_job-transcript}

-- The messages that the polls brought, in their order.
abbrev pub messages : List (Polled × Ambient) → List Message
messages [] = []
messages ((nothing, a) ∷ polls) = messages polls
messages ((consumer_error text, a) ∷ polls) = messages polls
messages ((message m, a) ∷ polls) = m ∷ messages polls

module _ (c : Setting) where
  -- Every message holds a job.
  abbrev pub AllReadable : List Message → Type 0
  AllReadable [] = Unit
  AllReadable (m ∷ ms) = ((job : InferenceJob) × (read_job c m ≡ read job)) × AllReadable ms

  module _ (reliable : IsReliable c.producer)
      (commits : (m : Message) → c.refuses_commit m ≡ none) where
    process_message-commits :
        (a : Ambient) (m : Message) (job : InferenceJob) (w : Worker)
        → ((process_message c a m job w).1 ≡ returned)
          × ((process_message c a m job w).0.committed ≡ w.committed ++ m ∷ [])
    unfolding process_message commit
    process_message-commits a m job w =
        let (_, returns) =
          process_job-transcript c.producer c.worker_id a job reliable c.backend w.run in
        ground (arith, returns, commits m)

    serve_one-commits :
        (a : Ambient) (m : Message) (job : InferenceJob) (w : Worker)
        → read_job c m ≡ read job
        → ((serve_one c w (message m) a).1 ≡ returned)
          × ((serve_one c w (message m) a).0.committed ≡ w.committed ++ m ∷ [])
    unfolding serve_one
    serve_one-commits a m job w reads = rw (reads, serve_one) (process_message-commits a m job w)

    serve_all-commits :
        (w : Worker) (polls : List (Polled × Ambient))
        → AllReadable (messages polls)
        → ((serve c w polls).1 ≡ returned)
          × ((serve c w polls).0.committed ≡ w.committed ++ messages polls)
    unfolding serve serve_one
    serve_all-commits w [] h = (refl, sym (append-nil w.committed))
    serve_all-commits w ((nothing, a) ∷ polls) h = serve_all-commits w polls h
    serve_all-commits w ((consumer_error text, a) ∷ polls) h = serve_all-commits w polls h
    serve_all-commits w ((message m, a) ∷ polls) ((job, reads), h) =
        let (returns, committed) = serve_one-commits a m job w reads in
        let (rest, all) = serve_all-commits (serve_one c w (message m) a).0 polls h in
        rw (returns, serve)
          (
            rest,
            all
                ∙ ap (λ l. l ++ messages polls) committed
                ∙ append_assoc w.committed (m ∷ []) (messages polls),
          )

    -- Where the producer takes every event and no commit is refused: if each message that the
    -- polls bring holds a job, the loop of the worker goes over all of them and returns, and it
    -- has committed exactly those messages, in their order, behind those that it had; if for each
    -- that it had the published events have in one piece a start, tokens and one terminal event of
    -- its job, then they have the same for each of the messages.
    pub serve-serves :
        (w : Worker) (polls : List (Polled × Ambient))
        → AllReadable (messages polls)
        → AllServed c w
        → ((serve c w polls).1 ≡ returned)
          × ((serve c w polls).0.committed ≡ w.committed ++ messages polls)
          × AllServed c (serve c w polls).0
    serve-serves w polls readable before =
        let (returns, committed) = serve_all-commits w polls readable in
        (returns, committed, serve-AllServed c w polls before)
