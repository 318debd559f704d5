-- ===== src/Worker/Committed.antt =====
-- What a message that the worker commits has had done for it, and what a message that it cannot read
-- does.
use mathlib.Core.List.{append_assoc, append-nil}
use cria.Prelude.{
  String, ◌≡◌, ◌≢◌, refl, List, [], ◌∷◌, ◌++◌, Every, Every-mono, Every-append, Option-cases, inl,
  inr, ◌∙◌, arith, ◌⊎◌, ap, sym, Bool, true, false,
}
use cria.Kafka.Messages.{TokenEventEnvelope}
use cria.Worker.Events.{InferenceJob}
use cria.Worker.Job.{Ambient, Run, Outcome, returned, raised}
use cria.Worker.Loop.{
  Message, Polled, nothing, consumer_error, message, Setting, Worker, Read, read, unreadable,
  read_job, commit, process_message, serve_one, serve,
}
use cria.Worker.Told.{IsWhole, Did, process_job-Did}

Outcome-cases : (o : Outcome) → ((text : String) × (o ≡ raised text)) ⊎ (o ≡ returned)
Outcome-cases (raised text) = inl (text, refl)
Outcome-cases returned = inr refl

Read-cases :
    (r : Read) → ((text : String) × (r ≡ unreadable text)) ⊎ ((job : InferenceJob) × (r ≡ read job))
Read-cases (unreadable text) = inl (text, refl)
Read-cases (read job) = inr (job, refl)

is_raised : Outcome → Bool
is_raised returned = false
is_raised (raised text) = true

-- An exception is not a return.
raised_ne : (o : Outcome) (text : String) → o ≡ raised text → o ≢ returned
unfolding is_raised
raised_ne o text h k = absurd (ground (arith, sym h ∙ k))

module _ (c : Setting) where
  -- Among the events is the whole transcript of a run of the message's job.
  pub record IsServed (es : List TokenEventEnvelope) (m : Message) : Type 0 where
    pub job : InferenceJob
    pub reads : read_job c m ≡ read job
    pub told : List TokenEventEnvelope
    pub whole : IsWhole c.worker_id job.request_id told
    pub before : List TokenEventEnvelope
    pub behind : List TokenEventEnvelope
    pub stands : es ≡ before ++ (told ++ behind)

  abbrev pub AllServed : Worker → Type 0
  AllServed w = Every (IsServed w.run.published) w.committed

  -- What a worker does next takes no event back.
  IsServed-append :
      (es more : List TokenEventEnvelope) (m : Message) → IsServed es m → IsServed (es ++ more) m
  IsServed-append es more m h = record {
    job = h.job;
    reads = h.reads;
    told = h.told;
    whole = h.whole;
    before = h.before;
    behind = h.behind ++ more;
    stands =
        ap (λ all. all ++ more) h.stands
        ∙ append_assoc h.before (h.told ++ h.behind) more
        ∙ ap (λ end. h.before ++ end) (append_assoc h.told h.behind more);
  }

  AllServed-append :
      (w : Worker) (run' : Run) (more : List TokenEventEnvelope)
      → run'.published ≡ w.run.published ++ more
      → AllServed w
      → AllServed (record w { run = run' })
  AllServed-append w run' more longer h = rw longer (
      Every-mono (IsServed w.run.published) (IsServed (w.run.published ++ more)) w.committed
        (λ m. IsServed-append w.run.published more m) h)

  commit-AllServed :
      (m : Message) (w : Worker)
      → AllServed w
      → IsServed w.run.published m
      → AllServed (commit c m w).0
  unfolding commit
  commit-AllServed m w h served = elim (Option-cases (c.refuses_commit m)) [
    | inl taken ↦
        rw (taken, commit)
          (Every-append (IsServed w.run.published) w.committed (m ∷ []) h (served, tt))
    | inr (text, refused) ↦ rw (refused, commit) h
  ]

  -- What `process_message` does of a run of the job.
  abbrev then_commit : Message → Worker → Run × Outcome → Worker × Outcome
  then_commit m w (run', o) = elim o [
    | raised text ↦ (record w { run = run' }, raised text)
    | returned ↦ commit c m (record w { run = run' })
  ]

  then_commit-AllServed :
      (a : Ambient) (m : Message) (job : InferenceJob) (w : Worker) (x : Run × Outcome)
      → read_job c m ≡ read job
      → AllServed w
      → Did c.producer c.worker_id a job w.run.published x
      → AllServed (then_commit m w x).0
  unfolding Did
  then_commit-AllServed a m job w (run', returned) reads h (told, whole, longer) =
      commit-AllServed m (record w { run = run' }) (AllServed-append w run' told longer h)
        (record {
          job = job;
          reads = reads;
          told = told;
          whole = whole;
          before = w.run.published;
          behind = [];
          stands = longer ∙ ap (λ end. w.run.published ++ end) (sym (append-nil told));
        })
  then_commit-AllServed a m job w (run', raised text) reads h (more, longer) =
      AllServed-append w run' more longer h

  process_message-AllServed :
      (a : Ambient) (m : Message) (job : InferenceJob) (w : Worker)
      → read_job c m ≡ read job
      → AllServed w
      → AllServed (process_message c a m job w).0
  unfolding process_message
  process_message-AllServed a m job w reads h =
      then_commit-AllServed a m job w _ reads h
        (process_job-Did c.producer c.worker_id a job c.backend w.run)

  serve_one-AllServed :
      (w : Worker) (p : Polled) (a : Ambient) → AllServed w → AllServed (serve_one c w p a).0
  unfolding serve_one
  serve_one-AllServed w nothing a h = h
  serve_one-AllServed w (consumer_error text) a h = h
  serve_one-AllServed w (message m) a h = elim (Read-cases (read_job c m)) [
    | inl (text, bad) ↦ rw (bad, serve_one) h
    | inr (job, good) ↦ rw (good, serve_one) (process_message-AllServed a m job w good h)
  ]

  -- However the loop of the worker ends, and whatever the producer and the commits refuse: if for
  -- each message committed before, the published events have in one piece a start, tokens and one
  -- terminal event, all of the request of the job that the message holds and by this worker, then
  -- they have the same for each message that is committed behind it.
  pub serve-AllServed :
      (w : Worker) (polls : List (Polled × Ambient)) → AllServed w → AllServed (serve c w polls).0
  unfolding serve
  serve-AllServed w [] h = h
  serve-AllServed w ((p, a) ∷ polls) h = elim (Outcome-cases (serve_one c w p a).1) [
    | inl (text, stops) ↦ rw (stops, serve) (serve_one-AllServed w p a h)
    | inr goes_on ↦
        rw (goes_on, serve)
          (serve-AllServed (serve_one c w p a).0 polls (serve_one-AllServed w p a h))
  ]

  serve_one-unreadable :
      (w : Worker) (m : Message) (a : Ambient) (text : String)
      → read_job c m ≡ unreadable text
      → serve_one c w (message m) a ≡ (w, raised text)
  unfolding serve_one
  serve_one-unreadable w m a text bad = rw (bad, serve_one) refl

  -- However the loop of the worker goes up to a message that does not hold a job: the worker does
  -- nothing for that message and nothing behind it, commits neither, and the loop does not end by
  -- returning.
  pub serve-unreadable :
      (w : Worker) (polls behind : List (Polled × Ambient)) (m : Message) (a : Ambient)
      (text : String)
      → read_job c m ≡ unreadable text
      → ((serve c w (polls ++ (message m, a) ∷ behind)).0 ≡ (serve c w polls).0)
        × ((serve c w (polls ++ (message m, a) ∷ behind)).1 ≢ returned)
  unfolding serve serve_one
  serve-unreadable w [] behind m a text bad =
      let stops = serve_one-unreadable w m a text bad in
      (rw (stops, serve) (ap (λ x. x.0) stops), raised_ne _ text (rw (stops, serve) refl))
  serve-unreadable w ((p, b) ∷ polls) behind m a text bad =
      elim (Outcome-cases (serve_one c w p b).1) [
        | inl (text', stops) ↦ rw (stops, serve) (refl, λ h. raised_ne _ text' refl h)
        | inr goes_on ↦
            rw (goes_on, serve) (serve-unreadable (serve_one c w p b).0 polls behind m a text bad)
      ]
