-- ===== src/Worker/Told.antt =====
-- What `process_job` has published when it returns, and when it does not, whatever the producer
-- refuses.
use mathlib.Core.List.{append_assoc, append-nil}
use cria.Prelude.{
  ℕ, suc, String, ◌≡◌, refl, sym, ap, ◌∙◌, true, Option, none, some, List, [], ◌∷◌, ◌++◌, Every,
  Option-cases, Bool-cases, inl, inr,
}
use cria.Kafka.Messages.{TokenEventEnvelope, TokenEventKind}
use cria.Kafka.Router.Step.{is_terminal_kind}
use cria.Worker.Events.{InferenceJob, token_event}
use cria.Worker.Backend.{Generator, returns, raises, asks, yields, GeneratedToken, InferenceBackend}
use cria.Worker.Job.{
  TokenProducer, Ambient, Run, Outcome, returned, raised, note, flush, checked, no_token, publish,
  publish_end, generated_from, excepted, finished, process_job, jobs_total_inc, active_jobs_inc,
  jobs_cancelled_inc, jobs_failed_inc, tokens_total_inc, job_duration_observe,
}

-- An event of the request, by the worker, of the kind.
abbrev pub IsOf : String → String → TokenEventKind → TokenEventEnvelope → Type 0
IsOf worker_id id kind e = (e.request_id ≡ id) × (e.worker_id ≡ worker_id) × (e.event_type ≡ kind)

-- A start, tokens, and one terminal event, all of the request and by the worker.
pub record IsWhole (worker_id id : String) (told : List TokenEventEnvelope) : Type 0 where
  pub first : TokenEventEnvelope
  pub body : List TokenEventEnvelope
  pub kind : TokenEventKind
  pub last : TokenEventEnvelope
  pub is : told ≡ first ∷ (body ++ last ∷ [])
  pub starts : IsOf worker_id id TokenEventKind.started first
  pub tokens : Every (IsOf worker_id id TokenEventKind.token) body
  pub ends : IsOf worker_id id kind last
  pub terminal : is_terminal_kind kind ≡ true

module _ (t : TokenProducer) (worker_id : String) (a : Ambient) (job : InferenceJob) where
  abbrev no_words : GeneratedToken
  no_words = no_token t worker_id a job

  -- One event more, or none.
  Took : List TokenEventEnvelope → TokenEventKind → Run × Outcome → Type 0
  Took old kind (r, returned) =
      (e : TokenEventEnvelope) × IsOf worker_id job.request_id kind e
      × (r.published ≡ old ++ e ∷ [])
  Took old kind (r, raised text) = r.published ≡ old

  publish-Took :
      (run : Run) (n : ℕ) (kind : TokenEventKind) (g : GeneratedToken) (error : Option String)
      → Took run.published kind (publish t worker_id a job run n kind g error)
  unfolding publish Took token_event
  publish-Took run n kind g error =
      let e =
        token_event job.request_id n kind worker_id g.text g.probability error
          (a.now_ms run.readings) in
      elim (Option-cases (t.refuses run.published e)) [
        | inl taken ↦ rw (taken, publish) (e, (refl, refl, refl), refl)
        | inr (text, refused) ↦ rw (refused, publish) refl
      ]

  -- Tokens and a terminal event more, or only tokens where an exception came.
  Ran : List TokenEventEnvelope → Run × Outcome → Type 0
  Ran old (r, returned) =
      (body : List TokenEventEnvelope) × (kind : TokenEventKind) × (last : TokenEventEnvelope)
      × Every (IsOf worker_id job.request_id TokenEventKind.token) body
      × IsOf worker_id job.request_id kind last
      × (is_terminal_kind kind ≡ true)
      × (r.published ≡ old ++ (body ++ last ∷ []))
  Ran old (r, raised text) =
      (body : List TokenEventEnvelope) × Every (IsOf worker_id job.request_id TokenEventKind.token)
        body
      × (r.published ≡ old ++ body)

  Ran-end :
      (old : List TokenEventEnvelope) (kind : TokenEventKind) (x : Run × Outcome)
      → is_terminal_kind kind ≡ true
      → Took old kind x
      → Ran old x
  unfolding Took Ran
  Ran-end old kind (r, returned) last (e, is, more) = ([], kind, e, tt, is, last, more)
  Ran-end old kind (r, raised text) last same = ([], tt, same ∙ sym (append-nil old))

  Ran-return :
      (old : List TokenEventEnvelope) (x : Run × Outcome)
      → Took old TokenEventKind.cancelled x
      → Ran old (
          let (r, o) = x in
          elim o [ returned ↦ (flush r, returned) | raised text ↦ (r, raised text) ])
  unfolding Took Ran
  Ran-return old (r, returned) (e, is, more) = ([], TokenEventKind.cancelled, e, tt, is, refl, more)
  Ran-return old (r, raised text) same = ([], tt, same ∙ sym (append-nil old))

  -- A token in front.
  Ran-token :
      (old : List TokenEventEnvelope) (e : TokenEventEnvelope) (now : List TokenEventEnvelope)
      (y : Run × Outcome)
      → IsOf worker_id job.request_id TokenEventKind.token e
      → now ≡ old ++ e ∷ []
      → Ran now y
      → Ran old y
  unfolding Ran
  Ran-token old e now (r, returned) is more (body, kind, last, tokens, ends, final, all) = (
    e ∷ body,
    kind,
    last,
    (is, tokens),
    ends,
    final,
    all ∙ ap (λ l. l ++ (body ++ last ∷ [])) more ∙ append_assoc old (e ∷ []) (body ++ last ∷ []),
  )
  Ran-token old e now (r, raised text) is more (body, tokens, all) =
      (e ∷ body, (is, tokens), all ∙ ap (λ l. l ++ body) more ∙ append_assoc old (e ∷ []) body)

  -- What comes behind the publishing of a token.
  abbrev went_on : Generator → ℕ → Run × Outcome → (Run × Outcome) × ℕ
  went_on rest n (r, o) = elim o [
    | returned ↦ generated_from t worker_id a job rest n r
    | raised text ↦ ((r, raised text), n)
  ]

  Ran-yield :
      (old : List TokenEventEnvelope) (rest : Generator) (n : ℕ) (x : Run × Outcome)
      → Took old TokenEventKind.token x
      → ((r : Run) → Ran r.published (generated_from t worker_id a job rest n r).0)
      → Ran old (went_on rest n x).0
  unfolding Took
  Ran-yield old rest n (r, returned) (e, is, more) go_on =
      Ran-token old e r.published (generated_from t worker_id a job rest n r).0 is more (go_on r)
  Ran-yield old rest n (r, raised text) same go_on =
      unfold Ran in ([], tt, same ∙ sym (append-nil old))

  generated_from-Ran :
      (g : Generator) (n : ℕ) (run : Run)
      → Ran run.published (generated_from t worker_id a job g n run).0
  unfolding generated_from
  generated_from-Ran returns n run = elim (Bool-cases (a.is_cancelled run.checks)) [
    | inl found ↦
        rw (found, publish_end)
          (Ran-end run.published TokenEventKind.cancelled _ refl (
            publish-Took (note jobs_cancelled_inc (checked run)) n TokenEventKind.cancelled no_words
              (some "cancelled by client")))
    | inr live ↦
        rw (live, publish_end)
          (Ran-end run.published TokenEventKind.completed _ refl
            (publish-Took (checked run) n TokenEventKind.completed no_words none))
  ]
  generated_from-Ran (raises text) n run = unfold Ran in ([], tt, sym (append-nil run.published))
  generated_from-Ran (asks go_on) n run =
      generated_from-Ran (go_on (a.is_cancelled run.checks)) n (checked run)
  generated_from-Ran (yields g rest) n run = elim (Bool-cases (a.is_cancelled run.checks)) [
    | inl found ↦
        rw (found, generated_from)
          (Ran-return run.published _ (
            publish-Took (note jobs_cancelled_inc (checked run)) n TokenEventKind.cancelled no_words
              (some "cancelled by client")))
    | inr live ↦
        rw (live, generated_from)
          (Ran-yield run.published rest (suc n) _
            (publish-Took (note tokens_total_inc (checked run)) (suc n) TokenEventKind.token g none)
            (generated_from-Ran rest (suc n)))
  ]

  -- A whole transcript more, or, where an exception leaves `process_job`, some events more.
  unfoldable pub Did : List TokenEventEnvelope → Run × Outcome → Type 0
  Did old (r, returned) =
      (told : List TokenEventEnvelope) × IsWhole worker_id job.request_id told
      × (r.published ≡ old ++ told)
  Did old (r, raised text) = (more : List TokenEventEnvelope) × (r.published ≡ old ++ more)

  Ran-failed :
      (old body : List TokenEventEnvelope) (r : Run) (x : Run × Outcome)
      → Every (IsOf worker_id job.request_id TokenEventKind.token) body
      → r.published ≡ old ++ body
      → Took r.published TokenEventKind.failed x
      → Ran old x
  unfolding Took Ran
  Ran-failed old body r (r', returned) tokens so_far (e, is, more) = (
    body,
    TokenEventKind.failed,
    e,
    tokens,
    is,
    refl,
    more ∙ ap (λ l. l ++ e ∷ []) so_far ∙ append_assoc old body (e ∷ []),
  )
  Ran-failed old body r (r', raised text) tokens so_far same = (body, tokens, same ∙ so_far)

  excepted-Ran :
      (old : List TokenEventEnvelope) (z : (Run × Outcome) × ℕ)
      → Ran old z.0
      → Ran old (excepted t worker_id a job z)
  unfolding Ran
  excepted-Ran old ((run, returned), n) h = h
  excepted-Ran old ((run, raised text), n) h =
      let (body, tokens, so_far) = h in
      Ran-failed old body run _ tokens so_far
        (publish-Took (note jobs_failed_inc run) n TokenEventKind.failed no_words (some text))

  Did-finished :
      (old : List TokenEventEnvelope) (e : TokenEventEnvelope) (now : List TokenEventEnvelope)
      (y : Run × Outcome)
      → IsOf worker_id job.request_id TokenEventKind.started e
      → now ≡ old ++ e ∷ []
      → Ran now y
      → Did old (finished t worker_id a job y)
  unfolding Ran Did
  Did-finished old e now (r, returned) is begun (body, kind, last, tokens, ends, final, all) = (
    e ∷ (body ++ last ∷ []),
    record {
      first = e;
      body = body;
      kind = kind;
      last = last;
      is = refl;
      starts = is;
      tokens = tokens;
      ends = ends;
      terminal = final;
    },
    all ∙ ap (λ l. l ++ (body ++ last ∷ [])) begun ∙ append_assoc old (e ∷ []) (body ++ last ∷ []),
  )
  Did-finished old e now (r, raised text) is begun (body, tokens, all) =
      (e ∷ body, all ∙ ap (λ l. l ++ body) begun ∙ append_assoc old (e ∷ []) body)

  abbrev begun_with : Generator → Run × Outcome → Run × Outcome
  begun_with g (r, o) = elim o [
    | raised text ↦ (note job_duration_observe r, raised text)
    | returned ↦
        finished t worker_id a job
          (excepted t worker_id a job (generated_from t worker_id a job g 0 r))
  ]

  Did-begun :
      (old : List TokenEventEnvelope) (g : Generator) (x : Run × Outcome)
      → Took old TokenEventKind.started x
      → Did old (begun_with g x)
  unfolding Took
  Did-begun old g (r, returned) (e, is, more) =
      Did-finished old e r.published _ is more (
        excepted-Ran r.published (generated_from t worker_id a job g 0 r)
          (generated_from-Ran g 0 r))
  Did-begun old g (r, raised text) same = unfold Did in ([], same ∙ sym (append-nil old))

  -- Whatever the producer refuses: where `process_job` returns, it has published a start, tokens and
  -- one terminal event, and nothing else.
  pub process_job-Did :
      (backend : InferenceBackend) (run : Run)
      → Did run.published (process_job t worker_id a job backend run)
  unfolding process_job
  process_job-Did backend run =
      Did-begun run.published (backend job.prompt job.max_tokens job.sampling) _ (
        publish-Took (note active_jobs_inc (note jobs_total_inc run)) 0 TokenEventKind.started
          no_words none)
