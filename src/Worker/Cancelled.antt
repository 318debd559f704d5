-- ===== src/Worker/Cancelled.antt =====
-- What a cancellation that the watcher reads does to a job.
use cria.Prelude.{
  ℕ, zero, suc, ◌+◌, ◌-◌, ◌≤◌, String, ◌≡◌, refl, ap, ◌∙◌, Bool, true, false, ◌||◌, Option, none,
  some, List, [], ◌∷◌, ◌++◌, str_eq, Bool-cases, inl, inr, ◌⊎◌, arith,
}
use cria.Worker.Events.{InferenceJob}
use cria.Worker.Backend.{Generator, returns, raises, asks, yields, InferenceBackend}
use cria.Worker.Job.{TokenProducer, Run, process_job}
use cria.Worker.Watcher.{
  Polled, nothing, consumer_error, message, is_cancelled, watch_one, watch, watching,
}
use cria.Worker.Transcript.{
  Verdict, stopped, broke, heard, IsReliable, transcript, process_job-transcript,
}

module _ (request_id_of : String → Option String) where
  abbrev names_it : Option String → String → Bool
  names_it none id = false
  names_it (some x) id = str_eq x id

  -- One of the messages names the request.
  abbrev pub names : List Polled → String → Bool
  names [] id = false
  names (nothing ∷ polls) id = names polls id
  names (consumer_error text ∷ polls) id = names polls id
  names (message text ∷ polls) id = names_it (request_id_of text) id || names polls id

  -- The watcher knows of the requests that its messages name, and of no other.
  is_cancelled-watch :
      (cancelled : List String) (polls : List Polled) (id : String)
      → is_cancelled (watch request_id_of cancelled polls) id
        ≡ (is_cancelled cancelled id || names polls id)
  unfolding watch watch_one
  is_cancelled-watch cancelled [] id = ground arith
  is_cancelled-watch cancelled (nothing ∷ polls) id = is_cancelled-watch cancelled polls id
  is_cancelled-watch cancelled (consumer_error text ∷ polls) id =
      is_cancelled-watch cancelled polls id
  is_cancelled-watch cancelled (message text ∷ polls) id =
      ground (arith, is_cancelled-watch (watch_one request_id_of cancelled (message text)) polls id)

  names-append :
      (polls more : List Polled) (id : String)
      → names (polls ++ more) id ≡ (names polls id || names more id)
  names-append [] more id = refl
  names-append (nothing ∷ polls) more id = names-append polls more id
  names-append (consumer_error text ∷ polls) more id = names-append polls more id
  names-append (message text ∷ polls) more id = ground (arith, names-append polls more id)

-- The watcher forgets nothing between two checks.
abbrev pub Grows : (ℕ → List Polled) → Type 0
Grows arrived = (n : ℕ) → (more : List Polled) × (arrived (suc n) ≡ arrived n ++ more)

-- A job that is stopped found the cancellation at a check.
stopped-heard :
    (c : ℕ → Bool) (n : ℕ) (g : Generator) → (heard c n g).1 ≡ stopped → (k : ℕ) × (c k ≡ true)
unfolding heard
stopped-heard c n returns h = elim (Bool-cases (c n)) [
  | inl found ↦ (n, found)
  | inr not_yet ↦ absurd (ground (arith, h, not_yet))
]
stopped-heard c n (raises text) h = absurd (ground (arith, h))
stopped-heard c n (asks go_on) h = stopped-heard c (suc n) (go_on (c n)) h
stopped-heard c n (yields t rest) h = elim (Bool-cases (c n)) [
  | inl found ↦ (n, found)
  | inr not_yet ↦ stopped-heard c (suc n) rest (ground (arith, h, not_yet))
]

-- Where every check from n on finds the cancellation, no token goes out and the job is not whole.
known-heard :
    (c : ℕ → Bool) (n : ℕ) (g : Generator)
    → ((k : ℕ) → n ≤ k → c k ≡ true)
    → ((heard c n g).0 ≡ [])
      × (((heard c n g).1 ≡ stopped) ⊎ ((text : String) × ((heard c n g).1 ≡ broke text)))
unfolding heard
known-heard c n returns h = (refl, inl (ground (arith, h n (omega arith))))
known-heard c n (raises text) h = (refl, inr (text, refl))
known-heard c n (asks go_on) h =
    known-heard c (suc n) (go_on (c n)) (λ k later. h k (omega (arith, later)))
known-heard c n (yields t rest) h =
    let found : c n ≡ true = h n (omega arith) in rw (found, heard) (refl, inl refl)

module _ (request_id_of : String → Option String) (arrived : ℕ → List Polled)
    (grows : Grows arrived) where
  names-later :
      (id : String) (n d k : ℕ)
      → k ≡ d + n
      → names request_id_of (arrived n) id ≡ true
      → names request_id_of (arrived k) id ≡ true
  names-later id n zero k at h =
      ap (λ m. names request_id_of (arrived m) id) (omega (arith, at)) ∙ h
  names-later id n (suc d) k at h =
      let (more, longer) = grows (d + n) in
      let next : k ≡ suc (d + n) = omega (arith, at) in
      ap (λ m. names request_id_of (arrived m) id) next
      ∙ ap (λ polls. names request_id_of polls id) longer
      ∙ names-append request_id_of (arrived (d + n)) more id
      ∙ ground (arith, names-later id n d (d + n) refl h)

  known-always :
      (id : String) (n k : ℕ)
      → names request_id_of (arrived n) id ≡ true
      → n ≤ k
      → is_cancelled (watch request_id_of [] (arrived k)) id ≡ true
  known-always id n k known later =
      is_cancelled-watch request_id_of [] (arrived k) id
      ∙ names-later id n (k - n) k (omega (arith, later)) known

  pub process_job-cancelled :
      (t : TokenProducer) (worker_id : String) (now_ms : ℕ → ℕ) (job : InferenceJob)
      (backend : InferenceBackend) (run : Run)
      → IsReliable t
      → names request_id_of (arrived run.checks) job.request_id ≡ true
      → (v : Verdict) × ((process_job t worker_id
            (watching request_id_of arrived now_ms job.request_id)
            job
            backend
            run).0.published
          ≡ run.published ++ transcript worker_id now_ms job.request_id run.readings [] v)
        × ((v ≡ stopped) ⊎ ((text : String) × (v ≡ broke text)))
  process_job-cancelled t worker_id now_ms job backend run reliable known =
      let a = watching request_id_of arrived now_ms job.request_id in
      let g = backend job.prompt job.max_tokens job.sampling in
      let (told, _) = process_job-transcript t worker_id a job reliable backend run in
      let (silent, ends) =
        known-heard a.is_cancelled run.checks g
          (λ k later. known-always job.request_id run.checks k known later) in
      ((heard a.is_cancelled run.checks g).1, told ∙ rw silent refl, ends)

  -- A job that ends cancelled is one that a control message named.
  stopped-named :
      (id : String) (now_ms : ℕ → ℕ) (n : ℕ) (g : Generator)
      → (heard (watching request_id_of arrived now_ms id).is_cancelled n g).1 ≡ stopped
      → (k : ℕ) × (names request_id_of (arrived k) id ≡ true)
  stopped-named id now_ms n g h =
      let (k, found) = stopped-heard _ n g h in
      (k, ground (arith, found, is_cancelled-watch request_id_of [] (arrived k) id))
