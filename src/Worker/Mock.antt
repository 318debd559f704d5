-- ===== src/Worker/Mock.antt =====
-- The tokens of the mock backend, and what a cancellation makes of them.
use Prim.Native.Char.{Char}
use Prim.Native.Nat.{min}
use Prim.Native.String.append
use Prim.Native.String
use Prim.Native.String.{[], ◌∷◌}
use native.Mathlib.Nat.{mod-lt}
use cria.Prelude.{
  ℕ, zero, suc, ◌+◌, ◌-◌, ◌*◌, ◌/◌, ◌%◌, ◌<◌, String, ◌≡◌, refl, ap, ◌++◌, true, false, Bool, some,
  List, length, leb, or_else, if◌then◌else◌, arith, Bool-cases, inl, inr, ◌∙◌,
}
use cria.Text.{onto_first, is_whitespace}
use cria.Worker.Events.{InferenceJob}
use cria.Worker.Backend.{
  Generator, asks, returns, yields, yields_word, GeneratedToken, get_elem?, mock_token, mock_words,
  generate_from, mock_backend, split_words, starts_word, take,
}
use cria.Worker.Job.{TokenProducer, Ambient, Run, process_job}
use cria.Worker.Transcript.{whole, stopped, heard, IsReliable, transcript, process_job-transcript}

-- So many words from an index on, round and round.
unfoldable pub mock_tokens : List String → ℕ → ℕ → List GeneratedToken
mock_tokens words idx zero = List.[]
mock_tokens words idx (suc n) =
    List.◌∷◌ (mock_token (or_else (get_elem? words (idx % length words)) ""))
      (mock_tokens words (suc idx) n)

get_elem?-inside :
    (xs : List String) (i : ℕ) → i < length xs → get_elem? xs i ≡ some (or_else (get_elem? xs i) "")
get_elem?-inside List.[] i h = absurd (omega (arith, h))
get_elem?-inside (List.◌∷◌ x xs) zero h = refl
get_elem?-inside (List.◌∷◌ x xs) (suc i) h = get_elem?-inside xs i (omega (arith, h))

onto_first-nonempty : (c : Char) (ps : List String) → 0 < length (onto_first c ps)
onto_first-nonempty c List.[] = omega arith
onto_first-nonempty c (List.◌∷◌ p ps) = omega arith

split_words-nonempty :
    (s t : String) → starts_word s ≡ true → 0 < length (split_words (String.◌++◌ s t))
unfolding split_words
split_words-nonempty [] t h = absurd (ground (arith, h))
split_words-nonempty (c ∷ s) t h =
    rw append.cons (ground (arith, onto_first-nonempty c (split_words (String.◌++◌ s t))))

-- A round of the mock backend's loop and of the worker's.
heard-round :
    (c : ℕ → Bool) (m : ℕ) (t : GeneratedToken) (rest : Generator)
    → heard c m (asks (λ stop. if stop then returns else yields t rest)) ≡ (
        if c m
        then (List.[], if c (suc m) then stopped else whole)
        else if c (suc m)
        then (List.[], stopped)
        else (List.◌∷◌ t (heard c (suc (suc m)) rest).0, (heard c (suc (suc m)) rest).1))
unfolding heard
heard-round c m t rest =
    elim (c m)
      as (λ b. heard c (suc m) (if b then returns else yields t rest) ≡ (
        if b
        then (List.[], if c (suc m) then stopped else whole)
        else if c (suc m)
        then (List.[], stopped)
        else (List.◌∷◌ t (heard c (suc (suc m)) rest).0, (heard c (suc (suc m)) rest).1))) [
          | true ↦ ground arith
          | false ↦ ground arith
        ]

-- With the cancellation from the check k on, from check m on with so many rounds left.
heard-generate_from :
    (words : List String) (idx left k m : ℕ)
    → 0 < length words
    → heard (λ n. leb k n) m (generate_from words idx left) ≡ (
      mock_tokens words idx (min left ((k - m) / 2)),
      if leb k (m + 2 * left) then stopped else whole,
    )
unfolding heard generate_from mock_tokens
heard-generate_from words idx zero k m h = ground arith
heard-generate_from words idx (suc left) k m h =
    let c : ℕ → Bool = λ n. leb k n in
    let rest = generate_from words (suc idx) left in
    let word = or_else (get_elem? words (idx % length words)) "" in
    ap (λ o. heard c m (asks (λ stop. if stop then returns else yields_word o rest)))
      (get_elem?-inside words (idx % length words) (mod-lt idx h))
    ∙ heard-round c m (mock_token word) rest
    ∙ elim (Bool-cases (leb k m)) [
      | inl over ↦
          let still : leb k (suc m) ≡ true = ground (arith, over) in
          let also : leb k (m + 2 * suc left) ≡ true = ground (arith, over) in
          let nothing : min (suc left) ((k - m) / 2) ≡ 0 = ground (arith, over) in
          rw (over, still, also, nothing) refl
      | inr live ↦ elim (Bool-cases (leb k (suc m))) [
        | inl over ↦
            let also : leb k (m + 2 * suc left) ≡ true = ground (arith, over) in
            let nothing : min (suc left) ((k - m) / 2) ≡ 0 = ground (arith, over, live) in
            rw (live, over, also, nothing) refl
        | inr goes_on ↦
            let one_more : min (suc left) ((k - m) / 2) ≡ suc (min left ((k - suc (suc m)) / 2)) =
              ground (arith, goes_on) in
            let same : leb k (m + 2 * suc left) ≡ leb k (suc (suc m) + 2 * left) = ground arith in
            rw
              (
                live,
                goes_on,
                one_more,
                same,
                heard-generate_from words (suc idx) left k (suc (suc m)) h,
              )
              refl
      ]
    ]

mock_words-nonempty : (prompt : String) → 0 < length (mock_words prompt)
unfolding is_whitespace
mock_words-nonempty prompt =
    split_words-nonempty "This is a mock distributed inference response for: " (take 120 prompt)
      refl

-- The watcher knows of the cancellation from check `k` on.
abbrev pub cancelled_from : ℕ → (ℕ → ℕ) → Ambient
cancelled_from k now_ms = record { is_cancelled = λ n. leb k n; now_ms = now_ms }

-- A job on the mock backend, where the producer takes every event and the cancellation is known
-- from check k on, the checks being counted from where the job begins: it publishes its words in
-- turn, as many as pairs of checks came before k, and max_tokens at most; and it ends cancelled
-- where k is no more than twice max_tokens, and completed otherwise.
pub process_job-mock_backend :
    (t : TokenProducer) (worker_id : String) (now_ms : ℕ → ℕ) (job : InferenceJob) (run : Run)
    (k : ℕ)
    → IsReliable t
    → (process_job t worker_id
        (cancelled_from (run.checks + k) now_ms)
        job
        mock_backend
        run).0.published
      ≡ run.published
        ++ transcript worker_id now_ms job.request_id run.readings
            (mock_tokens (mock_words job.prompt) 0 (min job.max_tokens (k / 2)))
            (if leb k (2 * job.max_tokens) then stopped else whole)
unfolding mock_backend
process_job-mock_backend t worker_id now_ms job run k reliable =
    let told =
      process_job-transcript t worker_id (cancelled_from (run.checks + k) now_ms) job reliable
        mock_backend run in
    let heard_so =
      heard-generate_from (mock_words job.prompt) 0 job.max_tokens (run.checks + k) run.checks
        (mock_words-nonempty job.prompt) in
    let gone : (run.checks + k - run.checks) ≡ k = omega arith in
    let same : leb (run.checks + k) (run.checks + 2 * job.max_tokens) ≡ leb k (2 * job.max_tokens) =
      ground arith in
    told.0 ∙ rw (heard_so, gone, same) refl
