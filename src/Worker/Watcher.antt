-- ===== src/Worker/Watcher.antt =====
-- `CancellationWatcher` of workers/python/inference_worker/kafka_io.py: the thread that reads the
-- control topic, and what a job finds out from it.
use cria.Prelude.{ℕ, String, Bool, false, ◌||◌, Option, none, some, List, [], ◌∷◌, str_eq}
use cria.Worker.Job.{Ambient}

-- What a poll answers.
pub data Polled : Type 0 where
  nothing : Polled
  consumer_error : String → Polled
  message : String → Polled

-- `request_id in self._cancelled`.
abbrev pub is_cancelled : List String → String → Bool
is_cancelled [] id = false
is_cancelled (x ∷ xs) id = str_eq x id || is_cancelled xs id

-- `json.loads` and the `request_id` of what it gives; `none` is any exception of these, which is only
-- logged.
module _ (request_id_of : String → Option String) where
  -- A round of `_run`.
  unfoldable pub watch_one : List String → Polled → List String
  watch_one cancelled nothing = cancelled
  watch_one cancelled (consumer_error text) = cancelled
  watch_one cancelled (message text) = elim (request_id_of text) [
    | none ↦ cancelled
    | some id ↦ id ∷ cancelled
  ]

  -- `_run`, over what its polls answer.
  unfoldable pub watch : List String → List Polled → List String
  unfolding watch_one
  watch cancelled [] = cancelled
  watch cancelled (p ∷ polls) = watch (watch_one cancelled p) polls

  -- What a job of the request meets, where `arrived n` is what the watcher has polled before the
  -- worker's n-th check.
  abbrev pub watching : (ℕ → List Polled) → (ℕ → ℕ) → String → Ambient
  watching arrived now_ms id = record {
    is_cancelled = λ n. is_cancelled (watch [] (arrived n)) id;
    now_ms = now_ms;
  }
