-- ===== src/Worker/Loop.antt =====
-- `main` of workers/python/inference_worker/main.py with `poll_job` and `commit` of kafka_io.py. The
-- loop goes over what the polls answer until the worker is told to stop, which is where the list of
-- them ends. Each comes with what the job that it may hold meets (`Ambient`).
use cria.Prelude.{ℕ, String, Bool, true, Option, none, some, List, [], ◌∷◌, ◌++◌}
use cria.Worker.Events.{Payload, SamplingOptions, InferenceJob, from_payload}
use cria.Worker.Backend.{InferenceBackend}
use cria.Worker.Job.{TokenProducer, Ambient, Run, Outcome, returned, raised, process_job}

pub record Message : Type 0 where
  pub offset : ℕ
  pub value : String

pub data Polled : Type 0 where
  nothing : Polled
  consumer_error : String → Polled
  message : Message → Polled

-- What `json.loads` makes of a text.
pub data Loaded : Type 0 where
  loaded : Payload → Loaded
  undecodable : String → Loaded

-- What the worker is given: confluent_kafka's producer and what its `commit` answers, the parser of
-- JSON, the backend, and of its configuration the identifier and the defaults.
pub record Setting : Type 0 where
  pub producer : TokenProducer
  pub refuses_commit : Message → Option String
  pub loads : String → Loaded
  pub backend : InferenceBackend
  pub worker_id : String
  pub defaults : SamplingOptions

pub record Worker : Type 0 where
  pub run : Run
  pub committed : List Message
  pub is_closed : Bool

-- The job of a message, or the exception.
pub data Read : Type 0 where
  read : InferenceJob → Read
  unreadable : String → Read

unfoldable pub read_job : Setting → Message → Read
read_job c m = elim (c.loads m.value) [
  | undecodable text ↦ unreadable text
  | loaded payload ↦ elim (from_payload payload c.defaults) [
    | none ↦ unreadable "KeyError"
    | some job ↦ read job
  ]
]

unfoldable pub commit : Setting → Message → Worker → Worker × Outcome
commit c m w = elim (c.refuses_commit m) [
  | some text ↦ (w, raised text)
  | none ↦ (record w { committed = w.committed ++ m ∷ [] }, returned)
]

-- `process_job`, and `commit` behind it.
unfoldable pub process_message :
    Setting → Ambient → Message → InferenceJob → Worker → Worker × Outcome
unfolding commit
process_message c a m job w =
    let (run', o) = process_job c.producer c.worker_id a job c.backend w.run in
    elim o [
      | raised text ↦ (record w { run = run' }, raised text)
      | returned ↦ commit c m (record w { run = run' })
    ]

-- A round of the loop.
unfoldable pub serve_one : Setting → Worker → Polled → Ambient → Worker × Outcome
unfolding read_job process_message
serve_one c w nothing a = (w, returned)
serve_one c w (consumer_error text) a = (w, returned)
serve_one c w (message m) a = elim (read_job c m) [
  | unreadable text ↦ (w, raised text)
  | read job ↦ process_message c a m job w
]

unfoldable pub serve : Setting → Worker → List (Polled × Ambient) → Worker × Outcome
unfolding serve_one
serve c w [] = (w, returned)
serve c w ((p, a) ∷ polls) =
    let (w', o) = serve_one c w p a in
    elim o [ raised text ↦ (w', raised text) | returned ↦ serve c w' polls ]

-- The loop and the `finally` around it.
unfoldable pub main : Setting → Worker → List (Polled × Ambient) → Worker × Outcome
unfolding serve
main c w polls = let (w', o) = serve c w polls in (record w' { is_closed = true }, o)
