-- ===== src/Examples/Worker.antt =====
-- The worker, on jobs of one to three tokens.
use Prim.Native.Nat.{min}
use cria.Prelude.{
  ℕ, ◌+◌, String, ◌≡◌, refl, false, none, some, List, [], ◌∷◌, ◌++◌, map, if◌then◌else◌, ◌⊎◌,
  str_eq, ◌≢◌,
}
use cria.Table.{assoc_map}
use cria.State
use cria.State.{RequestRecord, RequestStatusInternal, queued_record}
use cria.Streaming.{sender_of}
use cria.Streaming
use cria.Streaming.Wiring.{new-IsWired, register-IsWired}
use cria.Streaming.Delivery.{accepted_items}
use cria.Kafka.Messages.{Kafka, TokenEventEnvelope, TokenEventKind}
use cria.Kafka.Router.{Message, payload, no_payload, route_events}
use cria.Kafka.Router.Batch.{own, valid_events}
use cria.Kafka.Router.Delivery.{item}
use cria.Worker.Events.{from_payload, sampling_from, InferenceJob, SamplingOptions, token_event}
use cria.Worker.Backend.{InferenceBackend, yields, returns, mock_backend, mock_words}
use cria.Worker.Job.{TokenProducer, Ambient, Run, returned, process_job}
use cria.Worker.Loop.{
  Setting, Worker, loaded, undecodable, message, nothing, Polled, serve, read_job, unreadable,
}
use cria.Worker.Transcript.{
  IsReliable, transcript, heard, stopped, broke, Verdict, process_job-transcript,
}
use cria.Worker.Mock.{mock_tokens, cancelled_from, process_job-mock_backend}
use cria.Worker.Watcher
use cria.Worker.Watcher.{watching}
use cria.Worker.Cancelled.{Grows, process_job-cancelled}
use cria.Worker.Progress.{messages, AllReadable, serve-serves}
use cria.Worker.Committed.{AllServed, serve-AllServed, serve-unreadable}
use cria.Worker.Conversation.{stamped, job-conversed}
use cria.Examples.Setup.{channels, broker, busy, no_channels}
use cria.Examples.Routing.{busy_known, busy_registered, always-IsHeld}

abbrev taking_producer : TokenProducer
taking_producer = record { refuses = λ es e. none }

taking-IsReliable : IsReliable taking_producer
taking-IsReliable es e = refl

abbrev defaults : SamplingOptions
defaults = record { temperature = 7; top_p = 9; top_k = 50; seed = 0 }

abbrev a_job : InferenceJob
a_job = record {
  request_id = "r1";
  model_id = "mock";
  prompt = "hello";
  max_tokens = 3;
  sampling = defaults;
  deadline_ms = 0;
}

abbrev fresh : Run
fresh = record { published = []; metrics = []; flushes = 0; checks = 0; readings = 0 }

-- Never cancelled; the n-th reading of the clock is n.
abbrev untroubled : Ambient
untroubled = record { is_cancelled = λ n. false; now_ms = λ n. n }

-- A backend that yields two tokens.
abbrev two_tokens : InferenceBackend
two_tokens prompt n sampling =
    yields (record { text = "a "; probability = 1 })
      (yields (record { text = "b "; probability = 2 }) returns)

process_job-transcript_example :
    let (run', o) = process_job taking_producer "w1" untroubled a_job two_tokens fresh in
    (run'.published
      ≡ []
        ++ transcript "w1"
            (λ n. n)
            "r1"
            0
            (heard (λ n. false) 0 (two_tokens "hello" 3 defaults)).0
            (heard (λ n. false) 0 (two_tokens "hello" 3 defaults)).1)
    × (o ≡ returned)
process_job-transcript_example =
    process_job-transcript taking_producer "w1" untroubled a_job taking-IsReliable two_tokens fresh

-- The cancellation is found at the third check: one token came before.
process_job-mock_backend_example :
    (process_job taking_producer "w1"
      (cancelled_from (0 + 2) (λ n. n))
      a_job
      mock_backend
      fresh).0.published
    ≡ [] ++ transcript "w1" (λ n. n) "r1" 0 (mock_tokens (mock_words "hello") 0 (min 3 1)) stopped
process_job-mock_backend_example =
    process_job-mock_backend taking_producer "w1" (λ n. n) a_job fresh 2 taking-IsReliable

-- What the worker publishes of it.
abbrev four_events : List TokenEventEnvelope
four_events =
    token_event "r1" 0 TokenEventKind.started "w1" "" 0 none 0
    ∷ token_event "r1" 1 TokenEventKind.token "w1" "a " 1 none 1
    ∷ token_event "r1" 2 TokenEventKind.token "w1" "b " 2 none 2
    ∷ token_event "r1" 2 TokenEventKind.completed "w1" "" 0 none 3
    ∷ []

four_published :
    (process_job taking_producer "w1" untroubled a_job two_tokens fresh).0.published ≡ four_events
unfolding process_job
four_published = refl

-- Texts that stand for the four events.
abbrev reading_broker : Kafka
reading_broker = record broker {
  parse_envelope = λ text.
      if str_eq text "0"
      then some (token_event "r1" 0 TokenEventKind.started "w1" "" 0 none 0)
      else if str_eq text "1"
      then some (token_event "r1" 1 TokenEventKind.token "w1" "a " 1 none 1)
      else if str_eq text "2"
      then some (token_event "r1" 2 TokenEventKind.token "w1" "b " 2 none 2)
      else if str_eq text "3"
      then some (token_event "r1" 2 TokenEventKind.completed "w1" "" 0 none 3)
      else none;
}

abbrev arriving : List (Message × ℕ)
arriving =
    (payload "0", 10)
    ∷ (no_payload, 5)
    ∷ (payload "1", 11)
    ∷ (payload "lost", 6)
    ∷ (payload "2", 12)
    ∷ (payload "3", 13)
    ∷ []

four_arrived :
    own "r1" (valid_events ⦃k = reading_broker⦄ arriving) ≡ stamped (λ n. n + 10) 0 four_events
unfolding own valid_events stamped token_event
four_arrived = refl

job-conversed_example :
    ((r' : RequestRecord) × (State.get (route_events ⦃k = reading_broker⦄ busy arriving).state "r1"
        ≡ some r')
      × (r'.status ≡ RequestStatusInternal.completed)
      × (r'.emitted_tokens ≡ 2))
    × (accepted_items (route_events ⦃k = reading_broker⦄ busy arriving).streams 0
        ≡ accepted_items busy.streams 0 ++ map item (stamped (λ n. n + 10) 0 four_events))
    × (sender_of (route_events ⦃k = reading_broker⦄ busy arriving).streams "r1" ≡ none)
unfolding heard queued_record
job-conversed_example =
    job-conversed ⦃k = reading_broker⦄ taking_producer "w1" untroubled a_job two_tokens fresh
      four_events busy arriving (λ n. n + 10) (queued_record "r1" 1) 0 taking-IsReliable
      four_published four_arrived busy_known
      (register-IsWired (Streaming.new no_channels) "r1" (new-IsWired no_channels)) busy_registered
      (always-IsHeld 0)

abbrev setting : Setting
setting = record {
  producer = taking_producer;
  refuses_commit = λ m. none;
  loads = λ text.
      if str_eq text "job"
      then loaded (record {
        request_id = some "r1";
        model_id = none;
        prompt = some "hello";
        max_tokens = none;
        sampling = none;
        deadline_ms = none;
      })
      else undecodable "Expecting value";
  backend = two_tokens;
  worker_id = "w1";
  defaults = defaults;
}

abbrev new_worker : Worker
new_worker = record { run = fresh; committed = []; is_closed = false }

abbrev a_message : String → Polled × Ambient
a_message text = (message (record { offset = 4; value = text }), untroubled)

-- A producer that has no room for tokens: the job ends with a failure that it takes.
abbrev crowded : Setting
crowded = record setting {
  producer = record {
    refuses = λ es e. elim e.event_type [ TokenEventKind.token ↦ some "queue full" | _ ↦ none ];
  };
}

serve-AllServed_example :
    AllServed crowded (serve crowded new_worker (a_message "job" ∷ (nothing, untroubled) ∷ [])).0
serve-AllServed_example =
    serve-AllServed crowded new_worker (a_message "job" ∷ (nothing, untroubled) ∷ []) tt

all_readable : AllReadable setting (messages (a_message "job" ∷ a_message "job" ∷ []))
unfolding read_job from_payload sampling_from
all_readable =
    (((record a_job { max_tokens = 128 }), refl), (((record a_job { max_tokens = 128 }), refl), tt))

serve-serves_example :
    let (w', o) = serve setting new_worker (a_message "job" ∷ a_message "job" ∷ []) in
    (o ≡ returned)
    × (w'.committed ≡ [] ++ messages (a_message "job" ∷ a_message "job" ∷ []))
    × AllServed setting w'
serve-serves_example =
    serve-serves setting taking-IsReliable (λ m. refl) new_worker
      (a_message "job" ∷ a_message "job" ∷ []) all_readable tt

bad_read : read_job setting (record { offset = 5; value = "{" }) ≡ unreadable "Expecting value"
unfolding read_job
bad_read = refl

serve-unreadable_example :
    ((serve setting new_worker (
        (a_message "job" ∷ [])
        ++ (message (record { offset = 5; value = "{" }), untroubled) ∷ a_message "job" ∷ [])).0
      ≡ (serve setting new_worker (a_message "job" ∷ [])).0)
    × ((serve setting new_worker (
          (a_message "job" ∷ [])
          ++ (message (record { offset = 5; value = "{" }), untroubled) ∷ a_message "job" ∷ [])).1
        ≢ returned)
serve-unreadable_example =
    serve-unreadable setting new_worker (a_message "job" ∷ []) (a_message "job" ∷ [])
      (record { offset = 5; value = "{" }) untroubled "Expecting value" bad_read

abbrev asked_to_stop : ℕ → List Watcher.Polled
asked_to_stop n = Watcher.message "r1" ∷ []

asked_to_stop-Grows : Grows asked_to_stop
asked_to_stop-Grows n = ([], refl)

process_job-cancelled_example :
    (v : Verdict) × ((process_job taking_producer "w1"
        (watching (λ text. some text) asked_to_stop (λ n. n) "r1")
        a_job
        two_tokens
        fresh).0.published
      ≡ [] ++ transcript "w1" (λ n. n) "r1" 0 [] v)
    × ((v ≡ stopped) ⊎ ((text : String) × (v ≡ broke text)))
process_job-cancelled_example =
    process_job-cancelled (λ text. some text) asked_to_stop asked_to_stop-Grows taking_producer "w1"
      (λ n. n) a_job two_tokens fresh taking-IsReliable refl
