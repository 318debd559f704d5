-- ===== src/System/Runs.antt =====
-- What holds after any steps of the tasks, in any order.
use cria.Prelude.{ℕ, String, ◌≡◌, ◌⊎◌, refl, some, List, [], arith, inl, inr}
use cria.Table.{DashMap}
use cria.Config.{Config}
use cria.Pb
use cria.Pb.{TokenEvent}
use cria.State
use cria.Streaming
use cria.Streaming.{Mpsc, sender_of, Status}
use cria.Streaming.Wiring.{new-IsWired}
use cria.Streaming.Delivery.{accepted-new}
use cria.Kafka.Messages.{Kafka}
use cria.Kafka.Producer.{KafkaProducer}
use cria.Api.Control.{Reply, response, refusal, get_status}
use cria.System.{Action, started, run}
use cria.System.Isolation.{IsOwned}
use cria.System.Keeping.{AllFor}
use cria.System.Steps.{IsSafeSystem, run-IsSafe}

Reply-cases :
    {A : Type 0} (reply : Reply A)
    → ((a : A) × (reply ≡ response a)) ⊎ ((s : Status) × (reply ≡ refusal s))
Reply-cases (response a) = inl (a, refl)
Reply-cases (refusal s) = inr (s, refl)

module _ ⦃d : DashMap⦄ ⦃ch : Mpsc⦄ ⦃k : Kafka⦄ where
  new-IsOwned : (net : ch.Net) (c : ℕ) → ch.accepted net c ≡ [] → IsOwned (Streaming.new net) c ""
  unfolding Streaming.new sender_of
  new-IsOwned net c empty = record {
    items = rw (accepted-new, empty) tt;
    registered = λ j e. absurd (ground (arith, d.get-empty {V = ℕ} j));
  }

  pub started-IsSafe :
      (net : ch.Net) → ((c : ℕ) → ch.accepted net c ≡ []) → IsSafeSystem (started net)
  unfolding started
  started-IsSafe net empty = record {
    gateway = record {
      isolated = record { wired = new-IsWired net; owner = λ c. ("", new-IsOwned net c (empty c)) };
      cached = λ k. unfold State.new State.events in rw d.get-empty tt;
      present = λ id c e.
          unfold Streaming.new sender_of in absurd (ground (arith, d.get-empty {V = ℕ} id));
    };
    replays = tt;
  }

  -- However the steps of submissions, browser requests, cancellations, replays and the router are
  -- interleaved, from a start in which no channel holds anything: every channel holds events of
  -- one request only and is registered for no other, and the cache under an identifier holds that
  -- request's events only.
  pub run-IsOwned :
      (c : Config) (p : KafkaProducer) (net : ch.Net) (actions : List Action) (i : ℕ) (j : String)
      → ((i : ℕ) → ch.accepted net i ≡ [])
      → let g = (run c p (started net) actions).gateway in
        ((id : String) × IsOwned g.streams i id) × AllFor j (State.events g.state j)
  run-IsOwned c p net actions i j empty =
      let safe = (run-IsSafe c p (started net) actions (started-IsSafe net empty)).gateway in
      (safe.isolated.owner i, safe.cached j)

  -- However the steps of the tasks are interleaved, from a start in which no channel holds
  -- anything: a request whose stream is registered has a record, so get_status answers it with a
  -- status and never with NOT_FOUND.
  pub get_status-run :
      (c : Config) (p : KafkaProducer) (net : ch.Net) (actions : List Action) (id : String)
      (sender : ℕ)
      → ((i : ℕ) → ch.accepted net i ≡ [])
      → sender_of (run c p (started net) actions).gateway.streams id ≡ some sender
      → (r : Pb.StatusResponse) × (get_status (run c p (started net) actions).gateway id
          ≡ response r)
  unfolding get_status
  get_status-run c p net actions id sender empty registered =
      let safe = (run-IsSafe c p (started net) actions (started-IsSafe net empty)).gateway in
      let (r, known) = safe.present id sender registered in
      elim (Reply-cases (get_status (run c p (started net) actions).gateway id)) [
        | inl answered ↦ answered
        | inr (status, missing) ↦ absurd (ground (arith, known, missing))
      ]
