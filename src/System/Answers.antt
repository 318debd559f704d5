-- ===== src/System/Answers.antt =====
-- What `get_status` answers after any steps of the tasks.
use cria.Prelude.{String, ◌≡◌, sym, ◌∙◌, ap, some, List, arith, Option-cases, inl, inr}
use cria.Table.{DashMap}
use cria.Config.{Config}
use cria.Pb
use cria.State
use cria.State.{RequestRecord}
use cria.State.Operations.{perform_all}
use cria.State.Keyed.{perform_all-IsKeyed, new-IsKeyed}
use cria.Streaming.{Mpsc}
use cria.Kafka.Messages.{Kafka}
use cria.Kafka.Producer.{KafkaProducer}
use cria.Gateway.{Gateway}
use cria.Api.Control.{response, get_status}
use cria.System.{Action, started, run}
use cria.System.Table.{IsReached}
use cria.System.Refines.{run-IsReached}

module _ ⦃d : DashMap⦄ ⦃ch : Mpsc⦄ where
  get_status-record :
      (g : Gateway) (id : String) (r : Pb.StatusResponse)
      → get_status g id ≡ response r
      → (q : RequestRecord) × (State.get g.state id ≡ some q) × (r.request_id ≡ q.request_id)
  unfolding get_status
  get_status-record g id r h = elim (Option-cases (State.get g.state id)) [
    | inl unknown ↦ absurd (ground (arith, h, unknown))
    | inr (q, known) ↦ (q, known, ground (arith, h, known))
  ]

module _ ⦃d : DashMap⦄ ⦃ch : Mpsc⦄ ⦃k : Kafka⦄ where
  started-IsReached :
      (c : Config) (p : KafkaProducer) (net : ch.Net) (actions : List Action)
      → IsReached State.new (run c p (started net) actions).gateway.state
  unfolding started
  started-IsReached c p net actions = run-IsReached c p (started net) actions

  -- However the steps of the tasks are interleaved from the start, a get_status that is answered
  -- with a status is answered with that of the request that was asked for.
  pub request_id-get_status :
      (c : Config) (p : KafkaProducer) (net : ch.Net) (actions : List Action) (id : String)
      (r : Pb.StatusResponse)
      → get_status (run c p (started net) actions).gateway id ≡ response r
      → r.request_id ≡ id
  request_id-get_status c p net actions id r answered =
      let g = (run c p (started net) actions).gateway in
      let (q, known, same) = get_status-record g id r answered in
      let (os, reached) = started-IsReached c p net actions in
      let there : State.get (perform_all State.new os) id ≡ some q =
        ap (λ s. State.get s id) (sym reached) ∙ known in
      same ∙ perform_all-IsKeyed State.new os new-IsKeyed id q there
