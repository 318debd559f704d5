-- ===== src/Gateway.antt =====
-- What the gateway's tasks share: the gRPC service (control-plane/src/api/mod.rs), the browser's
-- front end (control-plane/src/bff.rs) and the router of token events all hold clones of it.
use cria.Prelude.{List}
use cria.Table.{DashMap}
use cria.State.{RequestState}
use cria.Streaming.{Mpsc, StreamRegistry}
use cria.Telemetry.{Metrics}
use cria.Kafka.Messages.{FutureRecord}

module _ ⦃d : DashMap⦄ ⦃ch : Mpsc⦄ where
  pub record Gateway : Type 0 where
    pub state : RequestState
    pub streams : StreamRegistry
    pub metrics : Metrics
    -- The records that the producer was given, in order.
    pub sent : List FutureRecord
