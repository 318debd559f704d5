-- ===== src/Startup/Clients.antt =====
-- The clients of Kafka that the start makes: the settings that each is given, and what it keeps.
use Prim.Native.String.{◌++◌}
use cria.Prelude.{ℕ, String, Bool, Option, List, [], ◌∷◌}
use cria.Config.{Config}
use cria.Config.Parse.{Result, ok, err, ◌>>◌}
use cria.Kafka.Topics.{Waited, ready, timed_out, out_of_fuel, wait_for_topics}
use cria.Kafka.Producer.{KafkaProducer}
use cria.Tls.{ServerTlsConfig}

-- What the start-up asks of other code.
pub record Outside : Type 0 where
  pub env : String → Option String
  -- The texts that `SocketAddr` reads, and what `Uuid::new_v4` prints.
  pub is_addr : String → Bool
  pub uuid : String
  -- The topics that the broker names, and the clock, in each round of the wait.
  pub fetch : ℕ → Option (List String)
  pub elapsed : ℕ → ℕ
  -- `ClientConfig::create`, and `subscribe` on the consumer of these settings.
  pub create : List (String × String) → Result Unit
  pub subscribe : List (String × String) → List String → Result Unit
  pub bind : String → Result Unit
  pub read : String → Result String
  -- `Server::tls_config`, and `serve_with_shutdown` on an address.
  pub tls_config : ServerTlsConfig → Result Unit
  pub serve : String → Result Unit

abbrev pub context : String → Result Unit → Result Unit
context message (err cause) = err message
context message (ok done) = ok done

abbrev pub topic_wait_settings : Config → List (String × String)
topic_wait_settings c =
    ("bootstrap.servers", c.kafka_brokers) ∷ ("group.id", c.gateway_group_id ++ "-topic-wait") ∷ []

abbrev pub producer_settings : Config → List (String × String)
producer_settings c =
    ("bootstrap.servers", c.kafka_brokers)
    ∷ ("message.timeout.ms", "5000")
    ∷ ("queue.buffering.max.ms", "5")
    ∷ []

abbrev pub consumer_settings : Config → List (String × String)
consumer_settings c =
    ("bootstrap.servers", c.kafka_brokers)
    ∷ ("group.id", c.gateway_group_id)
    ∷ ("enable.auto.commit", "true")
    ∷ ("auto.offset.reset", "latest")
    ∷ []

-- What the wait returns; on fuel, which is enough where a second goes by from round to round.
abbrev pub waited : Waited → Result Unit
waited ready = ok tt
waited timed_out = err "timed out waiting for Kafka topics"
waited out_of_fuel = err "still waiting"

-- `wait_for_topics` with the consumer that it makes first.
unfoldable pub await_topics : Outside → Config → Result Unit
await_topics o c = do
  context "failed to create Kafka metadata consumer" (o.create (topic_wait_settings c))
  waited (wait_for_topics c o.fetch o.elapsed)

-- `KafkaProducer::new`.
unfoldable pub new_producer : Outside → Config → Result KafkaProducer
new_producer o c = do
  context "failed to create Kafka producer" (o.create (producer_settings c))
  ok (record { request_topics = c.model_routes; control_topic = c.control_topic })

pub record TokenEventConsumer : Type 0 where
  pub settings : List (String × String)
  pub token_topic : String

-- `TokenEventConsumer::new`.
unfoldable pub new_consumer : Outside → Config → Result TokenEventConsumer
new_consumer o c = do
  context "failed to create Kafka token consumer" (o.create (consumer_settings c))
  context "failed to subscribe to token topic"
      (o.subscribe (consumer_settings c) (c.token_topic ∷ []))
  ok (record { settings = consumer_settings c; token_topic = c.token_topic })
