-- ===== src/Startup/Published.antt =====
-- What a system publishes goes to topics that the start waited for.
use cria.Prelude.{
  String, ◌≡◌, refl, sym, ap, ◌∙◌, Bool, true, some, List, [], ◌∷◌, ◌++◌, map, arith, ◌||◌, str_eq,
  eq_iff, eq_refl, Bool-cases, inl, inr,
}
use cria.Table.{DashMap, find}
use cria.Config.{Config}
use cria.Config.Parse.{ok}
use cria.Streaming.{Mpsc}
use cria.Kafka.Messages.{Kafka}
use cria.Kafka.Producer.{KafkaProducer}
use cria.Kafka.Topics.{any_is, all, used_topics, available}
use cria.System.{Action, started, run}
use cria.System.Published.{IsWithin, IsFor, run-IsWithin}
use cria.Startup.Clients.{Outside, new_producer}
use cria.Startup.Routed.{new_producer-is}

any_is-append : (a : String) (l m : List String) → any_is a (l ++ m) ≡ (any_is a l || any_is a m)
any_is-append a [] m = refl
any_is-append a (b ∷ l) m = ground (arith, any_is-append a l m)

any_is-find :
    (model topic : String) (entries : List (String × String))
    → find model entries ≡ some topic
    → any_is topic (map (λ e. e.1) entries) ≡ true
unfolding find
any_is-find model topic [] h = absurd (ground (arith, h))
any_is-find model topic ((m, t) ∷ entries) h =
    ground (arith, any_is-find model topic entries, eq_refl topic)

any_is-all :
    (p : String → Bool) (l : List String) (a : String)
    → all p l ≡ true
    → any_is a l ≡ true
    → p a ≡ true
any_is-all p [] a h k = absurd (ground (arith, k))
any_is-all p (b ∷ l) a h k = elim (Bool-cases (str_eq b a)) [
  | inl same ↦ ap p (sym ((eq_iff b a).0 same)) ∙ ground (arith, h)
  | inr other ↦ any_is-all p l a (ground (arith, h)) (ground (arith, k, other))
]

producer-IsFor :
    (o : Outside) (c : Config) (p : KafkaProducer) (names : List String)
    → new_producer o c ≡ ok p
    → available (used_topics c) (some names) ≡ true
    → IsFor p names
unfolding available
producer-IsFor o c p names made there =
    let same = new_producer-is o c p made in
    let within = any_is-all (λ t. any_is t names) (used_topics c) in
    record {
      requests = λ model topic found. within topic there (
          ground (
            arith,
            any_is-append topic (map (λ e. e.1) c.model_routes.entries)
                (c.token_topic ∷ c.control_topic ∷ []),
            any_is-find model topic c.model_routes.entries (rw same at found),
          ));
      control = rw same (
          within c.control_topic there (
            ground (
              arith,
              any_is-append c.control_topic (map (λ e. e.1) c.model_routes.entries)
                  (c.token_topic ∷ c.control_topic ∷ []),
              eq_refl c.control_topic,
            )));
    }

module _ ⦃d : DashMap⦄ ⦃ch : Mpsc⦄ ⦃k : Kafka⦄ where
  -- Where the broker named every topic that the configuration uses, as it must have before main
  -- starts a task: with the producer made of that configuration, and however the steps of the
  -- tasks are interleaved, every job and every cancellation that the gateway publishes goes to a
  -- topic that the broker named.
  pub run-published :
      (o : Outside) (c : Config) (p : KafkaProducer) (net : ch.Net) (actions : List Action)
      (names : List String)
      → new_producer o c ≡ ok p
      → available (used_topics c) (some names) ≡ true
      → IsWithin names (run c p (started net) actions).gateway.sent
  run-published o c p net actions names made there =
      run-IsWithin names p (producer-IsFor o c p names made there) c (started net) actions
        (unfold started in tt)
