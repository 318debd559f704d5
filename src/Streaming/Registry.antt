-- ===== src/Streaming/Registry.antt =====
-- The registry: which channel's sender stands under which request.
use cria.Prelude.{ℕ, String, Bool, true, false, Option, none, some}
use cria.Table.{DashMap}
use cria.Streaming.Channel.{Mpsc, StreamItem}

pub data SendResult : Type 0 where
  sent : SendResult
  failed : String → SendResult

module _ ⦃d : DashMap⦄ ⦃ch : Mpsc⦄ where
  -- The map of senders, beside the state of the channels that they write to.
  pub record StreamRegistry : Type 0 where
    pub inner : d.Map ℕ
    pub net : ch.Net

  unfoldable pub new : ch.Net → StreamRegistry
  new net = record { inner = d.empty; net = net }

  unfoldable pub sender_of : StreamRegistry → String → Option ℕ
  sender_of s request_id = d.get s.inner request_id

  -- The receiver of the new channel, or `none` for `StreamAlreadyRegistered`.
  unfoldable pub register : StreamRegistry → String → StreamRegistry × Option ℕ
  register s request_id = elim (d.get s.inner request_id) [
    | some sender ↦ (s, none)
    | none ↦ (
      record s {
        inner = d.insert s.inner request_id (ch.opened s.net);
        net = ch.channel 256 s.net;
      },
      some (ch.opened s.net),
    )
  ]

  abbrev pub send_result : Bool → SendResult
  send_result true = sent
  send_result false = failed ch.closed_text

  unfoldable pub send : StreamRegistry → String → StreamItem → StreamRegistry × SendResult
  send s request_id item = elim (d.get s.inner request_id) [
    | none ↦ (s, failed "stream not registered")
    | some sender ↦
        let (net, accepted) = ch.send s.net sender item in
        (record s { net = net }, send_result accepted)
  ]

  unfoldable pub unregister : StreamRegistry → String → StreamRegistry
  unregister s request_id = record s { inner = d.remove s.inner request_id }
