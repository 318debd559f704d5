-- ===== src/Streaming/Channel.antt =====
-- `tokio::sync::mpsc` channels of stream items, as an interface. A channel is named by the order in
-- which it was made, and its two ends share that name. `accepted` is the history of a channel: what
-- its senders handed over, in order, for its receiver to read.
use cria.Prelude.{ℕ, ◌+◌, String, ◌≡◌, Bool, List, [], ◌∷◌, ◌++◌, ◌==◌, ◌&&◌, if◌then◌else◌}
use cria.Pb.{TokenEvent}

-- `tonic::Status`: a code and a message.
pub data StatusCode : Type 0 where
  invalid_argument resource_exhausted already_exists unavailable not_found : StatusCode

pub record Status : Type 0 where
  pub code : StatusCode
  pub message : String

-- `Result<TokenEvent, Status>`.
pub data StreamItem : Type 0 where
  event : TokenEvent → StreamItem
  error : Status → StreamItem

pub record Mpsc : Type 1 where
  pub Net : Type 0
  -- How many channels were made.
  pub opened : Net → ℕ
  pub accepted : Net → ℕ → List StreamItem
  -- `mpsc::channel(capacity)`; the new channel is `opened` of the state before.
  pub channel : ℕ → Net → Net
  -- `send(item).await`, once it has returned: `true` if the item was accepted, `false` if the
  -- receiver was dropped.
  pub send : Net → ℕ → StreamItem → Net × Bool
  -- What the error of a closed channel prints.
  pub closed_text : String
  pub opened-channel : (capacity : ℕ) (net : Net) → opened (channel capacity net) ≡ opened net + 1
  pub accepted-channel :
      (capacity : ℕ) (net : Net) (i : ℕ)
      → accepted (channel capacity net) i ≡ (if opened net == i then [] else accepted net i)
  pub opened-send : (net : Net) (i : ℕ) (x : StreamItem) → opened (send net i x).0 ≡ opened net
  pub accepted-send :
      (net : Net) (i : ℕ) (x : StreamItem) (j : ℕ)
      → accepted (send net i x).0 j
        ≡ (if (send net i x).1 && i == j then accepted net j ++ x ∷ [] else accepted net j)
