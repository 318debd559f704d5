-- ===== src/Streaming/Delivery.antt =====
-- What the operations of the registry add to the channels.
use cria.Prelude.{
  ℕ, String, ◌≡◌, refl, true, none, some, List, [], ◌∷◌, ◌++◌, ◌==◌, arith, Option-cases,
  Bool-cases, ◌⊎◌, inl, inr, if◌then◌else◌,
}
use cria.Table.{DashMap}
use cria.Streaming.Channel.{Mpsc, StreamItem}
use cria.Streaming.Registry.{StreamRegistry, new, sender_of, register, send, unregister, sent}

module _ ⦃d : DashMap⦄ ⦃ch : Mpsc⦄ where
  -- The receiver of a channel is kept: no send to it fails.
  abbrev pub IsHeld : ℕ → Type 0
  IsHeld c = (net : ch.Net) (x : StreamItem) → (ch.send net c x).1 ≡ true

  pub accepted_items : StreamRegistry → ℕ → List StreamItem
  accepted_items s c = ch.accepted s.net c

  pub accepted-new : (net : ch.Net) (c : ℕ) → accepted_items (new net) c ≡ ch.accepted net c
  unfolding new accepted_items
  accepted-new net c = refl

  pub accepted-send_held :
      (s : StreamRegistry) (id : String) (x : StreamItem) (c : ℕ)
      → sender_of s id ≡ some c
      → IsHeld c
      → (accepted_items (send s id x).0 c ≡ accepted_items s c ++ x ∷ []) × ((send s id x).1 ≡ sent)
  unfolding send sender_of accepted_items
  accepted-send_held s id x c h held =
      (ground (arith, ch.accepted-send s.net c x c, held s.net x), ground (arith, held s.net x))

  -- A send under a request whose sender is not the channel's adds nothing to that channel.
  pub accepted-send_ne :
      (s : StreamRegistry) (id : String) (x : StreamItem) (c : ℕ)
      → ¬ (sender_of s id ≡ some c)
      → accepted_items (send s id x).0 c ≡ accepted_items s c
  unfolding send sender_of accepted_items
  accepted-send_ne s id x c h = elim (Option-cases (d.get s.inner id)) [
    | inl missing ↦ ground arith
    | inr (c', found) ↦ ground (arith, ch.accepted-send s.net c' x c)
  ]

  -- What is sent to a channel is added to it, or dropped.
  pub accepted-send_cases :
      (s : StreamRegistry) (id : String) (x : StreamItem) (c : ℕ)
      → sender_of s id ≡ some c
      → (accepted_items (send s id x).0 c ≡ accepted_items s c)
        ⊎ (accepted_items (send s id x).0 c ≡ accepted_items s c ++ x ∷ [])
  unfolding send sender_of accepted_items
  accepted-send_cases s id x c h = elim (Bool-cases (ch.send s.net c x).1) [
    | inl taken ↦ inr (ground (arith, ch.accepted-send s.net c x c, taken))
    | inr dropped ↦ inl (ground (arith, ch.accepted-send s.net c x c, dropped))
  ]

  pub accepted-unregister :
      (s : StreamRegistry) (id : String) (c : ℕ)
      → accepted_items (unregister s id) c ≡ accepted_items s c
  unfolding unregister accepted_items
  accepted-unregister s id c = refl

  -- Registering opens a channel that holds nothing, and leaves those that were made as they are.
  pub accepted-register :
      (s : StreamRegistry) (id : String) (c : ℕ)
      → sender_of s id ≡ none
      → accepted_items (register s id).0 c
        ≡ (if ch.opened s.net == c then [] else accepted_items s c)
  unfolding register sender_of accepted_items
  accepted-register s id c h = ground (arith, ch.accepted-channel 256 s.net c)
