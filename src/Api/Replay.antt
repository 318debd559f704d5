-- ===== src/Api/Replay.antt =====
-- The replay of cached events.
use mathlib.Core.List.{append-nil, append_assoc}
use cria.Prelude.{
  ℕ, String, ◌≡◌, refl, ◌∙◌, Bool, true, false, none, some, List, [], ◌∷◌, ◌++◌, map, eq_refl,
  if◌then◌else◌, Bool-cases, inl, inr,
}
use cria.Table.{DashMap}
use cria.Text.{trim, is_empty}
use cria.Config.{Config}
use cria.Pb.{InferenceRequest, TokenEvent, event_type_of}
use cria.State
use cria.Streaming
use cria.Streaming.{Mpsc, StreamRegistry, sender_of, event, not_found}
use cria.Streaming.Wiring.{sender_of-send, sender_of-unregister}
use cria.Streaming.Delivery.{IsHeld, accepted_items, accepted-send_held, accepted-unregister}
use cria.Kafka.Router.{is_terminal_event}
use cria.Gateway.{Gateway}
use cria.Api.Begin.{
  Ambient, rejected, status, chosen_id, wants_replay, replay_cached_events, replay_loop,
  replay_task, identify,
}

-- The last event is terminal; `first` stands for none.
abbrev pub ends_terminal : Bool → List TokenEvent → Bool
ends_terminal first [] = first
ends_terminal first (e ∷ es) = ends_terminal (is_terminal_event (event_type_of e.event_type)) es

module _ ⦃d : DashMap⦄ ⦃ch : Mpsc⦄ where
  replay_loop-delivers :
      (s : StreamRegistry) (id : String) (c : ℕ) (first : Bool) (es : List TokenEvent)
      → sender_of s id ≡ some c
      → IsHeld c
      → (accepted_items (replay_loop s id first es).0 c ≡ accepted_items s c ++ map event es)
        × (sender_of (replay_loop s id first es).0 id ≡ some c)
        × ((replay_loop s id first es).1 ≡ ends_terminal first es)
  unfolding replay_loop
  replay_loop-delivers s id c first [] h held = (rw append-nil, h, refl)
  replay_loop-delivers s id c first (e ∷ es) h held =
      let (rest, still, last) =
        replay_loop-delivers (Streaming.send s id (event e)).0 id c
          (is_terminal_event (event_type_of e.event_type)) es (rw sender_of-send h) held in
      (
        rest
            ∙ rw (accepted-send_held s id (event e) c h held).0
                (append_assoc (accepted_items s c) (event e ∷ []) (map event es)),
        still,
        last,
      )

  -- The task that replay spawns, for a registered client that keeps its receiver, adds the cached
  -- events to its channel in their order, and unregisters the stream exactly if the last of them
  -- is terminal.
  pub replay_task-delivers :
      (s : StreamRegistry) (id : String) (c : ℕ) (es : List TokenEvent)
      → sender_of s id ≡ some c
      → IsHeld c
      → (accepted_items (replay_task s id es) c ≡ accepted_items s c ++ map event es)
        × (sender_of (replay_task s id es) id ≡ (if ends_terminal false es then none else some c))
  unfolding replay_task
  replay_task-delivers s id c es h held =
      let (handed, still, last) = replay_loop-delivers s id c false es h held in
      elim (Bool-cases (ends_terminal false es)) [
        | inl terminal ↦
            rw (last, terminal, accepted-unregister, sender_of-unregister, eq_refl) (handed, refl)
        | inr going_on ↦ rw (last, going_on) (handed, still)
      ]

  -- A replay that names no request is looked for under the UUID that was just made: where that is
  -- not blank and has no record, nothing changes and the answer is NOT_FOUND, not the refusal that
  -- asks for an identifier.
  pub replay_without_id :
      (c : Config) (g : Gateway) (request : InferenceRequest) (amb : Ambient) (prompt : String)
      (n : ℕ)
      → wants_replay request ≡ true
      → is_empty (trim request.request_id) ≡ true
      → is_empty (trim amb.uuid) ≡ false
      → State.get g.state amb.uuid ≡ none
      → identify c g request amb prompt n ≡ (g, rejected (status not_found "request not found"))
  unfolding identify replay_cached_events chosen_id
  replay_without_id c g request amb prompt n again unnamed solid fresh =
      rw (again, unnamed, solid, fresh) refl
