-- ===== src/Streaming/Race.antt =====
-- `register` in the two operations that it makes on the map, with another task's between them.
use cria.Prelude.{ℕ, String, ◌≡◌, ◌≢◌, Bool, true, false, none, some, arith, eq_refl, if◌then◌else◌}
use cria.Table.{DashMap}
use cria.Streaming.Channel.{Mpsc, StreamItem}
use cria.Streaming.Registry.{StreamRegistry, register, send, sender_of}
use cria.Streaming.Delivery.{accepted_items, accepted-send_ne}

module _ ⦃d : DashMap⦄ ⦃ch : Mpsc⦄ where
  -- `contains_key`, negated.
  unfoldable pub looks_free : StreamRegistry → String → Bool
  looks_free s request_id = elim (d.get s.inner request_id) [ none ↦ true | some sender ↦ false ]

  -- What follows the check: the channel and the insertion.
  unfoldable pub enter : StreamRegistry → String → StreamRegistry × ℕ
  enter s request_id = (
    record s { inner = d.insert s.inner request_id (ch.opened s.net); net = ch.channel 256 s.net },
    ch.opened s.net,
  )

  register_in_two :
      (s : StreamRegistry) (id : String)
      → register s id
        ≡ (if looks_free s id then ((enter s id).0, some (enter s id).1) else (s, none))
  unfolding register looks_free enter
  register_in_two s id = ground arith

  sender_of-enter :
      (s : StreamRegistry) (id : String) → sender_of (enter s id).0 id ≡ some (enter s id).1
  unfolding sender_of enter
  sender_of-enter s id = ground (arith, d.get-insert s.inner id (ch.opened s.net) id, eq_refl id)

  receivers_differ :
      (s : StreamRegistry) (id : String) → (enter s id).1 ≢ (enter (enter s id).0 id).1
  unfolding enter
  receivers_differ s id h = omega (arith, h, ch.opened-channel 256 s.net)

  -- Two tasks that register one free identifier at once, both checks before both insertions:
  -- either check finds the identifier free, the first task is given the receiver that register
  -- gives it, the second another one and the registration, and whatever is sent to the identifier
  -- afterwards adds nothing to the channel of the first.
  pub register-race :
      (s : StreamRegistry) (id : String) (x : StreamItem)
      → sender_of s id ≡ none
      → let (s', first) = enter s id in
        let (s'', second) = enter s' id in
        (looks_free s id ≡ true)
        × (register s id ≡ (s', some first))
        × (first ≢ second)
        × (sender_of s'' id ≡ some second)
        × (accepted_items (send s'' id x).0 first ≡ accepted_items s'' first)
  unfolding looks_free
  register-race s id x free =
      let s' = (enter s id).0 in
      let s'' = (enter s' id).0 in
      (
        unfold sender_of in ground (arith, free),
        unfold sender_of in ground (arith, register_in_two s id, free),
        receivers_differ s id,
        sender_of-enter s' id,
        accepted-send_ne s'' id x (enter s id).1
            (λ h. receivers_differ s id (ground (arith, sender_of-enter s' id))),
      )
