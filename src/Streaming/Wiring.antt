-- ===== src/Streaming/Wiring.antt =====
-- Each registered stream has a channel of its own.
use cria.Prelude.{
  ℕ, ◌+◌, ◌<◌, refl, String, ◌≡◌, none, some, str_eq, eq_iff, arith, Option-cases, inl, inr,
  if◌then◌else◌,
}
use cria.Table.{DashMap}
use cria.Streaming.Channel.{Mpsc, StreamItem}
use cria.Streaming.Registry.{StreamRegistry, new, register, send, unregister, sender_of}

module _ ⦃d : DashMap⦄ ⦃ch : Mpsc⦄ where
  -- A registered sender writes to a channel that was made, and no two requests share one.
  pub record IsWired (s : StreamRegistry) : Type 0 where
    pub made : (id : String) (c : ℕ) → sender_of s id ≡ some c → c < ch.opened s.net
    pub apart :
        (id id' : String) (c : ℕ) → sender_of s id ≡ some c → sender_of s id' ≡ some c → id ≡ id'

  pub new-IsWired : (net : ch.Net) → IsWired (new net)
  unfolding new sender_of
  new-IsWired net = record {
    made = λ id c h. absurd (ground (arith, d.get-empty {V = ℕ} id));
    apart = λ id id' c h k. absurd (ground (arith, d.get-empty {V = ℕ} id));
  }

  pub sender_of-register :
      (s : StreamRegistry) (id j : String)
      → sender_of s id ≡ none
      → sender_of (register s id).0 j
        ≡ (if str_eq id j then some (ch.opened s.net) else sender_of s j)
  unfolding register sender_of
  sender_of-register s id j h = ground (arith, d.get-insert s.inner id (ch.opened s.net) j)

  pub sender_of-send :
      (s : StreamRegistry) (id j : String) (x : StreamItem)
      → sender_of (send s id x).0 j ≡ sender_of s j
  unfolding send sender_of
  sender_of-send s id j x = ground arith

  pub sender_of-unregister :
      (s : StreamRegistry) (id j : String)
      → sender_of (unregister s id) j ≡ (if str_eq id j then none else sender_of s j)
  unfolding unregister sender_of
  sender_of-unregister s id j = d.get-remove s.inner id j

  pub opened-send :
      (s : StreamRegistry) (id : String) (x : StreamItem)
      → ch.opened (send s id x).0.net ≡ ch.opened s.net
  unfolding send
  opened-send s id x = elim (Option-cases (d.get s.inner id)) [
    | inl missing ↦ ground arith
    | inr (c, found) ↦ ground (arith, ch.opened-send s.net c x)
  ]

  pub register_taken :
      (s : StreamRegistry) (id : String) {c : ℕ}
      → sender_of s id ≡ some c
      → register s id ≡ (s, none)
  unfolding register sender_of
  register_taken s id h = ground arith

  pub register_free :
      (s : StreamRegistry) (id : String)
      → sender_of s id ≡ none
      → (ch.opened (register s id).0.net ≡ ch.opened s.net + 1)
        × ((register s id).1 ≡ some (ch.opened s.net))
  unfolding register sender_of
  register_free s id h = (ground (arith, ch.opened-channel 256 s.net), ground arith)

  register_free-IsWired :
      (s : StreamRegistry) (id : String)
      → sender_of s id ≡ none
      → IsWired s
      → IsWired (register s id).0
  register_free-IsWired s id h w = record {
    made =
        λ j c e. ground (arith, sender_of-register s id j h, (register_free s id h).0, w.made j c);
    apart = λ j j' c e e'. ground (
      arith,
      sender_of-register s id j h,
      sender_of-register s id j' h,
      eq_iff id j,
      eq_iff id j',
      w.made j c,
      w.made j' c,
      w.apart j j' c,
    );
  }

  pub register-IsWired : (s : StreamRegistry) (id : String) → IsWired s → IsWired (register s id).0
  register-IsWired s id w = elim (Option-cases (sender_of s id)) [
    | inl free ↦ register_free-IsWired s id free w
    | inr (c, taken) ↦ rw (register_taken s id taken) w
  ]

  pub send-IsWired :
      (s : StreamRegistry) (id : String) (x : StreamItem) → IsWired s → IsWired (send s id x).0
  send-IsWired s id x w = record {
    made = λ j c h. rw opened-send (w.made j c (rw sender_of-send at h));
    apart = λ j j' c h k. w.apart j j' c (rw sender_of-send at h) (rw sender_of-send at k);
  }

  net-unregister : (s : StreamRegistry) (id : String) → (unregister s id).net ≡ s.net
  unfolding unregister
  net-unregister s id = refl

  pub unregister-IsWired :
      (s : StreamRegistry) (id : String) → IsWired s → IsWired (unregister s id)
  unregister-IsWired s id w = record {
    made = λ j c h. rw net-unregister (w.made j c (ground (arith, sender_of-unregister s id j)));
    apart = λ j j' c h k.
        w.apart j j' c (ground (arith, sender_of-unregister s id j))
          (ground (arith, sender_of-unregister s id j'));
  }
