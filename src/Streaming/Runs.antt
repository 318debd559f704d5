-- ===== src/Streaming/Runs.antt =====
-- Sequences of calls of the registry, as the handlers and the router make them in any order.
use cria.Prelude.{String, List, [], ◌∷◌}
use cria.Table.{DashMap}
use cria.Streaming.Channel.{Mpsc, StreamItem}
use cria.Streaming.Registry.{StreamRegistry, new, register, send, unregister}
use cria.Streaming.Wiring.{IsWired, new-IsWired, register-IsWired, send-IsWired, unregister-IsWired}

pub data Call : Type 0 where
  registering : String → Call
  sending : String → StreamItem → Call
  unregistering : String → Call

module _ ⦃d : DashMap⦄ ⦃ch : Mpsc⦄ where
  abbrev pub make : StreamRegistry → Call → StreamRegistry
  make s (registering id) = (register s id).0
  make s (sending id x) = (send s id x).0
  make s (unregistering id) = unregister s id

  abbrev pub make_all : StreamRegistry → List Call → StreamRegistry
  make_all s [] = s
  make_all s (c ∷ cs) = make_all (make s c) cs

  make-IsWired : (s : StreamRegistry) (c : Call) → IsWired s → IsWired (make s c)
  make-IsWired s (registering id) w = register-IsWired s id w
  make-IsWired s (sending id x) w = send-IsWired s id x w
  make-IsWired s (unregistering id) w = unregister-IsWired s id w

  make_all-IsWired : (s : StreamRegistry) (cs : List Call) → IsWired s → IsWired (make_all s cs)
  make_all-IsWired s [] w = w
  make_all-IsWired s (c ∷ cs) w = make_all-IsWired (make s c) cs (make-IsWired s c w)

  -- After any calls of a new registry, each registered sender writes to a channel that was made,
  -- and no two requests share a channel.
  pub make_all-new-IsWired : (net : ch.Net) (cs : List Call) → IsWired (make_all (new net) cs)
  make_all-new-IsWired net cs = make_all-IsWired (new net) cs (new-IsWired net)
