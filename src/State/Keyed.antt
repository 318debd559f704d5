-- ===== src/State/Keyed.antt =====
-- A record stands under its own identifier, whatever the clock says.
use cria.Prelude.{ℕ, String, ◌≡◌, refl, List, [], ◌∷◌, arith}
use cria.Table.{DashMap}
use cria.State.{RequestRecord, RequestState, new, get, update, cancel, queued_record, stamp}
use cria.State.Lookup.{get-update, get-cancel, get-record_event, cancel_if_active}
use cria.State.Operations.{
  Operation, submitted, marked_running, noted_token, cancelled_by_client, completed_by_worker,
  failed_with, cancelled_by_worker, recorded, perform, perform_all,
}
use cria.State.Invariant.{Each, Each-changed, Each-inserted}

abbrev pub IsKeyed : String → RequestRecord → Type 0
IsKeyed k r = r.request_id ≡ k

module _ ⦃d : DashMap⦄ where
  update-IsKeyed :
      (s : RequestState) (id : String) (change : RequestRecord → RequestRecord) (now : ℕ)
      → ((k : String) (r : RequestRecord) → IsKeyed k r → IsKeyed k (change r))
      → Each IsKeyed s
      → Each IsKeyed (update s id change now)
  update-IsKeyed s id change now =
      Each-changed IsKeyed IsKeyed s (update s id change now) id (stamp change now)
        (λ j. get-update s id j change now) (λ k r h. h)

  cancelled-IsKeyed :
      (reason : String) (now : ℕ) (k : String) (r : RequestRecord)
      → IsKeyed k r
      → IsKeyed k (cancel_if_active reason now r)
  cancelled-IsKeyed reason now k r h = ground arith

  perform-IsKeyed :
      (s : RequestState) (o : Operation) (now : ℕ) → Each IsKeyed s → Each IsKeyed (perform s o now)
  unfolding perform
  perform-IsKeyed s (submitted id) now h =
      Each-inserted IsKeyed IsKeyed s (queued_record id now) (λ k r q. q) refl h
  perform-IsKeyed s (marked_running id worker) now h = update-IsKeyed s id _ now (λ k r q. q) h
  perform-IsKeyed s (noted_token id n worker) now h = update-IsKeyed s id _ now (λ k r q. q) h
  perform-IsKeyed s (cancelled_by_client id reason) now h =
      Each-changed IsKeyed IsKeyed s (cancel s id reason now).0 id (cancel_if_active reason now)
        (λ j. get-cancel s id j reason now) (λ k r q. q) (cancelled-IsKeyed reason now) h
  perform-IsKeyed s (completed_by_worker id n worker) now h =
      update-IsKeyed s id _ now (λ k r q. q) h
  perform-IsKeyed s (failed_with id error) now h = update-IsKeyed s id _ now (λ k r q. q) h
  perform-IsKeyed s (cancelled_by_worker id reason) now h = update-IsKeyed s id _ now (λ k r q. q) h
  perform-IsKeyed s (recorded e) now h = λ k r f. h k r (rw (← get-record_event s e k) f)

  pub perform_all-IsKeyed :
      (s : RequestState) (os : List (Operation × ℕ))
      → Each IsKeyed s
      → Each IsKeyed (perform_all s os)
  unfolding perform_all
  perform_all-IsKeyed s [] h = h
  perform_all-IsKeyed s ((o, now) ∷ os) h =
      perform_all-IsKeyed (perform s o now) os (perform-IsKeyed s o now h)

  pub new-IsKeyed : Each IsKeyed new
  unfolding new get
  new-IsKeyed k r e = absurd (ground (arith, d.get-empty {V = RequestRecord} k))
