-- ===== src/Api/Race.antt =====
-- `submit` in two: the check of the limit, and the admission, with another task's between them.
use cria.Prelude.{ℕ, ◌+◌, ◌≡◌, refl, ap, none, [], ◌∷◌, ◌++◌, eq_iff, arith, leb, true}
use cria.Table.{DashMap}
use cria.Config.{Config}
use cria.Pb.{InferenceRequest}
use cria.State
use cria.State.Lookup.{get-queued}
use cria.State.Activity.{active_count-queued_new}
use cria.Streaming.{Mpsc, sender_of, resource_exhausted}
use cria.Streaming.Wiring.{sender_of-register, register_free}
use cria.Telemetry.{inc, rejected_requests}
use cria.Kafka.Messages.{InferenceJob}
use cria.Gateway.{Gateway}
use cria.Api.Begin.{Ambient, rejected, enqueuing, status, admit, submit_begin}
use cria.Api.Admission.{admitted, checks_passed, submit_begin-IsAdmitted}

module _ ⦃d : DashMap⦄ ⦃ch : Mpsc⦄ where
  active_count-admitted :
      (g : Gateway) (job : InferenceJob) (amb : Ambient)
      → State.get g.state job.request_id ≡ none
      → State.active_count (admitted g job amb).state ≡ State.active_count g.state + 1
  active_count-admitted g job amb unknown =
      active_count-queued_new g.state job.request_id amb.queued_at unknown

  admit-free :
      (g : Gateway) (job : InferenceJob) (amb : Ambient)
      → sender_of g.streams job.request_id ≡ none
      → admit g job amb ≡ (admitted g job amb, enqueuing job (ch.opened g.streams.net))
  unfolding admit
  admit-free g job amb free = rw ((register_free g.streams job.request_id free).1, admit) refl

  full-submit_begin :
      (c : Config) (g g' : Gateway) (request : InferenceRequest) (amb : Ambient)
      (job : InferenceJob) (receiver : ℕ)
      → (submit_begin c g request amb).1 ≡ enqueuing job receiver
      → leb c.max_active_requests (State.active_count g'.state) ≡ true
      → submit_begin c g' request amb ≡ (
        record g' { metrics = g'.metrics ++ inc rejected_requests ∷ [] },
        rejected (status resource_exhausted "too many active requests"),
      )
  unfolding submit_begin
  full-submit_begin c g g' request amb job receiver h full =
      let (n, fine, solid, short, room, path) = checks_passed c g request amb job receiver h in
      ground (arith, solid, short, full)

  -- Two submissions under different identifiers that have neither stream nor record, while one
  -- place is left below the limit, each of which would be admitted alone. If the second comes
  -- after the first, it is refused with RESOURCE_EXHAUSTED; if both make the check before either
  -- inserts its record, both are admitted, and one request more than the limit is active.
  pub submit-race :
      (c : Config) (g : Gateway) (request request' : InferenceRequest) (amb amb' : Ambient)
      (job job' : InferenceJob) (receiver receiver' : ℕ)
      → (submit_begin c g request amb).1 ≡ enqueuing job receiver
      → (submit_begin c g request' amb').1 ≡ enqueuing job' receiver'
      → ¬ (job.request_id ≡ job'.request_id)
      → State.get g.state job.request_id ≡ none
      → State.get g.state job'.request_id ≡ none
      → State.active_count g.state + 1 ≡ c.max_active_requests
      → let g' = (submit_begin c g request amb).0 in
        let (g'', begun) = admit g' job' amb' in
        ((submit_begin c g' request' amb').1
          ≡ rejected (status resource_exhausted "too many active requests"))
        × (begun ≡ enqueuing job' (ch.opened g'.streams.net))
        × (State.active_count g''.state ≡ c.max_active_requests + 1)
  submit-race c g request request' amb amb' job job' receiver receiver' h h' other new new' last =
      let fine = submit_begin-IsAdmitted c g request amb job receiver h in
      let fine' = submit_begin-IsAdmitted c g request' amb' job' receiver' h' in
      let g' = admitted g job amb in
      let unknown : State.get g'.state job'.request_id ≡ none = ground (
        arith,
        get-queued g.state job.request_id amb.queued_at job'.request_id,
        eq_iff job.request_id job'.request_id,
      ) in
      let free : sender_of g'.streams job'.request_id ≡ none = ground (
        arith,
        sender_of-register g.streams job.request_id job'.request_id fine.free,
        eq_iff job.request_id job'.request_id,
        fine'.free,
      ) in
      let count = active_count-admitted g job amb new in
      let path = admit-free g' job' amb' free in
      rw (fine.after, path)
        (
          ap (λ r. r.1)
              (full-submit_begin c g g' request' amb' job' receiver' h' (ground (arith, count))),
          refl,
          omega (arith, count, active_count-admitted g' job' amb' unknown),
        )
