-- ===== src/System/Pending.antt =====
-- What waits in a system, and which requests' streams it is going to touch.
use mathlib.Core.Path.{subst}
use cria.Prelude.{
  ℕ, zero, suc, String, ◌≡◌, none, some, List, [], ◌∷◌, arith, Every, Option-cases, inl, inr,
}
use cria.Table.{DashMap}
use cria.Pb.{TokenEvent}
use cria.Streaming.{Mpsc}
use cria.Kafka.Producer.{ProduceResult, produced, refused}
use cria.System.{Submission, Replay, System, Action, event_goes, take_at}

pub take_at-Every :
    {A : Type 0} (P : A → Type 0) (i : ℕ) (xs rest : List A) (x : A)
    → Every P xs
    → take_at i xs ≡ some (x, rest)
    → P x × Every P rest
unfolding take_at
take_at-Every P i [] rest x h e = absurd (ground (arith, e))
take_at-Every P zero (y ∷ ys) rest x h e =
    let same : y ≡ x = ground (arith, e) in
    let others : ys ≡ rest = ground (arith, e) in (subst P same h.0, subst (Every P) others h.1)
take_at-Every P (suc i) (y ∷ ys) rest x h e = elim (Option-cases (take_at i ys)) [
  | inl missing ↦ absurd (ground (arith, e, missing))
  | inr ((z, zs), found) ↦
      let (own, others) = take_at-Every P i ys zs z h.1 found in
      let same : z ≡ x = ground (arith, e, found) in
      let kept : (y ∷ zs) ≡ rest = ground (arith, e, found) in
      (subst P same own, subst (Every P) kept (h.0, others))
]

-- What is left of a submission touches its own stream only if the producer refuses it.
abbrev pub TouchesAfter : (String → Type 0) → ProduceResult → String → Type 0
TouchesAfter M produced id = Unit
TouchesAfter M (refused reason) id = M id

abbrev pub SubmissionTouches : (String → Type 0) → Submission → Type 0
SubmissionTouches M w = TouchesAfter M w.result w.job.request_id

abbrev pub ReplayTouches : (String → Type 0) → Replay → Type 0
ReplayTouches M r = M r.request_id

abbrev pub EventTouches : (String → Type 0) → TokenEvent → Type 0
EventTouches M e = M e.request_id

module _ ⦃d : DashMap⦄ ⦃ch : Mpsc⦄ where
  -- The event that the step hands to a client.
  unfoldable pub handed_by : System → Action → List TokenEvent
  handed_by s event_goes = elim s.delivering [ none ↦ [] | some p ↦ p ∷ [] ]
  handed_by s a = []

  -- What waits touches only requests of the kind.
  pub record MayTouch (M : String → Type 0) (s : System) : Type 0 where
    pub submissions : Every (SubmissionTouches M) s.submissions
    pub replays : Every (ReplayTouches M) s.replays
