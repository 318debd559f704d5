-- ===== src/State/Histories.antt =====
-- Histories of the table up to the order between requests: a quotient, out of which everything that
-- the table shows can be computed.
use mathlib.Core.Quot
use mathlib.Core.Quot.{Quot, Quot-set}
use cria.Prelude.{
  ℕ, String, ◌≡◌, refl, ◌∙◌, sym, ap, none, or_else, List, [], ◌∷◌, ◌++◌, str_eq, eq_iff,
  Bool-cases, inl, inr,
}
use text.Mathlib.TextEquality.{IsScalar-prop}
use cria.Table.{DashMap}
use cria.State
use cria.State.{RequestRecord}
use cria.Pb.{TokenEvent}
use cria.State.Operations.{Operation, perform_all}
use cria.State.Machine.{
  Entry, subject, follow, own_operations, own_operations-append, entry_of, entry-perform_all,
}

abbrev SameOperations : List (Operation × ℕ) → List (Operation × ℕ) → Type 0
SameOperations os os' = (k : String) → own_operations k os ≡ own_operations k os'

abbrev pub Histories : Type 0
Histories = Quot SameOperations

Entry_set : IsSet Entry
Entry_set = hlevel (IsScalar-prop)

abbrev nothing : Entry
nothing = record { shown = none; cached = [] }

-- What a history shows of a request.
pub shows : String → Histories → Entry
shows k =
    Quot.lift Entry_set (λ os. follow (own_operations k os) nothing)
      (λ os os' h. ap (λ l. follow l nothing) (h k))

module _ ⦃d : DashMap⦄ where
  entry_of-new : (k : String) → entry_of State.new k ≡ nothing
  unfolding State.new State.get State.events
  entry_of-new k = λ i. record {
    shown = d.get-empty {V = RequestRecord} k i;
    cached = or_else (d.get-empty {V = List TokenEvent} k i) [];
  }

  pub entry_of-shows :
      (os : List (Operation × ℕ)) (k : String)
      → entry_of (perform_all State.new os) k ≡ shows k (Quot.mk os)
  unfolding shows
  entry_of-shows os k =
      entry-perform_all State.new os k ∙ ap (follow (own_operations k os)) (entry_of-new k)

swapped-SameOperations :
    (os os' : List (Operation × ℕ)) (p q : Operation × ℕ)
    → ¬ (subject p.0 ≡ subject q.0)
    → SameOperations (os ++ p ∷ q ∷ os') (os ++ q ∷ p ∷ os')
swapped-SameOperations os os' p q apart k =
    own_operations-append k os (p ∷ q ∷ os')
    ∙ ap (λ l. own_operations k os ++ l)
        (elim (Bool-cases (str_eq (subject p.0) k)) [
          | inl first ↦ elim (Bool-cases (str_eq (subject q.0) k)) [
            | inl second ↦ absurd (apart ((eq_iff _ k).0 first ∙ sym ((eq_iff _ k).0 second)))
            | inr other ↦ rw (first, other) refl
          ]
          | inr other ↦ rw other refl
        ])
    ∙ sym (own_operations-append k os (q ∷ p ∷ os'))

module _ ⦃d : DashMap⦄ where
  -- Two operations on different requests, one behind the other anywhere in a history, can change
  -- places: it is one history up to the order between requests, and the table shows the same of
  -- every request.
  pub swapped-shows :
      (os os' : List (Operation × ℕ)) (p q : Operation × ℕ) (k : String)
      → ¬ (subject p.0 ≡ subject q.0)
      → let h : Histories = Quot.mk (os ++ p ∷ q ∷ os') in
        (h ≡ Quot.mk (os ++ q ∷ p ∷ os'))
        × (entry_of (perform_all State.new (os ++ p ∷ q ∷ os')) k ≡ shows k h)
        × (entry_of (perform_all State.new (os ++ q ∷ p ∷ os')) k ≡ shows k h)
  swapped-shows os os' p q k apart =
      let same : Path Histories (Quot.mk (os ++ p ∷ q ∷ os')) (Quot.mk (os ++ q ∷ p ∷ os')) =
        Quot.sound (swapped-SameOperations os os' p q apart) in
      (
        same,
        entry_of-shows (os ++ p ∷ q ∷ os') k,
        entry_of-shows (os ++ q ∷ p ∷ os') k ∙ ap (shows k) (sym same),
      )
