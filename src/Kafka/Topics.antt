-- ===== src/Kafka/Topics.antt =====
-- `wait_for_topics`: the gateway polls the broker's metadata until every topic that it uses is
-- there, for a minute at most. The broker and the clock are functions of the round.
use cria.Prelude.{
  eq_iff, ◌∙◌, ℕ, zero, suc, ◌+◌, ◌*◌, ◌≤◌, ◌<◌, String, ◌≡◌, refl, sym, Bool, true, false, ◌&&◌,
  ◌||◌, Option, none, some, List, [], ◌∷◌, ◌++◌, map, arith, ltb, str_eq, if◌then◌else◌, inl, inr,
  Bool-cases,
}
use cria.Config.{Config, sort, insert_sorted}

-- `dedup()`: of equal neighbours one is kept.
unfoldable pub dedup : List String → List String
dedup [] = []
dedup (a ∷ []) = a ∷ []
dedup (a ∷ (b ∷ l)) = let rest = dedup (b ∷ l) in if str_eq a b then rest else a ∷ rest

-- The topics of the routes, of the events and of the control messages.
abbrev pub used_topics : Config → List String
used_topics c = map (λ e. e.1) c.model_routes.entries ++ c.token_topic ∷ c.control_topic ∷ []

unfoldable pub awaited_topics : Config → List String
awaited_topics c = dedup (sort (used_topics c))

abbrev pub all : (String → Bool) → List String → Bool
all p [] = true
all p (a ∷ l) = p a && all p l

abbrev pub any_is : String → List String → Bool
any_is a [] = false
any_is a (b ∷ l) = str_eq b a || any_is a l

-- The topics are all among those that the broker named; `none` is an error of the broker.
unfoldable pub available : List String → Option (List String) → Bool
available topics none = false
available topics (some names) = all (λ t. any_is t names) topics

pub data Waited : Type 0 where
  ready timed_out out_of_fuel : Waited

-- The rounds from a round on. `elapsed` is read in milliseconds behind a round that failed.
unfoldable pub wait_from : List String → (ℕ → Option (List String)) → (ℕ → ℕ) → ℕ → ℕ → Waited
wait_from topics fetch elapsed zero round = out_of_fuel
wait_from topics fetch elapsed (suc fuel) round =
    let again = wait_from topics fetch elapsed fuel (suc round) in
    if available topics (fetch round)
    then ready
    else if ltb 60000 (elapsed round)
    then timed_out
    else again

-- A second is slept between rounds, so round 61 comes when a minute has passed.
unfoldable pub wait_for_topics : Config → (ℕ → Option (List String)) → (ℕ → ℕ) → Waited
wait_for_topics c fetch elapsed = wait_from (awaited_topics c) fetch elapsed 62 0

module _ (p : String → Bool) where
  all-insert_sorted : (a : String) (l : List String) → all p (insert_sorted a l) ≡ (p a && all p l)
  unfolding insert_sorted
  all-insert_sorted a [] = refl
  all-insert_sorted a (b ∷ l) = ground (arith, all-insert_sorted a l)

  all-sort : (l : List String) → all p (sort l) ≡ all p l
  unfolding sort
  all-sort [] = refl
  all-sort (a ∷ l) = ground (arith, all-insert_sorted a (sort l), all-sort l)

  all-dedup : (l : List String) → all p (dedup l) ≡ all p l
  unfolding dedup
  all-dedup [] = refl
  all-dedup (a ∷ []) = refl
  all-dedup (a ∷ (b ∷ l)) = ground (arith, all-dedup (b ∷ l), eq_iff a b)

pub available-awaited :
    (c : Config) (answer : Option (List String))
    → available (awaited_topics c) answer ≡ available (used_topics c) answer
unfolding available awaited_topics
available-awaited c none = refl
available-awaited c (some names) =
    all-dedup (λ t. any_is t names) (sort (used_topics c))
    ∙ all-sort (λ t. any_is t names) (used_topics c)

-- The round that a wait stops in, and with what.
abbrev pub Stops : List String → (ℕ → Option (List String)) → (ℕ → ℕ) → ℕ → Waited → Type 0
Stops topics fetch elapsed round ready = available topics (fetch round) ≡ true
Stops topics fetch elapsed round timed_out =
    (available topics (fetch round) ≡ false) × (60000 < elapsed round)
Stops topics fetch elapsed round out_of_fuel = ⊥

-- A wait that goes through `n` rounds in which a topic is missing and no minute is over, from the
-- first, and stops in the next.
abbrev pub Ends : List String → (ℕ → Option (List String)) → (ℕ → ℕ) → ℕ → ℕ → Waited → Type 0
Ends topics fetch elapsed first zero w = Stops topics fetch elapsed first w
Ends topics fetch elapsed first (suc n) w =
    (available topics (fetch first) ≡ false)
    × (elapsed first ≤ 60000)
    × Ends topics fetch elapsed (suc first) n w

module _ (fetch : ℕ → Option (List String)) (elapsed : ℕ → ℕ)
    (slept : (i : ℕ) → elapsed i + 1000 ≤ elapsed (suc i)) where
  elapsed_bound : (i : ℕ) → i * 1000 ≤ elapsed i
  elapsed_bound zero = omega arith
  elapsed_bound (suc i) = omega (arith, elapsed_bound i, slept i)

  wait_from-Ends :
      (topics topics' : List String) (fuel round : ℕ)
      → ((answer : Option (List String)) → available topics answer ≡ available topics' answer)
      → 62 ≤ fuel + round
      → round ≤ 61
      → (n : ℕ) × Ends topics' fetch elapsed round n (wait_from topics fetch elapsed fuel round)
  unfolding wait_from
  wait_from-Ends topics topics' zero round same enough soon = absurd (omega arith)
  wait_from-Ends topics topics' (suc fuel) round same enough soon =
      elim (Bool-cases (available topics (fetch round))) [
        | inl there ↦ (0, rw (there, wait_from) (sym (same (fetch round)) ∙ there))
        | inr missing ↦ elim (Bool-cases (ltb 60000 (elapsed round))) [
          | inl late ↦
              (0, rw (missing, late, wait_from) (sym (same (fetch round)) ∙ missing, ground arith))
          | inr early ↦
              let (n, ends) =
                wait_from-Ends topics topics' fuel (suc round) same (omega arith)
                  (ground (arith, elapsed_bound round)) in
              (
                suc n,
                rw (missing, early, wait_from)
                    (sym (same (fetch round)) ∙ missing, ground arith, ends),
              )
        ]
      ]

  -- Where at least a second goes by from round to round, the wait for the topics ends, and 62
  -- rounds are enough: in the first round in which the broker names every topic of the
  -- configuration, or in which more than a minute is over.
  pub wait_for_topics-Ends :
      (c : Config)
      → (n : ℕ) × Ends (used_topics c) fetch elapsed 0 n (wait_for_topics c fetch elapsed)
  unfolding wait_for_topics
  wait_for_topics-Ends c =
      wait_from-Ends (awaited_topics c) (used_topics c) 62 0 (available-awaited c) (omega arith)
        (omega arith)
