-- ===== src/Config/Routes/Laws.antt =====
-- What a successful reading of the routes guarantees, and when it fails.
use cria.Prelude.{
  or_else, eq_refl, ◌⊎◌, String, ◌≡◌, false, ◌||◌, some, List, [], ◌∷◌, str_eq, eq_iff, arith,
  Bool-cases, Option-cases, inl, inr,
}
use mathlib.Core.Path.{subst, subst₂}
use cria.Text.{trim, is_empty, split, split_once}
use cria.Text.Trim.{IsTrimmed, trim-IsTrimmed}
use cria.HashMap
use cria.HashMap.{HashMap, get-empty, get-insert, get-or_insert}
use cria.Config.Parse.{ok, >>=-eq-ok}
use cria.Config.Routes.{add_entry, add_entries, parse_model_routes}

-- Trimmed, and not empty.
abbrev pub IsName : String → Type 0
IsName s = IsTrimmed s × (is_empty s ≡ false)

abbrev AllNamed : HashMap String → Type 0
AllNamed m = (k t : String) → HashMap.get m k ≡ some t → IsName k × IsName t

inserted_named :
    (m : HashMap String) (a b : String)
    → AllNamed m
    → is_empty (trim a) ≡ false
    → is_empty (trim b) ≡ false
    → AllNamed (HashMap.insert m (trim a) (trim b))
inserted_named m a b h ha hb k t e = elim (Bool-cases (str_eq (trim a) k)) [
  | inl same ↦
      subst₂ (λ x y. IsName x × IsName y) ((eq_iff (trim a) k).0 same)
        (ground (arith, get-insert m (trim a) (trim b) k))
        ((trim-IsTrimmed a, ha), (trim-IsTrimmed b, hb))
  | inr other ↦ h k t (ground (arith, get-insert m (trim a) (trim b) k))
]

add_entry-named :
    (m m' : HashMap String) (entry : String) → AllNamed m → add_entry m entry ≡ ok m' → AllNamed m'
unfolding add_entry
add_entry-named m m' entry h e = elim (Option-cases (split_once 61 entry)) [
  | inl missing ↦ absurd (ground (arith, missing))
  | inr ((a, b), cut) ↦ elim (Bool-cases (is_empty (trim a) || is_empty (trim b))) [
    | inl blank ↦ absurd (ground (arith, cut, blank))
    | inr full ↦
        subst AllNamed (ground (arith, cut, full))
          (inserted_named m a b h (ground (arith, full)) (ground (arith, full)))
  ]
]

add_entries-named :
    (parts : List String) (m m' : HashMap String)
    → AllNamed m
    → add_entries m parts ≡ ok m'
    → AllNamed m'
unfolding add_entries
add_entries-named [] m m' h e = subst AllNamed (ground arith) h
add_entries-named (part ∷ parts) m m' h e = elim (Bool-cases (is_empty (trim part))) [
  | inl blank ↦ add_entries-named parts m m' h (rw (blank, add_entries) at e)
  | inr full ↦
      let (mid, added, rest) =
        >>=-eq-ok (add_entry m (trim part)) (λ r. add_entries r parts)
          (rw (full, add_entries) at e) in
      add_entries-named parts mid m' (add_entry-named m mid (trim part) h added) rest
]

AllNamed-empty : AllNamed HashMap.empty
AllNamed-empty k t h = absurd (ground (arith, get-empty {V = String} k))

-- The default model has a topic.
pub parse_model_routes-default :
    (raw default_model_id default_topic : String) {routes : HashMap String}
    → parse_model_routes raw default_model_id default_topic ≡ ok routes
    → (t : String) × (HashMap.get routes default_model_id ≡ some t)
unfolding parse_model_routes
parse_model_routes-default raw d dt p =
    let (listed, read, rest) =
      >>=-eq-ok (add_entries HashMap.empty (split 44 raw)) (λ r. ok (HashMap.or_insert r d dt)) p in
    (or_else (HashMap.get listed d) dt, ground (arith, get-or_insert listed d dt d, eq_refl d))

-- From a text that is read without an error the default model has a topic, and each route of
-- another model goes from a name to a name: both are trimmed and not empty.
pub parse_model_routes-named :
    (raw default_model_id default_topic k t : String) {routes : HashMap String}
    → parse_model_routes raw default_model_id default_topic ≡ ok routes
    → HashMap.get routes k ≡ some t
    → ((t' : String) × (HashMap.get routes default_model_id ≡ some t'))
      × ((k ≡ default_model_id) ⊎ (IsName k × IsName t))
unfolding parse_model_routes
parse_model_routes-named raw d dt k t p g =
    let (listed, read, rest) =
      >>=-eq-ok (add_entries HashMap.empty (split 44 raw)) (λ r. ok (HashMap.or_insert r d dt)) p in
    let named : AllNamed listed =
      add_entries-named (split 44 raw) HashMap.empty listed AllNamed-empty read in
    (
      (or_else (HashMap.get listed d) dt, ground (arith, get-or_insert listed d dt d, eq_refl d)),
      elim (Bool-cases (str_eq d k)) [
        | inl same ↦ inl (ground (arith, eq_iff d k))
        | inr other ↦ inr (named k t (ground (arith, get-or_insert listed d dt k)))
      ],
    )
