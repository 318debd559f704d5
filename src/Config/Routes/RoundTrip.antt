-- ===== src/Config/Routes/RoundTrip.antt =====
-- Routes that are written in the syntax of MODEL_ROUTES are read back.
use Prim.Native.Char.{Char, code}
use Prim.Native.String.append
use Prim.Native.String.{[], ◌∷◌, ◌++◌}
use mathlib.Core.List
use cria.Prelude.{
  ap, ◌∙◌, or_else, str_eq, ℕ, suc, ◌≤◌, String, ◌≡◌, refl, false, ◌||◌, Option, some, none, List,
  arith, Bool-cases, inl, inr, if◌then◌else◌,
}
use cria.Text.{is_whitespace, is_empty, trim_start, trim_end, trim}
use cria.Text.Trim.{trim_of_IsTrimmed}
use cria.Text.Split.{holds, AllFree, separated, split-separated, split_once-append}
use cria.HashMap
use cria.HashMap.{HashMap, get-empty, get-insert, get-or_insert}
use cria.Config.Parse.{ok}
use cria.Config.Routes.{add_entry, add_entries, parse_model_routes}
use cria.Config.Routes.Laws.{IsName}

abbrev size : String → ℕ
size [] = 0
size (c ∷ s) = suc (size s)

size-trim_start : (s : String) → size (trim_start s) ≤ size s
unfolding trim_start
size-trim_start [] = omega arith
size-trim_start (c ∷ s) = ground (arith, size-trim_start s)

-- The head of a text that is trimmed at its start is no white space.
solid_head : (c : Char) (s : String) → trim_start (c ∷ s) ≡ c ∷ s → is_whitespace (code c) ≡ false
unfolding trim_start
solid_head c s h = elim (Bool-cases (is_whitespace (code c))) [
  | inl blank ↦
      let shorter : trim_start s ≡ c ∷ s = rw (blank, trim_start) at h in
      absurd (omega (arith, size-trim_start s, ap size shorter))
  | inr solid ↦ solid
]

trim_start-append :
    (a b : String) → trim_start a ≡ a → is_empty a ≡ false → trim_start (a ++ b) ≡ a ++ b
unfolding trim_start
trim_start-append [] b h ne = cc
trim_start-append (c ∷ a) b h ne = rw (append.cons, solid_head c a h)

trim_end-cons :
    (c : Char) (s : String) → trim_end s ≡ s → is_empty s ≡ false → trim_end (c ∷ s) ≡ c ∷ s
unfolding trim_end
trim_end-cons c [] h ne = cc
trim_end-cons c (c' ∷ s) h ne = rw h

trim_end-append :
    (a b : String)
    → trim_end b ≡ b
    → is_empty b ≡ false
    → (trim_end (a ++ b) ≡ a ++ b) × (is_empty (a ++ b) ≡ false)
trim_end-append [] b h ne = rw append.nil (h, ne)
trim_end-append (c ∷ a) b h ne =
    let (still, some_left) = trim_end-append a b h ne in
    rw append.cons (trim_end-cons c (a ++ b) still some_left, refl)

abbrev pub comma : Char
comma = ","

abbrev equals : Char
equals = "="

-- `model=topic`.
pub write_route : String × String → String
write_route (k, t) = k ++ (equals ∷ t)

-- Both are names, neither holds a comma, and the model holds no `=`.
pub record IsRoute (r : String × String) : Type 0 where
  pub model : IsName r.0
  pub topic : IsName r.1
  pub no_equals : holds 61 r.0 ≡ false
  pub no_comma : holds 44 r.0 ≡ false
  pub no_comma_topic : holds 44 r.1 ≡ false

abbrev pub AllRoutes : List (String × String) → Type 0
AllRoutes List.[] = Unit
AllRoutes (List.◌∷◌ r rs) = IsRoute r × AllRoutes rs

holds-append : (x : ℕ) (a b : String) → holds x (a ++ b) ≡ (holds x a || holds x b)
holds-append x [] b = rw append.nil
holds-append x (c ∷ a) b = rw append.cons (ground (arith, holds-append x a b))

write_route-trimmed :
    (k t : String)
    → IsRoute (k, t)
    → (trim (write_route (k, t)) ≡ write_route (k, t))
      × (is_empty (write_route (k, t)) ≡ false)
      × (holds 44 (write_route (k, t)) ≡ false)
unfolding write_route
write_route-trimmed k t r =
    let end = trim_end-append k (equals ∷ t) (trim_end-cons equals t r.topic.0.1 r.topic.1) refl in
    (
      trim_of_IsTrimmed _ (trim_start-append k (equals ∷ t) r.model.0.0 r.model.1, end.0),
      end.1,
      rw holds-append (ground (arith, r.no_comma, r.no_comma_topic)),
    )

add_entry-write_route :
    (m : HashMap String) (k t : String)
    → IsRoute (k, t)
    → add_entry m (write_route (k, t)) ≡ ok (HashMap.insert m k t)
unfolding add_entry write_route
add_entry-write_route m k t r = ground (
  arith,
  split_once-append equals k t r.no_equals,
  trim_of_IsTrimmed k r.model.0,
  trim_of_IsTrimmed t r.topic.0,
  r.model.1,
  r.topic.1,
)

-- One round of the loop, on a part that names a route.
add_entries-cons :
    (m m' : HashMap String) (part : String) (parts : List String)
    → is_empty (trim part) ≡ false
    → add_entry m (trim part) ≡ ok m'
    → add_entries m (List.◌∷◌ part parts) ≡ add_entries m' parts
unfolding add_entries
add_entries-cons m m' part parts full added = ground arith

insert_all : HashMap String → List (String × String) → HashMap String
insert_all m List.[] = m
insert_all m (List.◌∷◌ (k, t) rs) = insert_all (HashMap.insert m k t) rs

add_entries-written :
    (m : HashMap String) (rs : List (String × String))
    → AllRoutes rs
    → add_entries m (List.map write_route rs) ≡ ok (insert_all m rs)
unfolding add_entries insert_all
add_entries-written m List.[] h = refl
add_entries-written m (List.◌∷◌ (k, t) rs) (r, h) =
    let (trimmed, full, free) = write_route-trimmed k t r in
    add_entries-cons m (HashMap.insert m k t) (write_route (k, t)) (List.map write_route rs)
      (ap is_empty trimmed ∙ full) (ap (add_entry m) trimmed ∙ add_entry-write_route m k t r)
    ∙ add_entries-written (HashMap.insert m k t) rs h

-- The topic that the last route of a model names, or else what was there before.
abbrev pub last_of : String → List (String × String) → Option String → Option String
last_of k List.[] o = o
last_of k (List.◌∷◌ (j, t) rs) o = last_of k rs (if str_eq j k then some t else o)

get-insert_all :
    (k : String) (m : HashMap String) (rs : List (String × String))
    → HashMap.get (insert_all m rs) k ≡ last_of k rs (HashMap.get m k)
unfolding insert_all
get-insert_all k m List.[] = refl
get-insert_all k m (List.◌∷◌ (j, t) rs) =
    get-insert_all k (HashMap.insert m j t) rs ∙ ap (last_of k rs) (get-insert m j t k)

AllFree-written :
    (rs : List (String × String)) → AllRoutes rs → AllFree 44 (List.map write_route rs)
AllFree-written List.[] h = tt
AllFree-written (List.◌∷◌ (k, t) rs) (r, h) = ((write_route-trimmed k t r).2, AllFree-written rs h)

-- Routes whose names are trimmed, not empty and free of the separators, written with = and commas,
-- are read without an error: each model has the topic that its last route names, and the default
-- model, if no route names it, the default topic.
pub parse_model_routes-written :
    (r : String × String) (rs : List (String × String)) (default_model_id default_topic k : String)
    → IsRoute r
    → AllRoutes rs
    → (routes : HashMap String) × (parse_model_routes
          (separated comma (write_route r) (List.map write_route rs))
          default_model_id
          default_topic
        ≡ ok routes)
      × (HashMap.get routes k ≡ (
          if str_eq default_model_id k
          then some (or_else (last_of default_model_id (List.◌∷◌ r rs) none) default_topic)
          else last_of k (List.◌∷◌ r rs) none))
unfolding parse_model_routes
parse_model_routes-written (m, t) rs d dt k h hs = (
  HashMap.or_insert (insert_all HashMap.empty (List.◌∷◌ (m, t) rs)) d dt,
  rw
      (
        split-separated comma (write_route (m, t)) (List.map write_route rs)
            (write_route-trimmed m t h).2 (AllFree-written rs hs),
        add_entries-written HashMap.empty (List.◌∷◌ (m, t) rs) (h, hs),
      )
      refl,
  rw
      (
        get-or_insert,
        get-insert_all d HashMap.empty (List.◌∷◌ (m, t) rs),
        get-insert_all k HashMap.empty (List.◌∷◌ (m, t) rs),
        get-empty d,
        get-empty k,
      )
      refl,
)
