-- ===== src/HashMap.antt =====
-- `std::collections::HashMap` with `String` keys, as control-plane/src/config.rs and the producer in
-- control-plane/src/kafka/mod.rs use it. The order of the entries is nowhere relied on.
use cria.Prelude.{
  or_else, Option-cases, inl, inr, arith, eq_iff, String, ◌≡◌, refl, Option, none, some, List, map,
  str_eq, if◌then◌else◌,
}
use cria.Table.{Assoc, nothing, put, found-put, find}

abbrev pub HashMap : Type 0 → Type 0
HashMap V = Assoc V

module _ {V : Type 0} where
  unfoldable pub empty : HashMap V
  empty = nothing

  unfoldable pub get : HashMap V → String → Option V
  unfolding find
  get m k = find k m.entries

  unfoldable pub insert : HashMap V → String → V → HashMap V
  unfolding put
  insert m k v = put m k v

  -- `entry(k).or_insert_with(|| v)`.
  unfoldable pub or_insert : HashMap V → String → V → HashMap V
  or_insert m k v = elim (get m k) [ some w ↦ m | none ↦ insert m k v ]

  unfoldable pub keys : HashMap V → List String
  keys m = map (λ e. e.0) m.entries

  pub get-empty : (k : String) → get empty k ≡ none
  unfolding get empty
  get-empty k = refl

  pub get-insert :
      (m : HashMap V) (k : String) (v : V) (j : String)
      → get (insert m k v) j ≡ (if str_eq k j then some v else get m j)
  unfolding get insert
  get-insert m k v j = found-put m k v j

  -- A route that is there stays, and one that is missing is added.
  pub get-or_insert :
      (m : HashMap V) (k : String) (v : V) (j : String)
      → get (or_insert m k v) j ≡ (if str_eq k j then some (or_else (get m k) v) else get m j)
  unfolding or_insert
  get-or_insert m k v j = elim (Option-cases (get m k)) [
    | inl missing ↦ ground (arith, get-insert m k v j)
    | inr (w, there) ↦ ground (arith, eq_iff k j)
  ]
