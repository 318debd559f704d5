-- ===== src/Table/Entries.antt =====
-- Lists of entries with string keys.
use cria.Prelude.{
  String, ◌≡◌, refl, Option, none, some, List, [], ◌∷◌, str_eq, eq_iff, arith, if◌then◌else◌,
}

-- The first value under a key.
unfoldable pub find : {V : Type 0} → String → List (String × V) → Option V
find k [] = none
find k ((j, v) ∷ l) = if str_eq j k then some v else find k l

-- No key stands twice.
abbrev pub IsUnique : {V : Type 0} → List (String × V) → Type 0
IsUnique [] = Unit
IsUnique ((k, v) ∷ l) = (find k l ≡ none) × IsUnique l

-- The entries under other keys.
unfoldable pub without : {V : Type 0} → String → List (String × V) → List (String × V)
without k [] = []
without k ((j, v) ∷ l) = let rest = without k l in if str_eq j k then rest else (j, v) ∷ rest

module _ {V : Type 0} where
  pub find-without :
      (k j : String) (l : List (String × V))
      → find j (without k l) ≡ (if str_eq k j then none else find j l)
  unfolding find without
  find-without k j [] = ground arith
  find-without k j ((i, v) ∷ l) =
      ground (arith, find-without k j l, eq_iff i k, eq_iff i j, eq_iff k j)

  pub without-IsUnique : (k : String) (l : List (String × V)) → IsUnique l → IsUnique (without k l)
  unfolding without
  without-IsUnique k [] u = tt
  without-IsUnique k ((j, v) ∷ l) u =
      ground (arith, without-IsUnique k l u.1, find-without k j l, eq_iff j k)

  pub find-none-without : (k : String) (l : List (String × V)) → find k l ≡ none → without k l ≡ l
  unfolding find without
  find-none-without k [] h = refl
  find-none-without k ((j, v) ∷ l) h = ground (arith, find-none-without k l)
