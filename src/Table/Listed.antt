-- ===== src/Table/Listed.antt =====
-- An association list has the behaviour that the interface asks for.
use cria.Prelude.{
  String, ◌≡◌, refl, Option, none, some, List, [], ◌∷◌, str_eq, eq_refl, arith, if◌then◌else◌,
}
use cria.Table.Entries.{find, IsUnique, without, find-without, without-IsUnique}
use cria.Table.Interface.{DashMap}

-- A list of entries in which no key stands twice.
pub record Assoc (V : Type 0) : Type 0 where
  pub entries : List (String × V)
  pub unique : IsUnique entries

module _ {V : Type 0} where
  pub put-IsUnique :
      (k : String) (v : V) (l : List (String × V)) → IsUnique l → IsUnique ((k, v) ∷ without k l)
  put-IsUnique k v l u = (ground (arith, find-without k k l, eq_refl k), without-IsUnique k l u)

  abbrev pub nothing : Assoc V
  nothing = record { entries = []; unique = tt }

  abbrev pub found : Assoc V → String → Option V
  found m k = find k m.entries

  unfoldable pub put : Assoc V → String → V → Assoc V
  unfolding without
  put m k v = record {
    entries = (k, v) ∷ without k m.entries;
    unique = put-IsUnique k v m.entries m.unique;
  }

  unfoldable pub discard : Assoc V → String → Assoc V
  unfolding without
  discard m k = record {
    entries = without k m.entries;
    unique = without-IsUnique k m.entries m.unique;
  }

  pub found-nothing : (k : String) → found nothing k ≡ none
  unfolding find
  found-nothing k = refl

  pub found-put :
      (m : Assoc V) (k : String) (v : V) (j : String)
      → found (put m k v) j ≡ (if str_eq k j then some v else found m j)
  unfolding put find
  found-put m k v j = ground (arith, find-without k j m.entries)

  pub found-discard :
      (m : Assoc V) (k j : String)
      → found (discard m k) j ≡ (if str_eq k j then none else found m j)
  unfolding discard
  found-discard m k j = find-without k j m.entries

instance abbrev pub assoc_map : DashMap
assoc_map = record {
  Map = Assoc;
  empty = nothing;
  get = found;
  insert = put;
  remove = discard;
  iter = λ m. m.entries;
  get-empty = found-nothing;
  get-insert = found-put;
  get-remove = found-discard;
  find-iter = λ m k. refl;
  iter-IsUnique = λ m. m.unique;
}
