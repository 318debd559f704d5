-- ===== src/Table/Interface.antt =====
-- `dashmap::DashMap` with `String` keys: its operations, and what the code relies on.
use cria.Prelude.{String, ◌≡◌, Option, none, some, List, str_eq, if◌then◌else◌}
use cria.Table.Entries.{find, IsUnique}

pub record DashMap : Type 1 where
  pub Map : Type 0 → Type 0
  pub empty : {V : Type 0} → Map V
  pub get : {V : Type 0} → Map V → String → Option V
  pub insert : {V : Type 0} → Map V → String → V → Map V
  pub remove : {V : Type 0} → Map V → String → Map V
  -- The entries, in an order that is not specified.
  pub iter : {V : Type 0} → Map V → List (String × V)
  pub get-empty : {V : Type 0} (k : String) → get (empty {V = V}) k ≡ none
  pub get-insert :
      {V : Type 0} (m : Map V) (k : String) (v : V) (j : String)
      → get (insert m k v) j ≡ (if str_eq k j then some v else get m j)
  pub get-remove :
      {V : Type 0} (m : Map V) (k j : String)
      → get (remove m k) j ≡ (if str_eq k j then none else get m j)
  pub find-iter : {V : Type 0} (m : Map V) (k : String) → find k (iter m) ≡ get m k
  pub iter-IsUnique : {V : Type 0} (m : Map V) → IsUnique (iter m)
