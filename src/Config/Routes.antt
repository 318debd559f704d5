-- ===== src/Config/Routes.antt =====
-- `parse_model_routes`.
pub mod Laws
pub mod RoundTrip
use Prim.Native.String.{◌++◌}
use cria.Prelude.{
  ℕ, String, ◌≡◌, Bool, true, false, not, ◌||◌, Option, none, some, or_else, List, [], ◌∷◌, str_eq,
  if◌then◌else◌,
}
use cria.Text.{trim, is_empty, split, split_once}
use cria.HashMap
use cria.HashMap.{HashMap}
use cria.Config.Parse.{Result, ok, err, ◌>>=◌}

-- `bail!` on an entry.
abbrev pub invalid_entry : String → Result (HashMap String)
invalid_entry entry = err ("invalid MODEL_ROUTES entry: " ++ entry)

-- The body of the loop, on an entry that is trimmed and not empty.
unfoldable pub add_entry : HashMap String → String → Result (HashMap String)
add_entry routes entry = elim (split_once 61 entry) [
  | none ↦ invalid_entry entry
  | some (left, right) ↦
      let model_id = trim left in
      let topic = trim right in
      if is_empty model_id || is_empty topic
      then invalid_entry entry
      else ok (HashMap.insert routes model_id topic)
]

-- The loop over the parts between commas, with its `map` and `filter`.
unfoldable pub add_entries : HashMap String → List String → Result (HashMap String)
unfolding add_entry
add_entries routes [] = ok routes
add_entries routes (part ∷ parts) = elim (is_empty (trim part)) [
  | true ↦ add_entries routes parts
  | false ↦ add_entry routes (trim part) >>= λ routes'. add_entries routes' parts
]

unfoldable pub parse_model_routes : String → String → String → Result (HashMap String)
unfolding add_entries
parse_model_routes raw default_model_id default_topic = do
  routes ← add_entries HashMap.empty (split 44 raw)
  ok (HashMap.or_insert routes default_model_id default_topic)
