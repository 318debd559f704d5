-- ===== src/Config/Models.antt =====
-- `model_ids`: what the browser is offered.
use cria.Prelude.{
  String, ◌≡◌, refl, ◌∙◌, Bool, true, false, ◌||◌, Option, none, some, List, [], ◌∷◌, map, str_eq,
  arith,
}
use cria.Table.{find}
use cria.HashMap
use cria.Config.{Config, request_topic_for_model, insert_sorted, sort, model_ids}

abbrev pub lists : String → List String → Bool
lists a [] = false
lists a (b ∷ l) = str_eq b a || lists a l

abbrev pub has_topic : Option String → Bool
has_topic none = false
has_topic (some topic) = true

lists-insert_sorted :
    (a b : String) (l : List String) → lists a (insert_sorted b l) ≡ (str_eq b a || lists a l)
unfolding insert_sorted
lists-insert_sorted a b [] = refl
lists-insert_sorted a b (x ∷ l) = ground (arith, lists-insert_sorted a b l)

lists-sort : (a : String) (l : List String) → lists a (sort l) ≡ lists a l
unfolding sort
lists-sort a [] = refl
lists-sort a (b ∷ l) = ground (arith, lists-insert_sorted a b (sort l), lists-sort a l)

lists-keys :
    (a : String) (l : List (String × String)) → lists a (map (λ e. e.0) l) ≡ has_topic (find a l)
unfolding find
lists-keys a [] = refl
lists-keys a ((k, t) ∷ l) = ground (arith, lists-keys a l)

-- A model is listed exactly if it has a topic: the browser is offered the models that a request
-- may name, and no others.
pub lists-model_ids :
    (c : Config) (a : String) → lists a (model_ids c) ≡ has_topic (request_topic_for_model c a)
unfolding model_ids request_topic_for_model HashMap.keys HashMap.get
lists-model_ids c a =
    lists-sort a (map (λ e. e.0) c.model_routes.entries) ∙ lists-keys a c.model_routes.entries
