-- ===== src/Startup/Boot.antt =====
-- Fallible steps that start services on their way: what was started stays, whatever fails later.
use cria.Prelude.{List, [], ◌∷◌, ◌++◌}
use cria.Config.Parse.{Result, ok, err}

module _ {S : Type 0} where
  abbrev pub after :
      {A B : Type 0} → List S → Result A → (A → List S × Result B) → List S × Result B
  after started (err message) next = (started, err message)
  after started (ok a) next = (started ++ (next a).0, (next a).1)

  infixl 5 ◌>>=◌
  abbrev pub ◌>>=◌ :
      {A B : Type 0} → List S × Result A → (A → List S × Result B) → List S × Result B
  x >>= next = after x.0 x.1 next

  infixl 5 ◌>>◌
  abbrev pub ◌>>◌ : {A B : Type 0} → List S × Result A → List S × Result B → List S × Result B
  x >> next = x >>= λ a. next

  -- A step that starts nothing.
  abbrev pub attempt : {A : Type 0} → Result A → List S × Result A
  attempt r = ([], r)

  abbrev pub starts : S → List S × Result Unit
  starts s = (s ∷ [], ok tt)
