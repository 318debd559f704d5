-- ===== src/Text/Split.antt =====
-- `split` and `split_once` undo the writing of parts with separators.
use Prim.Native.Char.{Char, code}
use Prim.Native.String.append
use Prim.Native.String.{[], ◌∷◌, ◌++◌}
use cria.Prelude.{ℕ, String, ◌≡◌, refl, Bool, false, ◌||◌, some, List, ◌==◌, arith}
use cria.Text.{split, split_once}

-- A text holds a character.
abbrev pub holds : ℕ → String → Bool
holds x [] = false
holds x (c ∷ s) = code c == x || holds x s

-- No text of the list holds it.
abbrev pub AllFree : ℕ → List String → Type 0
AllFree x List.[] = Unit
AllFree x (List.◌∷◌ p ps) = (holds x p ≡ false) × AllFree x ps

-- The parts with a separator between them.
unfoldable pub separated : Char → String → List String → String
separated sep p List.[] = p
separated sep p (List.◌∷◌ q ps) = p ++ (sep ∷ separated sep q ps)

split-free : (x : ℕ) (s : String) → holds x s ≡ false → split x s ≡ List.◌∷◌ s List.[]
unfolding split
split-free x [] h = refl
split-free x (c ∷ s) h = ground (arith, split-free x s)

split-append :
    (sep : Char) (p rest : String)
    → holds (code sep) p ≡ false
    → split (code sep) (p ++ (sep ∷ rest)) ≡ List.◌∷◌ p (split (code sep) rest)
unfolding split
split-append sep [] rest h = rw append.nil (ground arith)
split-append sep (c ∷ p) rest h = rw append.cons (ground (arith, split-append sep p rest))

pub split-separated :
    (sep : Char) (p : String) (ps : List String)
    → holds (code sep) p ≡ false
    → AllFree (code sep) ps
    → split (code sep) (separated sep p ps) ≡ List.◌∷◌ p ps
unfolding separated
split-separated sep p List.[] h hs = split-free (code sep) p h
split-separated sep p (List.◌∷◌ q ps) h hs =
    rw (split-append sep p (separated sep q ps) h, split-separated sep q ps hs.0 hs.1) refl

pub split_once-append :
    (sep : Char) (a b : String)
    → holds (code sep) a ≡ false
    → split_once (code sep) (a ++ (sep ∷ b)) ≡ some (a, b)
unfolding split_once
split_once-append sep [] b h = rw append.nil (ground arith)
split_once-append sep (c ∷ a) b h = rw append.cons (ground (arith, split_once-append sep a b))
