-- ===== src/Text/Trim.antt =====
-- What is left after `trim`.
use Prim.Native.Char.{Char, code}
use Prim.Native.String.{[], ◌∷◌}
use cria.Prelude.{String, ◌≡◌, refl, false, arith, Bool-cases, inl, inr}
use cria.Text.{is_whitespace, trim_start, before_end, trim_end, trim}

-- No white space at either end.
abbrev pub IsTrimmed : String → Type 0
IsTrimmed s = (trim_start s ≡ s) × (trim_end s ≡ s)

trim_end-before_end :
    (c : Char) (s : String) → trim_end s ≡ s → trim_end (before_end c s) ≡ before_end c s
unfolding trim_end
trim_end-before_end c [] h = elim (Bool-cases (is_whitespace (code c))) [
  | inl blank ↦ rw blank
  | inr solid ↦ rw (solid, solid)
]
trim_end-before_end c (c' ∷ s) h = rw h

trim_end_idem : (s : String) → trim_end (trim_end s) ≡ trim_end s
unfolding trim_end
trim_end_idem [] = refl
trim_end_idem (c ∷ s) = trim_end-before_end c (trim_end s) (trim_end_idem s)

-- The head of a trimmed end is the head of the text, unless nothing is left.
trim_start-before_end :
    (c : Char) (s : String)
    → is_whitespace (code c) ≡ false
    → trim_start (before_end c s) ≡ before_end c s
unfolding trim_start
trim_start-before_end c [] h = ground arith
trim_start-before_end c (c' ∷ s) h = rw h

trim_start_then_end : (s : String) → trim_start (trim_end (trim_start s)) ≡ trim_end (trim_start s)
unfolding trim_start trim_end
trim_start_then_end [] = refl
trim_start_then_end (c ∷ s) = elim (Bool-cases (is_whitespace (code c))) [
  | inl blank ↦ rw blank (trim_start_then_end s)
  | inr solid ↦ rw solid (trim_start-before_end c (trim_end s) solid)
]

-- A trimmed text has no white space at either end.
pub trim-IsTrimmed : (s : String) → IsTrimmed (trim s)
unfolding trim
trim-IsTrimmed s = (trim_start_then_end s, trim_end_idem (trim_start s))

pub trim_of_IsTrimmed : (s : String) → IsTrimmed s → trim s ≡ s
unfolding trim
trim_of_IsTrimmed s h = rw (h.0, h.1)

pub trim_idem : (s : String) → trim (trim s) ≡ trim s
trim_idem s = trim_of_IsTrimmed (trim s) (trim-IsTrimmed s)
