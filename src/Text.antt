-- ===== src/Text.antt =====
-- What the control plane uses of Rust's `str`: `trim`, `split`, `split_once`, `is_empty`, `join` and
-- the decimal print of a number. A text is a list of characters, and `len` counts bytes of UTF-8.
pub mod Trim
pub mod Split
use Prim.Native.Char.{Char, code}
use Prim.Native.String
use Prim.Native.String.{[], ◌∷◌}
use cria.Prelude.{
  ℕ, zero, suc, ◌+◌, ◌/◌, ◌%◌, String, Bool, true, false, ◌&&◌, ◌||◌, Option, none, some, List, leb,
  ltb, ◌==◌, if◌then◌else◌,
}
use mathlib.Core.List

-- `char::is_whitespace`: the White_Space property of Unicode.
unfoldable pub is_whitespace : ℕ → Bool
is_whitespace c =
    (leb 0x9 c && leb c 0xd)
    || c == 0x20
    || c == 0x85
    || c == 0xa0
    || c == 0x1680
    || (leb 0x2000 c && leb c 0x200a)
    || c == 0x2028
    || c == 0x2029
    || c == 0x202f
    || c == 0x205f
    || c == 0x3000

abbrev pub is_empty : String → Bool
is_empty [] = true
is_empty (c ∷ s) = false

unfoldable pub trim_start : String → String
trim_start [] = []
trim_start (c ∷ s) = let rest = trim_start s in if is_whitespace (code c) then rest else c ∷ s

-- A character in front of what is left behind it; white space at the very end goes.
abbrev pub before_end : Char → String → String
before_end c [] = if is_whitespace (code c) then [] else c ∷ []
before_end c (c' ∷ s) = c ∷ (c' ∷ s)

unfoldable pub trim_end : String → String
trim_end [] = []
trim_end (c ∷ s) = before_end c (trim_end s)

unfoldable pub trim : String → String
unfolding trim_start trim_end
trim s = trim_end (trim_start s)

-- A character in front of the first part.
abbrev pub onto_first : Char → List String → List String
onto_first c List.[] = List.◌∷◌ (c ∷ []) List.[]
onto_first c (List.◌∷◌ p ps) = List.◌∷◌ (c ∷ p) ps

-- `split(sep)`: the parts between the separators, one more than there are separators.
unfoldable pub split : ℕ → String → List String
split sep [] = List.◌∷◌ [] List.[]
split sep (c ∷ s) =
    let parts = split sep s in if code c == sep then List.◌∷◌ [] parts else onto_first c parts

abbrev pub onto_left : Char → Option (String × String) → Option (String × String)
onto_left c none = none
onto_left c (some (a, b)) = some (c ∷ a, b)

-- `split_once(sep)`: around the first separator.
unfoldable pub split_once : ℕ → String → Option (String × String)
split_once sep [] = none
split_once sep (c ∷ s) =
    let rest = split_once sep s in if code c == sep then some ([], s) else onto_left c rest

-- `join(sep)`.
unfoldable pub join : String → List String → String
join sep List.[] = []
join sep (List.◌∷◌ p List.[]) = p
join sep (List.◌∷◌ p (List.◌∷◌ q ps)) = String.◌++◌ p (String.◌++◌ sep (join sep (List.◌∷◌ q ps)))

digit : ℕ → Char
digit zero = "0"
digit (suc zero) = "1"
digit (suc (suc zero)) = "2"
digit (suc (suc (suc zero))) = "3"
digit (suc (suc (suc (suc zero)))) = "4"
digit (suc (suc (suc (suc (suc zero))))) = "5"
digit (suc (suc (suc (suc (suc (suc zero)))))) = "6"
digit (suc (suc (suc (suc (suc (suc (suc zero))))))) = "7"
digit (suc (suc (suc (suc (suc (suc (suc (suc zero)))))))) = "8"
digit _ = "9"

-- The decimal digits of a number, in front of those that are there; each round takes one fuel.
show_digits : ℕ → ℕ → String → String
show_digits zero n behind = behind
show_digits (suc fuel) n behind =
    let rest = show_digits fuel (n / 10) (digit (n % 10) ∷ behind) in
    if ltb n 10 then digit n ∷ behind else rest

-- `Display` of an unsigned integer. A number has no more digits than it counts, plus one.
unfoldable pub show : ℕ → String
unfolding digit show_digits
show n = show_digits (suc n) n []
