-- ===== src/Config/Parse.antt =====
-- The readers of single variables: `env_or`, `optional_env`, `parse_env` and the standard parsers.
use Prim.Native.Char.{code}
use Prim.Native.String.{[], ◌∷◌, ◌++◌}
use cria.Prelude.{
  refl, ℕ, ◌+◌, ◌-◌, ◌*◌, ◌^◌, ◌<◌, String, ◌≡◌, Bool, true, false, ◌&&◌, Option, none, some,
  or_else, str_eq, leb, ltb, ◌==◌, if◌then◌else◌, arith,
}
use cria.Text.{trim, is_empty}

-- `anyhow::Result`, with the message of the error.
pub data Result (A : Type 0) : Type 0 where
  ok : A → Result A
  err : String → Result A

infixl 5 ◌>>=◌
abbrev pub ◌>>=◌ : {T U : Type 0} → Result T → (T → Result U) → Result U
err message >>= next = err message
ok t >>= next = next t

infixl 5 ◌>>◌
abbrev pub ◌>>◌ : {T U : Type 0} → Result T → Result U → Result U
step >> next = step >>= λ t. next

unfoldable pub env_or : (String → Option String) → String → String → String
env_or env key default = or_else (env key) default

unfoldable pub optional_env : (String → Option String) → String → Option String
optional_env env key = elim (env key) [
  | none ↦ none
  | some value ↦ if is_empty (trim value) then none else some value
]

-- `.with_context(..)` on the outcome of `parse`.
unfoldable pub parse_env :
    {T : Type 0} → (String → Option String) → (String → Option T) → String → String → Result T
parse_env env parse key default = elim (parse (env_or env key default)) [
  | none ↦ err ("invalid value for " ++ key)
  | some value ↦ ok value
]

-- The digits of a decimal numeral, behind those read so far.
unfoldable pub digits : ℕ → String → Option ℕ
digits n [] = some n
digits n (c ∷ s) =
    let rest = digits (n * 10 + (code c - 48)) s in
    if leb 48 (code c) && leb (code c) 57 then rest else none

below : ℕ → Option ℕ → Option ℕ
below bound none = none
below bound (some n) = if ltb n bound then some n else none

unsigned : ℕ → String → Option ℕ
unsigned bound [] = none
unsigned bound (c ∷ s) = below bound (digits 0 (c ∷ s))

strip_plus : String → String
strip_plus [] = []
strip_plus (c ∷ s) = if code c == 43 then s else c ∷ s

-- `FromStr` of the unsigned integers of a width: digits behind an optional `+`, in range.
unfoldable pub parse_uint : ℕ → String → Option ℕ
unfolding digits below unsigned strip_plus
parse_uint width s = unsigned (2 ^ width) (strip_plus s)

-- `FromStr` of `bool`.
unfoldable pub parse_bool : String → Option Bool
parse_bool s = if str_eq s "true" then some true else if str_eq s "false" then some false else none

-- `FromStr` of `SocketAddr`, which accepts some texts.
unfoldable pub parse_addr : (String → Bool) → String → Option String
parse_addr is_addr s = if is_addr s then some s else none

-- A number that is read fits its width.
pub parse_uint-lt : (width : ℕ) (s : String) {n : ℕ} → parse_uint width s ≡ some n → n < 2 ^ width
unfolding parse_uint
parse_uint-lt width s h = unsigned-lt (2 ^ width) (strip_plus s) h
  where
    below-lt : (bound : ℕ) (o : Option ℕ) {n : ℕ} → below bound o ≡ some n → n < bound
    below-lt bound none h = cc
    below-lt bound (some m) h = ground arith

    unsigned-lt : (bound : ℕ) (s : String) {n : ℕ} → unsigned bound s ≡ some n → n < bound
    unsigned-lt bound [] h = cc
    unsigned-lt bound (c ∷ s) h = below-lt bound (digits 0 (c ∷ s)) h

-- A step that ran to the end ran on what the step before it returned.
pub >>=-eq-ok :
    {T U : Type 0} {u : U} (step : Result T) (next : T → Result U)
    → (step >>= next) ≡ ok u
    → (t : T) × (step ≡ ok t) × (next t ≡ ok u)
>>=-eq-ok (err message) next ran = cc
>>=-eq-ok (ok t) next ran = (t, refl, ran)
