-- ===== src/Worker/Backend.antt =====
-- workers/python/inference_worker/backends: what a backend's `generate` is to the worker, and the mock
-- backend. The generator of another backend is a parameter.
use Prim.Native.Char.{code}
use Prim.Native.String
use Prim.Native.String.{[], ◌∷◌}
use cria.Prelude.{
  ℕ, zero, suc, ◌%◌, String, Bool, true, false, ◌&&◌, ◌||◌, Option, none, some, List, length, leb,
  if◌then◌else◌,
}
use cria.Text.{is_whitespace, onto_first}
use cria.Worker.Events.{SamplingOptions}

pub record GeneratedToken : Type 0 where
  pub text : String
  pub probability : ℕ

-- A Python generator of tokens, from where it stands: it returns, raises an exception, asks
-- `should_cancel` and goes on by the answer, or yields a token and can be resumed. It ends, for a
-- backend yields at most `max_tokens` tokens.
pub data Generator : Type 0 where
  returns : Generator
  raises : String → Generator
  asks : (Bool → Generator) → Generator
  yields : GeneratedToken → Generator → Generator

-- `InferenceBackend`, by its `generate`.
abbrev pub InferenceBackend : Type 0
InferenceBackend = String → ℕ → SamplingOptions → Generator

-- `str.isspace` of a character: white space, and the four separators of ASCII.
abbrev pub is_space : ℕ → Bool
is_space c = is_whitespace c || (leb 0x1c c && leb c 0x1f)

abbrev pub starts_word : String → Bool
starts_word [] = false
starts_word (c ∷ s) = if is_space (code c) then false else true

-- `str.split()`: the runs of characters that are not white space.
unfoldable pub split_words : String → List String
split_words [] = List.[]
split_words (c ∷ s) =
    let rest = split_words s in
    if is_space (code c)
    then rest
    else if starts_word s
    then onto_first c rest
    else List.◌∷◌ (c ∷ []) rest

-- `s[:n]`.
unfoldable pub take : ℕ → String → String
take zero s = []
take (suc n) [] = []
take (suc n) (c ∷ s) = c ∷ take n s

-- `xs[i]`; `none` is the `IndexError`.
abbrev pub get_elem? : List String → ℕ → Option String
get_elem? List.[] i = none
get_elem? (List.◌∷◌ x xs) zero = some x
get_elem? (List.◌∷◌ x xs) (suc i) = get_elem? xs i

-- The bit pattern of `1.0`.
abbrev pub one : ℕ
one = 1065353216

abbrev pub mock_token : String → GeneratedToken
mock_token word = record { text = String.◌++◌ word " "; probability = one }

abbrev pub yields_word : Option String → Generator → Generator
yields_word none rest = raises "list index out of range"
yields_word (some word) rest = yields (mock_token word) rest

-- The loop of `MockBackend.generate` from an index on, with so many rounds left.
unfoldable pub generate_from : List String → ℕ → ℕ → Generator
generate_from words idx zero = returns
generate_from words idx (suc left) =
    let rest = generate_from words (suc idx) left in
    asks (λ stop. if stop then returns else yields_word (get_elem? words (idx % length words)) rest)

abbrev pub mock_words : String → List String
mock_words prompt =
    split_words
      (String.◌++◌ "This is a mock distributed inference response for: " (take 120 prompt))

-- `MockBackend.generate`. The pause before a token is left out.
unfoldable pub mock_backend : InferenceBackend
unfolding generate_from split_words take
mock_backend prompt max_tokens sampling = generate_from (mock_words prompt) 0 max_tokens
