-- ===== src/Store/Redact.antt =====
-- src/storage/receipts/redact.ts: values under secret-shaped keys are replaced before a write.
pub mod Clean
use Prim.Native.Char.{code}
use Prim.Native.String
use agent_commerce.Prelude.{
  Bool, List, String, [], eqb, false, if◌then◌else◌, leb, map, true, ℕ, ◌&&◌, ◌++◌, ◌+◌, ◌==◌, ◌||◌,
  ◌∷◌,
}
use agent_commerce.Json.{
  Fields, Items, Json, array, boolean, end, field, item, nil, null, number, object, string,
}

abbrev codes : String → List ℕ
codes String.[] = []
codes (String.◌∷◌ c s) = code c ∷ codes s

-- The elements of SECRET_KEY_PATTERN: a letter, `[-_ ]?` and `[-_]?`.
pub data Piece : Type 0 where
  letter : ℕ → Piece
  sep : Piece
  dash : Piece

-- The flag `i`, for a pattern of ASCII letters.
lower : ℕ → ℕ
lower c = if leb b'A' c && leb c b'Z' then c + 32 else c

is_dash : ℕ → Bool
is_dash c = eqb c b'-' || eqb c b'_'

is_sep : ℕ → Bool
unfolding is_dash
is_sep c = is_dash c || eqb c 32

matches_here : List Piece → List ℕ → Bool
unfolding lower is_sep is_dash
matches_here [] s = true
matches_here (letter c ∷ p) [] = false
matches_here (letter c ∷ p) (x ∷ s) = eqb (lower x) c && matches_here p s
matches_here (sep ∷ p) [] = matches_here p []
matches_here (sep ∷ p) (x ∷ s) = (is_sep x && matches_here p s) || matches_here p (x ∷ s)
matches_here (dash ∷ p) [] = matches_here p []
matches_here (dash ∷ p) (x ∷ s) = (is_dash x && matches_here p s) || matches_here p (x ∷ s)

matches_in : List Piece → List ℕ → Bool
unfolding matches_here
matches_in p [] = matches_here p []
matches_in p (x ∷ s) = matches_here p (x ∷ s) || matches_in p s

abbrev word : String → List Piece
word w = map letter (codes w)

abbrev joined : String → Piece → String → List Piece
joined a s b = word a ++ s ∷ word b

abbrev secret_words : List (List Piece)
secret_words =
    joined "private" sep "key"
    ∷ word "secret"
    ∷ word "password"
    ∷ word "mnemonic"
    ∷ joined "seed" sep "phrase"
    ∷ joined "api" sep "key"
    ∷ word "authorize"
    ∷ word "authorization"
    ∷ joined "auth" dash "header"
    ∷ joined "payment" sep "proof"
    ∷ word "x-payment"
    ∷ word "signature"
    ∷ joined "signed" sep "message"
    ∷ word "token"
    ∷ word "bearer"
    ∷ word "credential"
    ∷ word "cookie"
    ∷ word "session"
    ∷ word "jwt"
    ∷ []

any_matches : List (List Piece) → List ℕ → Bool
unfolding matches_in
any_matches [] s = false
any_matches (p ∷ ps) s = matches_in p s || any_matches ps s

-- `^auth$` and `^proof$`
is_word : List ℕ → List ℕ → Bool
unfolding lower
is_word [] [] = true
is_word (c ∷ w) (x ∷ s) = eqb (lower x) c && is_word w s
is_word _ _ = false

unfoldable pub is_secret_key : String → Bool
unfolding any_matches is_word
is_secret_key key =
    is_word (codes "auth") (codes key)
    || is_word (codes "proof") (codes key)
    || any_matches secret_words (codes key)

abbrev pub redacted : Json
redacted = string "[REDACTED]"

-- Assigning `out['__proto__']` sets the prototype and makes no field.
abbrev pub is_proto : String → Bool
is_proto key = key == "__proto__"

unfoldable mutual
  pub redact : Json → Json
  redact null = null
  redact (boolean b) = boolean b
  redact (number n) = number n
  redact (string s) = string s
  redact (array xs) = array (redact_items xs)
  redact (object fs) = object (redact_fields fs)

  pub redact_items : Items → Items
  redact_items nil = nil
  redact_items (item x xs) = item (redact x) (redact_items xs)

  pub redact_fields : Fields → Fields
  redact_fields end = end
  redact_fields (field k v fs) =
      if is_proto k
      then redact_fields fs
      else field k (if is_secret_key k then redacted else redact v) (redact_fields fs)
