-- ===== src/Payments/Amount.antt =====
-- src/payments/x402/amount.ts. A text is the list of its UTF-16 code units.
pub mod Exact
use agent_commerce.Prelude.{
  Bool, List, [], eqb, false, if◌then◌else◌, leb, length, ltb, not, suc, true, zero, ℕ, ◌&&◌, ◌*◌,
  ◌++◌, ◌+◌, ◌-◌, ◌∷◌,
}
use agent_commerce.Core.Errors.{Result, err, internal_error, ok, payment_invalid}

-- An asset's number of decimals, as `Number.isInteger` and the sign tell it
pub data Decimals : Type 0 where
  decimals : ℕ → Decimals
  not_decimals : Decimals

abbrev pub digit_zero : ℕ
digit_zero = 48

abbrev pub dot : ℕ
dot = 46

abbrev pub is_digit : ℕ → Bool
is_digit c = leb digit_zero c && leb c 57

-- The texts of `\d*` and of `\d+`
abbrev pub only_digits : List ℕ → Bool
only_digits [] = true
only_digits (c ∷ cs) = is_digit c && only_digits cs

abbrev pub some_digits : List ℕ → Bool
some_digits [] = false
some_digits (c ∷ cs) = is_digit c && only_digits cs

-- What may follow the first digit
abbrev pub after_digits : List ℕ → Bool
after_digits [] = true
after_digits (c ∷ cs) = if eqb c dot then some_digits cs else is_digit c && after_digits cs

-- `DECIMAL_STRING_PATTERN`
unfoldable pub is_decimal_string : List ℕ → Bool
is_decimal_string [] = false
is_decimal_string (c ∷ cs) = is_digit c && after_digits cs

-- The first and the second part of `amount.split('.')`; the second is empty where there is none.
unfoldable pub integer_part : List ℕ → List ℕ
integer_part [] = []
integer_part (c ∷ cs) = if eqb c dot then [] else c ∷ integer_part cs

unfoldable pub fraction_part : List ℕ → List ℕ
fraction_part [] = []
fraction_part (c ∷ cs) = if eqb c dot then integer_part cs else fraction_part cs

abbrev pub zeros : ℕ → List ℕ
zeros zero = []
zeros (suc n) = digit_zero ∷ zeros n

-- `padEnd`, with the digit zero
abbrev pub pad_end : List ℕ → ℕ → List ℕ
pad_end s n = s ++ zeros (n - length s)

-- `BigInt` of a text of digits, after those that make up `acc`
unfoldable pub digits_value : ℕ → List ℕ → ℕ
digits_value acc [] = acc
digits_value acc (c ∷ cs) = digits_value (acc * 10 + (c - digit_zero)) cs

abbrev pub base_units : List ℕ → List ℕ → ℕ → Result ℕ
base_units whole fraction places =
    if ltb places (length fraction)
    then err payment_invalid
    else ok (digits_value 0 (whole ++ pad_end fraction places))

-- `parseCanonicalAmount`
unfoldable pub parse_canonical_amount : List ℕ → Decimals → Result ℕ
parse_canonical_amount amount not_decimals = err internal_error
parse_canonical_amount amount (decimals places) =
    if not (is_decimal_string amount)
    then err payment_invalid
    else base_units (integer_part amount) (fraction_part amount) places
