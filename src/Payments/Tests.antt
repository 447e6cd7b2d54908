-- ===== src/Payments/Tests.antt =====
-- Amounts at concrete inputs.
use agent_commerce.Prelude.{List, [], refl, ℕ, ◌↔◌, ◌∷◌, ◌≡◌}
use agent_commerce.Core.Errors.{err, internal_error, ok, payment_invalid}
use agent_commerce.Payments.Amount.{
  decimals, digits_value, fraction_part, integer_part, is_decimal_string, not_decimals,
  parse_canonical_amount, dot,
}
use agent_commerce.Payments.Amount.Exact.{IsScaled, parsed_iff}

-- "12.05"
abbrev twelve : List ℕ
twelve = 49 ∷ 50 ∷ dot ∷ 48 ∷ 53 ∷ []

-- "1."
abbrev point_only : List ℕ
point_only = 49 ∷ dot ∷ []

-- "0.0000001"
abbrev too_fine : List ℕ
too_fine = 48 ∷ dot ∷ 48 ∷ 48 ∷ 48 ∷ 48 ∷ 48 ∷ 48 ∷ 49 ∷ []

twelve_read : parse_canonical_amount twelve (decimals 6) ≡ ok 12050000
unfolding parse_canonical_amount is_decimal_string integer_part fraction_part digits_value
twelve_read = refl

point_refused : parse_canonical_amount point_only (decimals 6) ≡ err payment_invalid
unfolding parse_canonical_amount is_decimal_string
point_refused = refl

empty_refused : parse_canonical_amount [] (decimals 6) ≡ err payment_invalid
unfolding parse_canonical_amount is_decimal_string
empty_refused = refl

fine_refused : parse_canonical_amount too_fine (decimals 6) ≡ err payment_invalid
unfolding parse_canonical_amount is_decimal_string integer_part fraction_part
fine_refused = refl

no_decimals : parse_canonical_amount twelve not_decimals ≡ err internal_error
unfolding parse_canonical_amount
no_decimals = refl

parsed_iff_example :
    (parse_canonical_amount twelve (decimals 6) ≡ ok 12050000) ↔ IsScaled twelve 6 12050000
parsed_iff_example = parsed_iff twelve 6 12050000
