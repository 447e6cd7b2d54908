-- ===== src/Payments/Amount/Exact.antt =====
-- `parseCanonicalAmount` of src/payments/x402/amount.ts: no amount is rounded.
use native.Mathlib.Nat.{mul_assoc, mul_comm}
use Prim.Native.Nat.pow
use agent_commerce.Prelude.{
  List, [], arith, eqb, false, refl, suc, true, zero, ℕ, ◌*◌, ◌++◌, ◌+◌, ◌-◌, ◌^◌, ◌∷◌, ◌≡◌, ◌⊎◌,
  ap, inl, length, ◌↔◌, ◌∙◌, ◌≤◌, Bool-cases, inr, sym, Bool, ◌&&◌,
}
use agent_commerce.Core.Errors.{ok}
use agent_commerce.Payments.Amount.{
  after_digits, digit_zero, digits_value, dot, fraction_part, integer_part, is_digit, only_digits,
  some_digits, zeros, decimals, parse_canonical_amount, base_units, is_decimal_string, pad_end,
}

-- The amount is written with these digits before its dot, and these after it.
abbrev pub IsWritten : List ℕ → List ℕ → List ℕ → Type 0
IsWritten amount whole fraction =
    ((amount ≡ whole) × (fraction ≡ []))
    ⊎ ((amount ≡ whole ++ (dot ∷ fraction)) × (some_digits fraction ≡ true))

and_left : (a b : Bool) → (a && b) ≡ true → a ≡ true
and_left a b h = ground arith

and_right : (a b : Bool) → (a && b) ≡ true → b ≡ true
and_right a b h = ground arith

and_both : (a b : Bool) → a ≡ true → b ≡ true → (a && b) ≡ true
and_both a b h k = ground arith

digit-eqb : (c : ℕ) → is_digit c ≡ true → eqb c dot ≡ false
digit-eqb c h = ground arith

only-integer_part : (cs : List ℕ) → only_digits cs ≡ true → integer_part cs ≡ cs
unfolding integer_part
only-integer_part [] h = refl
only-integer_part (c ∷ cs) h = ground (arith, digit-eqb c, only-integer_part cs)

only-fraction_part : (cs : List ℕ) → only_digits cs ≡ true → fraction_part cs ≡ []
unfolding fraction_part
only-fraction_part [] h = refl
only-fraction_part (c ∷ cs) h = ground (arith, digit-eqb c, only-fraction_part cs)

integer_part-append :
    (cs ds : List ℕ) → only_digits cs ≡ true → integer_part (cs ++ (dot ∷ ds)) ≡ cs
unfolding integer_part
integer_part-append [] ds h = refl
integer_part-append (c ∷ cs) ds h = ground (arith, digit-eqb c, integer_part-append cs ds)

fraction_part-append :
    (cs ds : List ℕ)
    → only_digits cs ≡ true
    → only_digits ds ≡ true
    → fraction_part (cs ++ (dot ∷ ds)) ≡ ds
unfolding fraction_part
fraction_part-append [] ds h k = only-integer_part ds k
fraction_part-append (c ∷ cs) ds h k = ground (arith, digit-eqb c, fraction_part-append cs ds)

after_digits-append :
    (cs ds : List ℕ)
    → only_digits cs ≡ true
    → some_digits ds ≡ true
    → after_digits (cs ++ (dot ∷ ds)) ≡ true
after_digits-append [] ds h k = k
after_digits-append (c ∷ cs) ds h k = ground (arith, digit-eqb c, after_digits-append cs ds)

after_digits-only : (cs : List ℕ) → only_digits cs ≡ true → after_digits cs ≡ true
after_digits-only [] h = refl
after_digits-only (c ∷ cs) h = ground (arith, digit-eqb c, after_digits-only cs)

some-only : (cs : List ℕ) → some_digits cs ≡ true → only_digits cs ≡ true
some-only [] h = cc
some-only (c ∷ cs) h = h

digits_value-append :
    (acc : ℕ) (cs ds : List ℕ) → digits_value acc (cs ++ ds) ≡ digits_value (digits_value acc cs) ds
unfolding digits_value
digits_value-append acc [] ds = refl
digits_value-append acc (c ∷ cs) ds = digits_value-append (acc * 10 + (c - digit_zero)) cs ds

digits_value-zeros : (n acc : ℕ) → digits_value acc (zeros n) ≡ acc * 10 ^ n
unfolding digits_value
digits_value-zeros zero acc = rw (pow.zero 10) (omega arith)
digits_value-zeros (suc n) acc =
    let shifted : acc * 10 + 0 ≡ acc * 10 = omega arith in
    digits_value-zeros n (acc * 10 + 0)
    ∙ rw (pow.suc 10 n, shifted)
        (mul_assoc acc 10 (10 ^ n) ∙ ap (λ x. acc * x) (mul_comm 10 (10 ^ n)))

dot-IsWritten :
    (c : ℕ) (cs : List ℕ)
    → eqb c dot ≡ true
    → some_digits cs ≡ true
    → IsWritten (c ∷ cs) [] (integer_part cs)
dot-IsWritten c cs e h = rw (only-integer_part cs (some-only cs h)) (inr (ground arith, h))

digit-IsWritten :
    (c : ℕ) (cs whole fraction : List ℕ)
    → IsWritten cs whole fraction
    → IsWritten (c ∷ cs) (c ∷ whole) fraction
digit-IsWritten c cs whole fraction (inl (same, ends)) = inl (ap (λ x. c ∷ x) same, ends)
digit-IsWritten c cs whole fraction (inr (same, goes_on)) = inr (ap (λ x. c ∷ x) same, goes_on)

after_digits-IsWritten :
    (cs : List ℕ)
    → after_digits cs ≡ true
    → (only_digits (integer_part cs) ≡ true) × IsWritten cs (integer_part cs) (fraction_part cs)
unfolding integer_part fraction_part
after_digits-IsWritten [] h = (refl, inl (refl, refl))
after_digits-IsWritten (c ∷ cs) h = elim (Bool-cases (eqb c dot)) [
  | inl at_dot ↦ rw at_dot (refl, dot-IsWritten c cs at_dot (ground arith))
  | inr digit ↦
      let rest = after_digits-IsWritten cs (ground arith) in
      rw digit (ground arith, digit-IsWritten c cs (integer_part cs) (fraction_part cs) rest.1)
]

parts-IsWritten :
    (amount : List ℕ)
    → is_decimal_string amount ≡ true
    → (some_digits (integer_part amount) ≡ true)
      × IsWritten amount (integer_part amount) (fraction_part amount)
unfolding is_decimal_string integer_part fraction_part
parts-IsWritten [] h = cc
parts-IsWritten (c ∷ cs) h =
    let rest = after_digits-IsWritten cs (and_right (is_digit c) (after_digits cs) h) in
    let digit = and_left (is_digit c) (after_digits cs) h in
    rw (digit-eqb c digit) (
      and_both (is_digit c) (only_digits (integer_part cs)) digit rest.0,
      digit-IsWritten c cs (integer_part cs) (fraction_part cs) rest.1,
    )

digits_value-pad_end :
    (whole fraction : List ℕ) (n : ℕ)
    → digits_value 0 (whole ++ pad_end fraction n)
      ≡ digits_value 0 (whole ++ fraction) * 10 ^ (n - length fraction)
digits_value-pad_end whole fraction n =
    let left = n - length fraction in
    digits_value-append 0 whole (pad_end fraction n)
    ∙ digits_value-append (digits_value 0 whole) fraction (zeros left)
    ∙ ap (λ x. digits_value x (zeros left)) (sym (digits_value-append 0 whole fraction))
    ∙ digits_value-zeros left (digits_value 0 (whole ++ fraction))

base_units_iff :
    (whole fraction : List ℕ) (places v : ℕ)
    → (base_units whole fraction places ≡ ok v) ↔ (
        (length fraction ≤ places)
        × (v ≡ digits_value 0 (whole ++ fraction) * 10 ^ (places - length fraction)))
base_units_iff whole fraction places v =
    let e = digits_value-pad_end whole fraction places in
    (λ h. (ground arith, ground arith), λ h. ground arith)

accepted_iff :
    (amount : List ℕ) (places v : ℕ)
    → (parse_canonical_amount amount (decimals places) ≡ ok v) ↔ (
        (is_decimal_string amount ≡ true)
        × (base_units (integer_part amount) (fraction_part amount) places ≡ ok v))
unfolding parse_canonical_amount
accepted_iff amount places v = ground arith

-- The parts of a text that is written with these digits
parts_written :
    (amount whole fraction : List ℕ)
    → some_digits whole ≡ true
    → IsWritten amount whole fraction
    → (is_decimal_string amount ≡ true)
      × (integer_part amount ≡ whole)
      × (fraction_part amount ≡ fraction)
unfolding is_decimal_string integer_part fraction_part
parts_written amount [] fraction h written = cc
parts_written amount (c ∷ cs) fraction h (inl (same, ends)) =
    let digit = and_left (is_digit c) (only_digits cs) h in
    let rest = and_right (is_digit c) (only_digits cs) h in
    rw (same, ends, digit-eqb c digit)
      (
        and_both (is_digit c) (after_digits cs) digit (after_digits-only cs rest),
        ap (λ x. c ∷ x) (only-integer_part cs rest),
        only-fraction_part cs rest,
      )
parts_written amount (c ∷ cs) fraction h (inr (same, goes_on)) =
    let digit = and_left (is_digit c) (only_digits cs) h in
    let rest = and_right (is_digit c) (only_digits cs) h in
    rw (same, digit-eqb c digit)
      (
        and_both (is_digit c) (after_digits (cs ++ (dot ∷ fraction))) digit
            (after_digits-append cs fraction rest goes_on),
        ap (λ x. c ∷ x) (integer_part-append cs fraction rest),
        fraction_part-append cs fraction rest (some-only fraction goes_on),
      )

-- The amount is a decimal with no more than this number of decimals, and v is this number of
-- decimals moved across it: the number of its digits, times ten for each decimal it leaves out.
abbrev pub IsScaled : List ℕ → ℕ → ℕ → Type 0
IsScaled amount places v =
    (whole : List ℕ) × (fraction : List ℕ) × (some_digits whole ≡ true)
    × IsWritten amount whole fraction
    × (length fraction ≤ places)
    × (v ≡ digits_value 0 (whole ++ fraction) * 10 ^ (places - length fraction))

-- With a whole number of decimals, an amount is read as v just if it is one digit or more, then
-- nothing or a dot and one digit or more, with no more decimals than the asset's, and v is the
-- number that the digits before and after the dot make together, times ten to the power of the
-- decimals left out.
pub parsed_iff :
    (amount : List ℕ) (places v : ℕ)
    → (parse_canonical_amount amount (decimals places) ≡ ok v) ↔ IsScaled amount places v
parsed_iff amount places v = (
  λ h.
      let accepted = (accepted_iff amount places v).0 h in
      let parts = parts-IsWritten amount accepted.0 in
      let whole = integer_part amount in
      let fraction = fraction_part amount in
      let fits = (base_units_iff whole fraction places v).0 accepted.1 in
      (whole, fraction, parts.0, parts.1, fits.0, fits.1),
  λ h.
      let parts = parts_written amount h.0 h.1 h.2 h.3 in
      (accepted_iff amount places v).1
        (parts.0, rw (parts.1, parts.2) ((base_units_iff h.0 h.1 places v).1 (h.4, h.5))),
)
