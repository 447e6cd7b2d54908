-- ===== src/Core/Time.antt =====
-- Time stamps. An IsoTimestamp is text that the code reads by `Date.parse` alone, so it is given by
-- what that returns: a number of milliseconds, or NaN. Milliseconds are counted from the earliest
-- date of ECMAScript, so that none is negative; only their order and differences are used. What
-- `toISOString` writes is its number of milliseconds: such texts have one length, and the order in
-- which SQL compares them is the order of the numbers (for the years 0 to 9999).
use agent_commerce.Prelude.{ℕ, Bool, false, Option, none, some, ltb}

pub data IsoTimestamp : Type 0 where
  instant : ℕ → IsoTimestamp
  not_a_date : IsoTimestamp

abbrev pub date_parse : IsoTimestamp → Option ℕ
date_parse (instant ms) = some ms
date_parse not_a_date = none

-- `a < b` on numbers that may be NaN.
abbrev pub lt_number : Option ℕ → Option ℕ → Bool
lt_number (some a) (some b) = ltb a b
lt_number (some a) none = false
lt_number none b = false
