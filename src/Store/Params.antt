-- ===== src/Store/Params.antt =====
-- src/storage/receipts/params.ts: caller values are normalised before they reach a query.
pub mod Bounds
use agent_commerce.Prelude.{Option, none, some, ℕ}
use Prim.Native.Nat.{min, max}
use agent_commerce.Core.Errors.{Result, ok, err, storage_error}
use agent_commerce.Core.Time.{IsoTimestamp, instant, not_a_date}

-- A JavaScript number given as a list limit, after `Math.trunc`: a whole number, or NaN or an
-- infinity.
pub data ListLimit : Type 0 where
  whole : ℕ → ListLimit
  negative : ℕ → ListLimit
  not_finite : ListLimit

abbrev pub default_list_limit : ℕ
default_list_limit = 50

abbrev pub max_list_limit : ℕ
max_list_limit = 500

-- `Math.min(Math.max(base, 1), MAX_LIST_LIMIT)`
abbrev clamp : ℕ → ℕ
clamp base = min (max base 1) max_list_limit

unfoldable pub clamp_list_limit : Option ListLimit → ℕ
clamp_list_limit none = clamp default_list_limit
clamp_list_limit (some not_finite) = clamp default_list_limit
clamp_list_limit (some (whole n)) = clamp n
clamp_list_limit (some (negative n)) = clamp 0

-- The stored form of a caller's time stamp; text that is no date is refused.
unfoldable pub stored_iso : IsoTimestamp → Result ℕ
stored_iso (instant ms) = ok ms
stored_iso not_a_date = err storage_error
