-- ===== src/Store/Params/Bounds.antt =====
-- The bounds of a list limit.
use agent_commerce.Prelude.{Option, arith, none, some, ℕ, ◌≡◌, ◌≤◌, ◌⊎◌}
use agent_commerce.Store.Params.{ListLimit, clamp_list_limit, not_finite, whole}

-- A page of a list holds between 1 and 500 rows whatever the caller asks for; a whole number in that
-- range is kept, and an absent, NaN or infinite limit gives 50.
pub clamp_list_limit_bounds :
    (limit : Option ListLimit)
    → (1 ≤ clamp_list_limit limit)
      × (clamp_list_limit limit ≤ 500)
      × ((n : ℕ) → limit ≡ some (whole n) → 1 ≤ n → n ≤ 500 → clamp_list_limit limit ≡ n)
      × ((limit ≡ none) ⊎ (limit ≡ some not_finite) → clamp_list_limit limit ≡ 50)
unfolding clamp_list_limit
clamp_list_limit_bounds limit = (ground arith, ground arith, ground arith, ground arith)
