-- ===== src/Sql/Views.antt =====
-- The statements of src/storage and src/authorization/ap2 on a table and on what a view keeps of
-- each of its rows.
use mathlib.Core.Option
use agent_commerce.Prelude.{All, Bool, List, [], ap, arith, map, refl, ◌++◌, ◌∷◌, ◌≡◌}
use agent_commerce.Sql.{any_row, find_row, on_match, update_rows}

module _ {ℓ κ} {R : Type ℓ} {S : Type κ} (e : R → S) where
  pub find_row-map :
      (p : R → Bool) (q : S → Bool) (t : List R)
      → ((r : R) → q (e r) ≡ p r)
      → find_row q (map e t) ≡ Option.map e (find_row p t)
  find_row-map p q [] h = refl
  find_row-map p q (r ∷ t) h = ground (arith, h r, find_row-map p q t h)

  pub any_row-map :
      (p : R → Bool) (q : S → Bool) (t : List R)
      → ((r : R) → q (e r) ≡ p r)
      → any_row q (map e t) ≡ any_row p t
  any_row-map p q [] h = refl
  any_row-map p q (r ∷ t) h = ground (arith, h r, any_row-map p q t h)

  pub map-update_rows :
      (P : R → Type 0) (p : R → Bool) (f : R → R) (q : S → Bool) (g : S → S) (t : List R)
      → ((r : R) → P r → e (on_match p f r) ≡ on_match q g (e r))
      → All P t
      → map e (update_rows p f t) ≡ update_rows q g (map e t)
  map-update_rows P p f q g [] h a = refl
  map-update_rows P p f q g (r ∷ t) h (ar, a) =
      ground (arith, h r ar, map-update_rows P p f q g t h a)

  pub map-append : (t : List R) (r : R) → map e (t ++ r ∷ []) ≡ map e t ++ e r ∷ []
  map-append [] r = refl
  map-append (x ∷ t) r = ap (λ u. e x ∷ u) (map-append t r)
