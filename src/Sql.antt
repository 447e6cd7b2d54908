-- ===== src/Sql.antt =====
-- The SQL statements that src/storage, src/authorization/ap2 and src/protocols/acp prepare, over a
-- table as the list of its rows in the order of `seq`. A WHERE clause is a test on rows.
pub mod Laws
pub mod Views
pub mod Pages
use agent_commerce.Prelude.{
  ℕ, suc, Bool, false, ◌||◌, Option, none, some, List, [], ◌∷◌, if◌then◌else◌,
}

module _ {ℓ} {R : Type ℓ} where
  -- SELECT … WHERE p LIMIT 1
  abbrev pub find_row : (R → Bool) → List R → Option R
  find_row p [] = none
  find_row p (r ∷ rs) = if p r then some r else find_row p rs

  -- SELECT … WHERE p
  abbrev pub select_rows : (R → Bool) → List R → List R
  select_rows p [] = []
  select_rows p (r ∷ rs) = let rest = select_rows p rs in if p r then r ∷ rest else rest

  -- EXISTS (SELECT 1 … WHERE p), and `changes > 0` of an UPDATE or DELETE … WHERE p
  abbrev pub any_row : (R → Bool) → List R → Bool
  any_row p [] = false
  any_row p (r ∷ rs) = p r || any_row p rs

  -- SELECT COUNT(*) … WHERE p, and `changes` of an UPDATE or DELETE … WHERE p
  abbrev pub count_rows : (R → Bool) → List R → ℕ
  count_rows p [] = 0
  count_rows p (r ∷ rs) = let rest = count_rows p rs in if p r then suc rest else rest

  -- UPDATE … SET f WHERE p, on one row
  abbrev pub on_match : (R → Bool) → (R → R) → R → R
  on_match p f r = if p r then f r else r

  -- UPDATE … SET f WHERE p
  abbrev pub update_rows : (R → Bool) → (R → R) → List R → List R
  update_rows p f [] = []
  update_rows p f (r ∷ rs) = on_match p f r ∷ update_rows p f rs

  -- DELETE … WHERE p
  abbrev pub delete_rows : (R → Bool) → List R → List R
  delete_rows p [] = []
  delete_rows p (r ∷ rs) = let rest = delete_rows p rs in if p r then rest else r ∷ rest
