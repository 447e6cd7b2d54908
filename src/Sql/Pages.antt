-- ===== src/Sql/Pages.antt =====
-- Keyset pages, as src/storage/receipts/store.ts reads them: the rows with a `seq` below the cursor,
-- newest first, up to a limit. A row stands beside its `seq`.
use mathlib.Core.Option
use agent_commerce.Prelude.{
  All, Bool, Bool-cases, List, [], ap, arith, inl, inr, length, refl, suc, zero, ℕ, ◌&&◌, ◌++◌, ◌+◌,
  ◌∷◌, ◌≡◌, ◌≢◌, Option, eqb, false, if◌then◌else◌, ltb, ltb_self, lt→ltb, none, some, subst, sym,
  true, ◌<◌, ◌∙◌, le→ltb_false, not_below, zero_lt, ◌≤◌,
}
use agent_commerce.Sql.{select_rows}

module _ {ℓ} {R : Type ℓ} where
  -- LIMIT n
  abbrev pub first : ℕ → List R → List R
  first zero rs = []
  first (suc n) [] = []
  first (suc n) (r ∷ rs) = r ∷ first n rs

  abbrev pub rest : ℕ → List R → List R
  rest zero rs = rs
  rest (suc n) [] = []
  rest (suc n) (r ∷ rs) = rest n rs

  append-nil : (rs : List R) → rs ++ [] ≡ rs
  append-nil [] = refl
  append-nil (r ∷ rs) = ap (λ u. r ∷ u) (append-nil rs)

  append_assoc : (xs ys zs : List R) → (xs ++ ys) ++ zs ≡ xs ++ (ys ++ zs)
  append_assoc [] ys zs = refl
  append_assoc (x ∷ xs) ys zs = ap (λ u. x ∷ u) (append_assoc xs ys zs)

  pub first-rest : (n : ℕ) (rs : List R) → first n rs ++ rest n rs ≡ rs
  first-rest zero rs = refl
  first-rest (suc n) [] = refl
  first-rest (suc n) (r ∷ rs) = ap (λ u. r ∷ u) (first-rest n rs)

  -- A page that is not full is the last one.
  rest-short : (n : ℕ) (rs : List R) → length (first n rs) ≢ n → rest n rs ≡ []
  rest-short zero rs h = elim (h refl) [ ]
  rest-short (suc n) [] h = refl
  rest-short (suc n) (r ∷ rs) h = rest-short n rs (λ e. h (ap suc e))

  length-rest : (n : ℕ) (rs : List R) → length (first n rs) ≡ n → length (rest n rs) + n ≡ length rs
  length-rest zero rs e = omega arith
  length-rest (suc n) [] e = omega (arith, e)
  length-rest (suc n) (r ∷ rs) e = omega (arith, length-rest n rs (omega (arith, e)))

  first-all : (n : ℕ) (rs : List R) → rest n rs ≡ [] → first n rs ≡ rs
  first-all n rs e =
      sym (append-nil (first n rs)) ∙ (ap (λ u. first n rs ++ u) (sym e) ∙ first-rest n rs)

  select-append :
      (p : R → Bool) (xs ys : List R)
      → select_rows p (xs ++ ys) ≡ select_rows p xs ++ select_rows p ys
  select-append p [] ys = refl
  select-append p (x ∷ xs) ys = ground (arith, select-append p xs ys)

  pub select_rows-select_rows :
      (p q : R → Bool) (xs : List R)
      → select_rows q (select_rows p xs) ≡ select_rows (λ r. q r && p r) xs
  select_rows-select_rows p q [] = refl
  select_rows-select_rows p q (x ∷ xs) = ground (arith, select_rows-select_rows p q xs)

  pub select_rows-same :
      (p q : R → Bool) (xs : List R) → All (λ r. p r ≡ q r) xs → select_rows p xs ≡ select_rows q xs
  select_rows-same p q [] h = refl
  select_rows-same p q (x ∷ xs) (hx, h) = ground (arith, hx, select_rows-same p q xs h)

  pub All-select_rows :
      (P : R → Type 0) (p : R → Bool) (xs : List R) → All P xs → All P (select_rows p xs)
  All-select_rows P p [] h = tt
  All-select_rows P p (x ∷ xs) (hx, h) = elim (Bool-cases (p x)) [
    | inl hit ↦ rw hit (hx, All-select_rows P p xs h)
    | inr miss ↦ rw miss (All-select_rows P p xs h)
  ]

  pub select_rows-match :
      (P : R → Type 0) (p : R → Bool) (xs : List R)
      → All P xs
      → All (λ r. P r × (p r ≡ true)) (select_rows p xs)
  select_rows-match P p [] h = tt
  select_rows-match P p (x ∷ xs) (hx, h) = elim (Bool-cases (p x)) [
    | inl hit ↦ rw hit ((hx, hit), select_rows-match P p xs h)
    | inr miss ↦ rw miss (select_rows-match P p xs h)
  ]

  pub length-first : (n : ℕ) (xs : List R) → length (first n xs) ≤ n
  length-first zero xs = omega arith
  length-first (suc n) [] = omega arith
  length-first (suc n) (x ∷ xs) = omega (arith, length-first n xs)

  pub length-select_rows : (p : R → Bool) (xs : List R) → length (select_rows p xs) ≤ length xs
  length-select_rows p [] = omega arith
  length-select_rows p (x ∷ xs) = elim (Bool-cases (p x)) [
    | inl hit ↦ rw hit (omega (arith, length-select_rows p xs))
    | inr miss ↦ rw miss (omega (arith, length-select_rows p xs))
  ]

-- Rows with their `seq`, newest first
module _ {ℓ} {R : Type ℓ} where
  abbrev pub IsBelow : ℕ → List (ℕ × R) → Type 0
  IsBelow n rs = All (λ (r : ℕ × R). r.0 < n) rs

  abbrev pub IsNewestFirst : List (ℕ × R) → Type 0
  IsNewestFirst [] = Unit
  IsNewestFirst (r ∷ rs) = IsBelow r.0 rs × IsNewestFirst rs

  pub IsNewestFirst-select_rows :
      (p : ℕ × R → Bool) (rs : List (ℕ × R)) → IsNewestFirst rs → IsNewestFirst (select_rows p rs)
  IsNewestFirst-select_rows p [] v = tt
  IsNewestFirst-select_rows p (r ∷ rs) (vr, v) = elim (Bool-cases (p r)) [
    | inl hit ↦
        rw hit
          (All-select_rows (λ (x : ℕ × R). x.0 < r.0) p rs vr, IsNewestFirst-select_rows p rs v)
    | inr miss ↦ rw miss (IsNewestFirst-select_rows p rs v)
  ]

  -- `t.seq < ?`, where there is a cursor
  abbrev pub is_before : Option ℕ → ℕ × R → Bool
  is_before none r = true
  is_before (some c) r = ltb r.0 c

  -- `rows.at(-1)`
  abbrev pub last_seq : List (ℕ × R) → Option ℕ
  last_seq [] = none
  last_seq (r ∷ []) = some r.0
  last_seq (r ∷ r' ∷ rs) = last_seq (r' ∷ rs)

  -- The candidates of one page
  abbrev pub page : (ℕ × R → Bool) → ℕ → Option ℕ → List (ℕ × R) → List (ℕ × R)
  page p limit cursor rs = first limit (select_rows (λ r. is_before cursor r && p r) rs)

  -- `nextCursor`
  abbrev pub next_cursor : ℕ → List (ℕ × R) → Option ℕ
  next_cursor limit candidates = if eqb (length candidates) limit then last_seq candidates else none

  -- The rows of each page that pass `q`, page after page until there is no cursor; `none` when the
  -- fuel ends first.
  unfoldable pub collect :
      (ℕ × R → Bool) → (ℕ × R → Bool) → ℕ → ℕ → Option ℕ → List (ℕ × R) → Option (List (ℕ × R))
  collect p q limit zero cursor rs = none
  collect p q limit (suc fuel) cursor rs =
      let candidates = page p limit cursor rs in
      elim (next_cursor limit candidates) [
        | none ↦ some (select_rows q candidates)
        | some c ↦
            Option.map (λ later. select_rows q candidates ++ later)
              (collect p q limit fuel (some c) rs)
      ]

  select-everything : (xs : List (ℕ × R)) → select_rows (is_before none) xs ≡ xs
  select-everything [] = refl
  select-everything (x ∷ xs) = ap (λ u. x ∷ u) (select-everything xs)

  select-all_below :
      (c : ℕ) (xs : List (ℕ × R)) → IsBelow c xs → select_rows (is_before (some c)) xs ≡ xs
  select-all_below c [] h = refl
  select-all_below c (x ∷ xs) (hx, h) =
      rw (lt→ltb x.0 c hx) (ap (λ u. x ∷ u) (select-all_below c xs h))

  last_seq-below :
      (n c : ℕ) (xs ys : List (ℕ × R)) → IsBelow n (xs ++ ys) → last_seq xs ≡ some c → c < n
  last_seq-below n c [] ys h e = cc
  last_seq-below n c (x ∷ []) ys (hx, h) e = ground arith
  last_seq-below n c (x ∷ x' ∷ xs) ys (hx, h) e = last_seq-below n c (x' ∷ xs) ys h e

  -- After a page whose last row has `seq` c, the rows below c are those that the page left.
  select-after :
      (c : ℕ) (xs ys : List (ℕ × R))
      → IsNewestFirst (xs ++ ys)
      → last_seq xs ≡ some c
      → select_rows (is_before (some c)) (xs ++ ys) ≡ ys
  select-after c [] ys v e = cc
  select-after c (x ∷ []) ys (vx, v) e =
      let q : x.0 ≡ c = ground arith in
      rw (subst (λ n. ltb n c ≡ false) (sym q) (ltb_self c))
        (select-all_below c ys (subst (λ n. IsBelow n ys) q vx))
  select-after c (x ∷ x' ∷ xs) ys (vx, v) e =
      let above = last_seq-below x.0 c (x' ∷ xs) ys vx e in
      rw (le→ltb_false c x.0 above) (select-after c (x' ∷ xs) ys v e)

  last_seq-some : (xs : List (ℕ × R)) → 1 ≤ length xs → (c : ℕ) × (last_seq xs ≡ some c)
  last_seq-some [] h = elim (zero_lt h) [ ]
  last_seq-some (x ∷ []) h = (x.0, refl)
  last_seq-some (x ∷ x' ∷ xs) h = last_seq-some (x' ∷ xs) (omega arith)

  last_seq-append :
      (c : ℕ) (xs ys : List (ℕ × R)) → last_seq ys ≡ some c → last_seq (xs ++ ys) ≡ some c
  last_seq-append c [] ys e = e
  last_seq-append c (x ∷ []) [] e = cc
  last_seq-append c (x ∷ []) (y ∷ ys) e = e
  last_seq-append c (x ∷ x' ∷ xs) ys e = last_seq-append c (x' ∷ xs) ys e

  module _ (p q : ℕ × R → Bool) (limit : ℕ) (rs : List (ℕ × R)) (positive : 1 ≤ limit)
      (v : IsNewestFirst (select_rows p rs)) where
    -- Once the rows `done` have been read, the cursor selects those that are left.
    collect-left :
        (fuel : ℕ) (cursor : Option ℕ) (done left : List (ℕ × R))
        → select_rows p rs ≡ done ++ left
        → select_rows (is_before cursor) (select_rows p rs) ≡ left
        → length left < fuel
        → collect p q limit fuel cursor rs ≡ some (select_rows q left)
    unfolding collect
    collect-left zero cursor done left split selects enough = elim (not_below enough) [ ]
    collect-left (suc fuel) cursor done left split selects enough =
        elim (Bool-cases (eqb (length (first limit left)) limit)) [
          | inr short ↦
              let none_left = rest-short limit left (λ e. ground (arith, e)) in
              rw (candidates, collect, short, candidates)
                (ap (λ xs. some (select_rows q xs)) (first-all limit left none_left))
          | inl full ↦
              let size : length (first limit left) ≡ limit = ground arith in
              let (c, newest) = last_seq-some (first limit left) (omega (arith, size, positive)) in
              let read = done ++ first limit left in
              let all : select_rows p rs ≡ read ++ rest limit left =
                split
                ∙ (ap (λ u. done ++ u) (sym (first-rest limit left))
                    ∙ sym (append_assoc done (first limit left) (rest limit left))) in
              let later =
                collect-left fuel (some c) read (rest limit left) all
                  (ap (select_rows (is_before (some c))) all
                    ∙ select-after c read (rest limit left) (subst IsNewestFirst all v)
                        (last_seq-append c done (first limit left) newest))
                  (omega (arith, length-rest limit left size, enough, positive)) in
              rw (candidates, collect, full, newest, later, candidates)
                (ap some (
                  sym (select-append q (first limit left) (rest limit left))
                  ∙ ap (select_rows q) (first-rest limit left)))
        ]
      where
        candidates : select_rows (λ r. is_before cursor r && p r) rs ≡ left
        candidates = sym (select_rows-select_rows p (is_before cursor) rs) ∙ selects

    -- With at least one row to a page and more fuel than there are rows, reading page after page ends,
    -- and gives every row that is asked for once, newest first.
    pub collect-all :
        (fuel : ℕ)
        → length (select_rows p rs) < fuel
        → collect p q limit fuel none rs ≡ some (select_rows q (select_rows p rs))
    collect-all fuel enough =
        collect-left fuel none [] (select_rows p rs) refl (select-everything (select_rows p rs))
          enough
