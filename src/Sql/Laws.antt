-- ===== src/Sql/Laws.antt =====
-- What the statements do to the rows that a query finds, and to a constraint between rows.
use mathlib.Core.Option
use agent_commerce.Prelude.{
  ◌≡◌, refl, subst, Bool, true, false, ◌&&◌, none, some, List, [], ◌∷◌, ◌++◌, arith, if◌then◌else◌,
  All, Bool-cases, inl, inr,
}
use agent_commerce.Sql.{find_row, any_row, on_match, update_rows, delete_rows}

module _ {ℓ} {R : Type ℓ} where
  pub find_row-match : (p : R → Bool) (t : List R) (r : R) → find_row p t ≡ some r → p r ≡ true
  find_row-match p [] r e = cc
  find_row-match p (x ∷ t) r e = ground (arith, find_row-match p t r)

  pub find_row-All {κ} :
      (P : R → Type κ) (p : R → Bool) (t : List R) (r : R) → All P t → find_row p t ≡ some r → P r
  find_row-All P p [] r h e = cc
  find_row-All P p (x ∷ t) r (hx, h) e = elim (Bool-cases (p x)) [
    | inl here ↦ let same : x ≡ r = ground arith in subst P same hx
    | inr there ↦ find_row-All P p t r h (rw there at e)
  ]

  pub find_row-none : (p : R → Bool) (t : List R) → find_row p t ≡ none → All (λ r. p r ≡ false) t
  find_row-none p [] e = tt
  find_row-none p (x ∷ t) e = ground (arith, find_row-none p t)

  pub find_row-append :
      (p : R → Bool) (t : List R) (r : R)
      → find_row p t ≡ none
      → find_row p (t ++ r ∷ []) ≡ (if p r then some r else none)
  find_row-append p [] r e = refl
  find_row-append p (x ∷ t) r e = ground (arith, find_row-append p t r)

  pub find_row-append_old :
      (p : R → Bool) (t : List R) (r : R) → p r ≡ false → find_row p (t ++ r ∷ []) ≡ find_row p t
  find_row-append_old p [] r e = ground arith
  find_row-append_old p (x ∷ t) r e = ground (arith, find_row-append_old p t r)

  pub find_row-append_found :
      (p : R → Bool) (t : List R) (r n : R)
      → find_row p t ≡ some r
      → find_row p (t ++ n ∷ []) ≡ some r
  find_row-append_found p [] r n e = cc
  find_row-append_found p (x ∷ t) r n e = ground (arith, find_row-append_found p t r n)

  -- A column that an UPDATE leaves alone finds the same row, updated.
  pub find_row-update_rows :
      (q p : R → Bool) (f : R → R) (t : List R)
      → ((r : R) → q (f r) ≡ q r)
      → find_row q (update_rows p f t) ≡ Option.map (on_match p f) (find_row q t)
  find_row-update_rows q p f [] h = refl
  find_row-update_rows q p f (x ∷ t) h = ground (arith, h x, find_row-update_rows q p f t h)

  pub any_row-none : (p : R → Bool) (t : List R) → any_row p t ≡ false → All (λ r. p r ≡ false) t
  any_row-none p [] e = tt
  any_row-none p (x ∷ t) e = ground (arith, any_row-none p t)

  pub any_row-All : (p : R → Bool) (t : List R) → All (λ r. p r ≡ false) t → any_row p t ≡ false
  any_row-All p [] h = refl
  any_row-All p (x ∷ t) h = ground (arith, any_row-All p t)

  pub All-update_rows :
      (P : R → Type 0) (p : R → Bool) (f : R → R) (t : List R)
      → ((r : R) → P r → P (f r))
      → All P t
      → All P (update_rows p f t)
  All-update_rows P p f [] h a = tt
  All-update_rows P p f (r ∷ t) h (ar, a) = elim (Bool-cases (p r)) [
    | inl hit ↦ rw hit (h r ar, All-update_rows P p f t h a)
    | inr miss ↦ rw miss (ar, All-update_rows P p f t h a)
  ]

  pub All-delete_rows :
      (P : R → Type 0) (p : R → Bool) (t : List R) → All P t → All P (delete_rows p t)
  All-delete_rows P p [] h = tt
  All-delete_rows P p (x ∷ t) (hx, h) = elim (Bool-cases (p x)) [
    | inl gone ↦ rw gone (All-delete_rows P p t h)
    | inr kept ↦ rw kept (hx, All-delete_rows P p t h)
  ]

-- No two rows clash: a UNIQUE column, or any other constraint between rows.
module _ {ℓ} {R : Type ℓ} (clash : R → R → Bool) where
  abbrev pub Apart : List R → Type 0
  Apart [] = Unit
  Apart (x ∷ t) = All (λ y. clash x y ≡ false) t × Apart t

  All-clash_append :
      (x r : R) (t : List R)
      → All (λ y. clash x y ≡ false) t
      → clash x r ≡ false
      → All (λ y. clash x y ≡ false) (t ++ r ∷ [])
  All-clash_append x r [] h c = (c, tt)
  All-clash_append x r (y ∷ t) (hy, h) c = (hy, All-clash_append x r t h c)

  pub Apart-append :
      (r : R) (t : List R) → All (λ y. clash y r ≡ false) t → Apart t → Apart (t ++ r ∷ [])
  Apart-append r [] h a = (tt, tt)
  Apart-append r (x ∷ t) (hx, h) (ax, a) = (All-clash_append x r t ax hx, Apart-append r t h a)

  module _ (p : R → Bool) (f : R → R) (Q : R → Type 0)
      (keep : (x y : R)
        → Q x
        → Q y
        → clash x y ≡ false
        → clash (on_match p f x) (on_match p f y) ≡ false) where
    All-clash-update_rows :
        (x : R) (t : List R)
        → Q x
        → All Q t
        → All (λ y. clash x y ≡ false) t
        → All (λ y. clash (on_match p f x) y ≡ false) (update_rows p f t)
    All-clash-update_rows x [] qx q h = tt
    All-clash-update_rows x (y ∷ t) qx (qy, q) (hy, h) =
        (keep x y qx qy hy, All-clash-update_rows x t qx q h)

    pub Apart-update_rows : (t : List R) → All Q t → Apart t → Apart (update_rows p f t)
    Apart-update_rows [] q a = tt
    Apart-update_rows (x ∷ t) (qx, q) (ax, a) =
        (All-clash-update_rows x t qx q ax, Apart-update_rows t q a)

  pub Apart-delete_rows : (p : R → Bool) (t : List R) → Apart t → Apart (delete_rows p t)
  Apart-delete_rows p [] a = tt
  Apart-delete_rows p (x ∷ t) (ax, a) = elim (Bool-cases (p x)) [
    | inl gone ↦ rw gone (Apart-delete_rows p t a)
    | inr kept ↦ rw kept (All-delete_rows (λ y. clash x y ≡ false) p t ax, Apart-delete_rows p t a)
  ]

  -- Where rows with one key clash, an UPDATE restricted to a key concerns the row that the key finds.
  module _ (key : R → Bool)
      (same : (x y : R) → key x ≡ true → key y ≡ true → clash x y ≡ true) where
    All-key_false :
        (x : R) (t : List R)
        → key x ≡ true
        → All (λ y. clash x y ≡ false) t
        → All (λ y. key y ≡ false) t
    All-key_false x [] k h = tt
    All-key_false x (y ∷ t) k (hy, h) = (ground (arith, same x y k), All-key_false x t k h)

    any_row-other :
        (c : R → Bool) (t : List R)
        → All (λ y. key y ≡ false) t
        → any_row (λ r. key r && c r) t ≡ false
    any_row-other c [] h = refl
    any_row-other c (y ∷ t) (hy, h) = ground (arith, any_row-other c t h)

    pub any_row-key :
        (c : R → Bool) (t : List R)
        → Apart t
        → any_row (λ r. key r && c r) t ≡ elim (find_row key t) [ none ↦ false | some r ↦ c r ]
    any_row-key c [] a = refl
    any_row-key c (x ∷ t) (ax, a) = elim (Bool-cases (key x)) [
      | inl here ↦ rw (here, any_row-other c t (All-key_false x t here ax)) (ground arith)
      | inr there ↦ rw (there) (any_row-key c t a)
    ]

    find_row-other : (t : List R) → All (λ y. key y ≡ false) t → find_row key t ≡ none
    find_row-other [] h = refl
    find_row-other (y ∷ t) (hy, h) = ground (arith, find_row-other t h)

    -- Where the key is unique, a DELETE leaves of a key what it finds and does not delete.
    pub find_row-delete_rows :
        (p : R → Bool) (t : List R)
        → Apart t
        → find_row key (delete_rows p t)
          ≡ elim (find_row key t) [ none ↦ none | some r ↦ if p r then none else some r ]
    find_row-delete_rows p [] a = refl
    find_row-delete_rows p (x ∷ t) (ax, a) = elim (Bool-cases (key x)) [
      | inl here ↦
          ground (arith, find_row-delete_rows p t a, find_row-other t (All-key_false x t here ax))
      | inr there ↦ ground (arith, find_row-delete_rows p t a)
    ]

    pub find_row-key :
        (c : R → Bool) (t : List R)
        → Apart t
        → find_row (λ r. key r && c r) t
          ≡ elim (find_row key t) [ none ↦ none | some r ↦ if c r then some r else none ]
    find_row-key c [] a = refl
    find_row-key c (x ∷ t) (ax, a) = elim (Bool-cases (key x)) [
      | inl here ↦ ground (arith, find_row-key c t a, find_row-other t (All-key_false x t here ax))
      | inr there ↦ ground (arith, find_row-key c t a)
    ]
