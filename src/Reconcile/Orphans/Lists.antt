-- ===== src/Reconcile/Orphans/Lists.antt =====
-- Lists of references and of holds, for the loop of `releaseOrphanHolds`.
use agent_commerce.Prelude.{
  All, Bool, Bool-cases, List, String, [], arith, eq_iff, false, inl, inr, refl, suc, true, zero, ℕ,
  ◌++◌, ◌<◌, ◌==◌, ◌||◌, ◌∷◌, ◌≡◌, ◌≤◌, not,
}
use agent_commerce.Sql.{count_rows}
use agent_commerce.Sql.Pages.{first}
use agent_commerce.Store.Holds.{HoldRow}
use agent_commerce.Reconcile.Orphans.{
  OrphanOptions, insert_hold, precedes, sort_holds, is_in, released_entry,
}

pub is_in-append : (a b : List String) (r : String) → is_in (a ++ b) r ≡ (is_in a r || is_in b r)
is_in-append [] b r = refl
is_in-append (x ∷ a) b r = ground (arith, is_in-append a b r)

module _ (p q : String → Bool) (implies : (r : String) → q r ≡ true → p r ≡ true) where
  count-le : (rs : List String) → count_rows q rs ≤ count_rows p rs
  count-le [] = omega arith
  count-le (r ∷ rs) = elim (Bool-cases (q r)) [
    | inl hit ↦ rw (hit, implies r hit) (omega (arith, count-le rs))
    | inr miss ↦ elim (Bool-cases (p r)) [
      | inl only ↦ rw (miss, only) (omega (arith, count-le rs))
      | inr neither ↦ rw (miss, neither) (count-le rs)
    ]
  ]

  -- A test that misses an element of the list, and no more than another test, counts less.
  pub count-lt :
      (x : String) (rs : List String)
      → is_in rs x ≡ true
      → p x ≡ true
      → q x ≡ false
      → count_rows q rs < count_rows p rs
  count-lt x [] h px qx = cc
  count-lt x (r ∷ rs) h px qx = elim (Bool-cases (r == x)) [
    | inl same ↦ let e : r ≡ x = (eq_iff r x).0 same in rw (e, px, qx) (omega (arith, count-le rs))
    | inr other ↦
        let below = count-lt x rs (ground (arith, other, h)) px qx in
        elim (Bool-cases (q r)) [
          | inl hit ↦ rw (hit, implies r hit) (omega (arith, below))
          | inr miss ↦ elim (Bool-cases (p r)) [
            | inl only ↦ rw (miss, only) (omega (arith, below))
            | inr neither ↦ rw (miss, neither) below
          ]
        ]
  ]

module _ {κ} (o : OrphanOptions) (P : HoldRow → Type κ) where
  pub All-insert_hold :
      (h : HoldRow) (gs : List HoldRow) → P h → All P gs → All P (insert_hold o h gs)
  All-insert_hold h [] ph a = (ph, tt)
  All-insert_hold h (g ∷ gs) ph (pg, a) = elim (Bool-cases (precedes o h g)) [
    | inl before ↦ rw before (ph, (pg, a))
    | inr after ↦ rw after (pg, All-insert_hold h gs ph a)
  ]

  pub All-sort_holds : (hs : List HoldRow) → All P hs → All P (sort_holds o hs)
  All-sort_holds [] a = tt
  All-sort_holds (h ∷ hs) (ph, a) = All-insert_hold h (sort_holds o hs) ph (All-sort_holds hs a)

  pub All-first : (n : ℕ) (hs : List HoldRow) → All P hs → All P (first n hs)
  All-first zero hs a = tt
  All-first (suc n) [] a = tt
  All-first (suc n) (h ∷ hs) (ph, a) = (ph, All-first n hs a)

pub or_true : (a b : Bool) → b ≡ true → (a || b) ≡ true
or_true true b h = refl
or_true false b h = h

pub not_or : (a b : Bool) → not (a || b) ≡ true → not b ≡ true
not_or true b h = cc
not_or false b h = h

pub released_entry-hold : (h : HoldRow) (throws : Bool) → (released_entry h throws).hold ≡ h
released_entry-hold h true = refl
released_entry-hold h false = refl
