-- ===== src/Reconcile/Manual.antt =====
-- `resolveManually` of src/core/execution/reconcile.ts: its guards and its write.
use agent_commerce.Sql.{any_row}
use agent_commerce.Prelude.{
  Option, arith, false, inl, inr, is_some, none, refl, some, true, ℕ, ◌+◌, ◌↔◌, ◌≡◌, ◌≢◌, ◌≤◌, ◌⊎◌,
  Bool-cases, get_or, ap, sym, ◌∙◌,
}
use agent_commerce.Core.Attempt.{failed, reserved, settlement_uncertain}
use agent_commerce.Store.Journal.{AttemptRow, Db, get_payment_attempt}
use agent_commerce.Store.Journal.Writes.{resolve_payment_attempt, is_resolvable}
use agent_commerce.Reconcile.{
  ManualRequest, expiry_refusal, min_age_ms, recorded, refusal_of, resolve_manually, written_result,
  ManualResult, Refusal, recorded_expiry, resolve_found, resolve_request, resolve_seen,
}

-- The authorization has expired, as far as the journal knows: its recorded expiry has passed, or none is
-- recorded and the operator vouches for it.
abbrev pub IsExpired : ℕ → ManualRequest → Option ℕ → Type 0
IsExpired now m expiry =
    ((at : ℕ) × (expiry ≡ some at) × (at ≤ now)) ⊎ ((expiry ≡ none) × (m.confirm_expired ≡ true))

-- An attempt that an operator may resolve.
abbrev pub IsResolvable : ℕ → ManualRequest → AttemptRow → Option ℕ → Type 0
IsResolvable now m a expiry =
    (is_some a.resolution_json ≡ false)
    × ((a.status ≡ reserved) ⊎ ((a.status ≡ settlement_uncertain) ⊎ (a.status ≡ failed)))
    × (a.status ≡ reserved → a.created_at + min_age_ms ≤ now)
    × (m.rejects ≡ true → IsExpired now m expiry)

expiry-IsExpired :
    (now : ℕ) (m : ManualRequest) (expiry : Option ℕ)
    → expiry_refusal now m.confirm_expired expiry ≡ none
    → IsExpired now m expiry
unfolding expiry_refusal
expiry-IsExpired now m none e = inr (refl, ground arith)
expiry-IsExpired now m (some at) e = inl (at, refl, ground arith)

-- The guards of `resolveManually` let a verdict through exactly if the attempt has no resolution, is
-- reserved, uncertain or failed, is 15 minutes old if it is reserved, and for the verdict `rejected` has an
-- authorization that has expired: its recorded expiry has passed, or none is recorded and the operator
-- confirms it.
pub unrefused_iff :
    (now : ℕ) (m : ManualRequest) (a : AttemptRow) (expiry : Option ℕ)
    → (refusal_of now m a expiry ≡ none) ↔ IsResolvable now m a expiry
unfolding refusal_of expiry_refusal
unrefused_iff now m a none = (
  λ e. (ground arith, ground arith, ground arith, λ r. inr (refl, ground arith)),
  λ h. ground arith,
)
unrefused_iff now m a (some at) = (
  λ e. (ground arith, ground arith, ground arith, λ r. inl (at, refl, ground arith)),
  λ (a1, b1, c1, d1). elim (Bool-cases m.rejects) [
    | inl r ↦ elim (d1 r) [ inl (at', e, le) ↦ ground arith | inr (e, c) ↦ ground arith ]
    | inr r ↦ ground arith
  ],
)

abbrev pub Unchanged : Db → Db × ManualResult → Type 0
Unchanged db out = ((c : AttemptRow) → out.1 ≢ recorded c) → out.0 ≡ db

seen-Unchanged :
    (now : ℕ) (m : ManualRequest) (a : AttemptRow) (db : Db) (refusal : Option Refusal)
    → Unchanged db (resolve_seen now m a db refusal)
unfolding resolve_seen written_result resolve_payment_attempt
seen-Unchanged now m a db (some refusal) unrecorded = refl
seen-Unchanged now m a db none unrecorded =
    let resolved_now : any_row (is_resolvable (resolve_request now m a)) db.attempts ≡ true
        → (resolve_payment_attempt now (resolve_request now m a) db).1 ≡ true =
      λ e. rw e refl in
    let (db', written) = resolve_payment_attempt now (resolve_request now m a) db in
    let current = get_or (get_payment_attempt m.attempt_id db') a in
    elim (Bool-cases (any_row (is_resolvable (resolve_request now m a)) db.attempts)) [
      | inl some_row ↦
          let bad =
            unrecorded current (ap (λ w. written_result w current) (resolved_now some_row)) in
          ground (arith, bad)
      | inr no_row ↦ rw no_row refl
    ]

found-Unchanged :
    (now : ℕ) (m : ManualRequest) (seen db : Db) (found : Option AttemptRow)
    → Unchanged db (resolve_found now m seen db found)
unfolding resolve_found
found-Unchanged now m seen db none unrecorded = refl
found-Unchanged now m seen db (some a) unrecorded =
    seen-Unchanged now m a db (refusal_of now m a (recorded_expiry a seen)) unrecorded

-- Unless `resolveManually` records a verdict, it leaves the tables as they are.
pub unrecorded_unchanged :
    (now : ℕ) (m : ManualRequest) (seen db : Db)
    → ((c : AttemptRow) → (resolve_manually now m seen db).1 ≢ recorded c)
    → (resolve_manually now m seen db).0 ≡ db
unfolding resolve_manually
unrecorded_unchanged now m seen db unrecorded =
    found-Unchanged now m seen db (get_payment_attempt m.attempt_id seen) unrecorded

-- What a recorded verdict rests on: the attempt that was seen, and the attempt that was written.
abbrev pub IsBased : ℕ → ManualRequest → Db → Db → Type 0
IsBased now m seen db =
    (a : AttemptRow) × (get_payment_attempt m.attempt_id seen ≡ some a)
    × IsResolvable now m a (recorded_expiry a seen)
    × (any_row (is_resolvable (resolve_request now m a)) db.attempts ≡ true)

seen-IsBased :
    (now : ℕ) (m : ManualRequest) (seen db : Db) (a c : AttemptRow) (refusal : Option Refusal)
    → get_payment_attempt m.attempt_id seen ≡ some a
    → refusal_of now m a (recorded_expiry a seen) ≡ refusal
    → (resolve_seen now m a db refusal).1 ≡ recorded c
    → IsBased now m seen db
unfolding resolve_seen written_result resolve_payment_attempt
seen-IsBased now m seen db a c (some refusal) found e returned = ground arith
seen-IsBased now m seen db a c none found e returned =
    elim (Bool-cases (any_row (is_resolvable (resolve_request now m a)) db.attempts)) [
      | inl some_row ↦ (a, found, (unrefused_iff now m a (recorded_expiry a seen)).0 e, some_row)
      | inr no_row ↦
          let current =
            get_or
              (get_payment_attempt m.attempt_id
                (resolve_payment_attempt now (resolve_request now m a) db).0)
              a in
          let unwritten : (resolve_payment_attempt now (resolve_request now m a) db).1 ≡ false =
            rw no_row refl in
          let bad = sym (ap (λ w. written_result w current) unwritten) ∙ returned in
          ground (arith, bad)
    ]

found-IsBased :
    (now : ℕ) (m : ManualRequest) (seen db : Db) (c : AttemptRow) (found : Option AttemptRow)
    → get_payment_attempt m.attempt_id seen ≡ found
    → (resolve_found now m seen db found).1 ≡ recorded c
    → IsBased now m seen db
unfolding resolve_found
found-IsBased now m seen db c none e returned = ground arith
found-IsBased now m seen db c (some a) e returned =
    seen-IsBased now m seen db a c (refusal_of now m a (recorded_expiry a seen)) e refl returned

-- If `resolveManually` records a verdict, then the attempt that it saw has no resolution, is reserved,
-- uncertain or failed, is 15 minutes old if reserved, and for the verdict `rejected` has an authorization
-- that has expired by the journal or by the operator's word; and at the write the attempt still has that
-- status and no resolution.
pub recorded_sound :
    (now : ℕ) (m : ManualRequest) (seen db : Db) (c : AttemptRow)
    → (resolve_manually now m seen db).1 ≡ recorded c
    → IsBased now m seen db
unfolding resolve_manually
recorded_sound now m seen db c returned =
    found-IsBased now m seen db c (get_payment_attempt m.attempt_id seen) refl returned
