-- ===== src/Reconcile/Verdicts/Written.antt =====
-- The writes of a run of src/core/execution/reconcile.ts.
use mathlib.Core.Option
use agent_commerce.Prelude.{
  All, List, [], false, inl, inr, is_some, refl, some, true, ℕ, ◌∷◌, ◌≡◌, ◌⊎◌, Bool, String, ap,
  arith, eq_iff, not, ◌&&◌, ◌∙◌, Bool-cases, Option-cases, sym, if◌then◌else◌, subst, Option, none,
}
use agent_commerce.Sql.{find_row, any_row, on_match}
use agent_commerce.Sql.Laws.{any_row-key, find_row-update_rows, find_row-match}
use agent_commerce.Core.Attempt.{AttemptStatus, status_eq}
use agent_commerce.Store.Journal.{AttemptRow, Db, has_attempt_id, refresh_states}
use agent_commerce.Store.Journal.Writes.{
  ResolveRequest, is_resolvable, resolve_payment_attempt, resolved,
}
use agent_commerce.Store.Journal.Final.{resolve_payment_attempt-resolved}
use agent_commerce.Store.Journal.Calls.{resolves, run, apply}
use agent_commerce.Store.Journal.Unique.{IsUnique, clash, run-IsUnique}
use agent_commerce.Reconcile.Candidates.{Candidate}
use agent_commerce.Reconcile.Verdicts.{
  Entry, RunOptions, ask, settle_candidate, settle_candidates, unknown, verdict_request, entry_of,
  is_known, report_verdict, write_verdict, Verdict,
}

and_false : (a : Bool) → (a && false) ≡ false
and_false true = refl
and_false false = refl

pub skipped :
    (now : ℕ) (o : RunOptions) (c : Candidate) (db : Db)
    → (not o.dry_run && is_known (ask o.providers c).outcome) ≡ false
    → settle_candidate now o c db ≡ (db, entry_of c (ask o.providers c) false false)
unfolding settle_candidate report_verdict
skipped now o c db e = rw (settle_candidate, e, report_verdict) refl

-- A dry run, and a run whose every verdict is unknown, leave the tables as they are.
unwritten_unchanged :
    (now : ℕ) (o : RunOptions) (cs : List Candidate) (db : Db)
    → (o.dry_run ≡ true) ⊎ All (λ c. (ask o.providers c).outcome ≡ unknown) cs
    → (settle_candidates now o cs db).0 ≡ db
unfolding settle_candidates settle_candidate
unwritten_unchanged now o [] db h = refl
unwritten_unchanged now o (c ∷ cs) db (inl dry) =
    let same = ap (λ (x : Db × Entry). x.0) (skipped now o c db (rw dry refl)) in
    ap (λ d. (settle_candidates now o cs d).0) same ∙ unwritten_unchanged now o cs db (inl dry)
unwritten_unchanged now o (c ∷ cs) db (inr (hc, h)) =
    let same =
      ap (λ (x : Db × Entry). x.0) (skipped now o c db (rw hc (and_false (not o.dry_run)))) in
    ap (λ d. (settle_candidates now o cs d).0) same ∙ unwritten_unchanged now o cs db (inr h)

-- The attempt carries the verdict as the code writes it, over the row that it had at first.
abbrev pub IsResolved : ℕ → RunOptions → Db → Db → Entry → Type 0
IsResolved now o first db entry =
    (a : AttemptRow) × (find_row (has_attempt_id entry.candidate.attempt.id) db.attempts
      ≡ some (
          resolved now
            (verdict_request now o.actor entry.candidate.attempt (ask o.providers entry.candidate))
            a))
    × (find_row (has_attempt_id entry.candidate.attempt.id) first.attempts ≡ some a)
    × (a.status ≡ entry.candidate.attempt.status)
    × (is_some a.resolution_json ≡ false)

status_eq_sound : (a b : AttemptStatus) → status_eq a b ≡ true → a ≡ b
status_eq_sound a b h = ground arith

same_id :
    (id : String) (a b : AttemptRow)
    → has_attempt_id id a ≡ true
    → has_attempt_id id b ≡ true
    → clash a b ≡ true
same_id id a b h k = ground (arith, eq_iff a.id id, eq_iff b.id id, eq_iff a.id b.id)

and-true : {a b : Bool} → a ≡ true → b ≡ true → (a && b) ≡ true
and-true h k = rw (h, k) refl

abbrev may_be_written : ResolveRequest → AttemptRow → Bool
may_be_written q a = status_eq a.status q.expected_status && not (is_some a.resolution_json)

resolvable-found :
    (q : ResolveRequest) (db : Db)
    → IsUnique db
    → any_row (is_resolvable q) db.attempts ≡ true
    → (a : AttemptRow) × (find_row (has_attempt_id q.attempt_id) db.attempts ≡ some a)
      × (may_be_written q a ≡ true)
resolvable-found q db u some_row =
    let by_key =
      any_row-key clash (has_attempt_id q.attempt_id) (same_id q.attempt_id) (may_be_written q)
        db.attempts u in
    elim (Option-cases (find_row (has_attempt_id q.attempt_id) db.attempts)) [
      | inl missing ↦ cc (rw missing at by_key)
      | inr (a, found) ↦ (a, found, sym (rw found at by_key) ∙ some_row)
    ]

-- A conditional write that changed a row changed the one that has the id.
resolve-found :
    (now : ℕ) (q : ResolveRequest) (db : Db)
    → IsUnique db
    → (resolve_payment_attempt now q db).1 ≡ true
    → (a : AttemptRow) × (find_row
          (has_attempt_id q.attempt_id)
          (resolve_payment_attempt now q db).0.attempts
        ≡ some (resolved now q a))
      × (find_row (has_attempt_id q.attempt_id) db.attempts ≡ some a)
      × (a.status ≡ q.expected_status)
      × (is_some a.resolution_json ≡ false)
unfolding resolve_payment_attempt refresh_states
resolve-found now q db u e = elim (Bool-cases (any_row (is_resolvable q) db.attempts)) [
  | inr no_row ↦ cc (rw no_row at e)
  | inl some_row ↦
      let (a, found, open_row) = resolvable-found q db u some_row in
      let hit : is_resolvable q a ≡ true =
        and-true (find_row-match (has_attempt_id q.attempt_id) db.attempts a found) open_row in
      (
        a,
        rw some_row (
            find_row-update_rows (has_attempt_id q.attempt_id) (is_resolvable q) (resolved now q)
              db.attempts (λ b. refl)
            ∙ ap (Option.map (on_match (is_resolvable q) (resolved now q))) found
            ∙ ap (λ b. some (if b then resolved now q a else a)) hit),
        found,
        status_eq_sound a.status q.expected_status (ground arith),
        ground arith,
      )
]

write-IsResolved :
    (now : ℕ) (o : RunOptions) (c : Candidate) (throws : Bool) (db : Db)
    → IsUnique db
    → let out = write_verdict now o.actor c (ask o.providers c) throws db in
      out.1.written ≡ true → IsResolved now o db out.0 out.1
unfolding write_verdict
write-IsResolved now o c true db u e = cc
write-IsResolved now o c false db u e =
    resolve-found now (verdict_request now o.actor c.attempt (ask o.providers c)) db u e

report-IsResolved :
    (now : ℕ) (o : RunOptions) (c : Candidate) (due : Bool) (db : Db)
    → IsUnique db
    → let out = report_verdict now o c (ask o.providers c) due db in
      out.1.written ≡ true → IsResolved now o db out.0 out.1
unfolding report_verdict
report-IsResolved now o c false db u e = cc
report-IsResolved now o c true db u e = write-IsResolved now o c (o.write_throws c.attempt) db u e

-- What a turn does to the tables: nothing, or one conditional write.
abbrev pub IsTurn : ℕ → Db → Db → Type 0
IsTurn now db db' =
    (db' ≡ db) ⊎ ((q : ResolveRequest) × (db' ≡ (resolve_payment_attempt now q db).0))

write-IsTurn :
    (now : ℕ) (actor : String) (c : Candidate) (v : Verdict) (throws : Bool) (db : Db)
    → IsTurn now db (write_verdict now actor c v throws db).0
unfolding write_verdict
write-IsTurn now actor c v true db = inl refl
write-IsTurn now actor c v false db = inr (verdict_request now actor c.attempt v, refl)

report-IsTurn :
    (now : ℕ) (o : RunOptions) (c : Candidate) (v : Verdict) (due : Bool) (db : Db)
    → IsTurn now db (report_verdict now o c v due db).0
unfolding report_verdict
report-IsTurn now o c v false db = inl refl
report-IsTurn now o c v true db = write-IsTurn now o.actor c v (o.write_throws c.attempt) db

pub settle_candidate-IsTurn :
    (now : ℕ) (o : RunOptions) (c : Candidate) (db : Db)
    → IsTurn now db (settle_candidate now o c db).0
unfolding settle_candidate
settle_candidate-IsTurn now o c db =
    report-IsTurn now o c (ask o.providers c)
      (not o.dry_run && is_known (ask o.providers c).outcome) db

pub turn-IsUnique : (now : ℕ) (db db' : Db) → IsTurn now db db' → IsUnique db → IsUnique db'
unfolding run apply
turn-IsUnique now db db' (inl same) u = subst IsUnique (sym same) u
turn-IsUnique now db db' (inr (q, same)) u =
    subst IsUnique (sym same) (run-IsUnique ((now, resolves q) ∷ []) db u)

-- A recorded verdict is not changed by a later turn.
turn-IsResolved :
    (now : ℕ) (o : RunOptions) (first db db' : Db) (e : Entry)
    → IsTurn now db db'
    → IsResolved now o first db e
    → IsResolved now o first db' e
turn-IsResolved now o first db db' e (inl same) h =
    subst (λ d. IsResolved now o first d e) (sym same) h
turn-IsResolved now o first db db' e (inr (q, same)) (a, found, was, s, r) =
    subst (λ d. IsResolved now o first d e) (sym same)
      (a, resolve_payment_attempt-resolved now q db e.candidate.attempt.id _ found refl, was, s, r)

pub run-IsResolved :
    (now : ℕ) (o : RunOptions) (cs : List Candidate) (first db : Db) (e : Entry)
    → IsResolved now o first db e
    → IsResolved now o first (settle_candidates now o cs db).0 e
unfolding settle_candidates
run-IsResolved now o [] first db e h = h
run-IsResolved now o (c ∷ cs) first db e h =
    run-IsResolved now o cs first (settle_candidate now o c db).0 e
      (turn-IsResolved now o first db _ e (settle_candidate-IsTurn now o c db) h)

pub settle_candidate-IsResolved :
    (now : ℕ) (o : RunOptions) (c : Candidate) (db : Db)
    → IsUnique db
    → (settle_candidate now o c db).1.written ≡ true
    → IsResolved now o db (settle_candidate now o c db).0 (settle_candidate now o c db).1
unfolding settle_candidate
settle_candidate-IsResolved now o c db u e =
    report-IsResolved now o c (not o.dry_run && is_known (ask o.providers c).outcome) db u e

matched-back :
    (now : ℕ) (q : ResolveRequest) (a : AttemptRow) (o : Option AttemptRow)
    → Option.map (on_match (is_resolvable q) (resolved now q)) o ≡ some a
    → is_some a.resolution_json ≡ false
    → o ≡ some a
matched-back now q a none e free = cc
matched-back now q a (some b) e free = elim (Bool-cases (is_resolvable q b)) [
  | inl hit ↦ ground (arith, (rw hit at e))
  | inr miss ↦ rw miss at e
]

-- A row without a resolution was there before a turn.
pub turn-back :
    (now : ℕ) (db db' : Db) (id : String) (a : AttemptRow)
    → IsTurn now db db'
    → find_row (has_attempt_id id) db'.attempts ≡ some a
    → is_some a.resolution_json ≡ false
    → find_row (has_attempt_id id) db.attempts ≡ some a
unfolding resolve_payment_attempt refresh_states
turn-back now db db' id a (inl same) found free =
    subst (λ (d : Db). find_row (has_attempt_id id) d.attempts ≡ some a) same found
turn-back now db db' id a (inr (q, same)) found free =
    let resolved_row =
      find_row-update_rows (has_attempt_id id) (is_resolvable q) (resolved now q) db.attempts
        (λ b. refl) in
    let later = subst (λ (d : Db). find_row (has_attempt_id id) d.attempts ≡ some a) same found in
    elim (Bool-cases (any_row (is_resolvable q) db.attempts)) [
      | inr no_row ↦ rw no_row at later
      | inl some_row ↦
          matched-back now q a (find_row (has_attempt_id id) db.attempts)
            (sym resolved_row ∙ (rw some_row at later)) free
    ]
