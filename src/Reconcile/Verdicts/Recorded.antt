-- ===== src/Reconcile/Verdicts/Recorded.antt =====
-- What a run of src/core/execution/reconcile.ts leaves in the tables.
use mathlib.Core.Option
use mathlib.Core.List.{Mem, mem-cons_self, mem-cons_of_mem}
use agent_commerce.Prelude.{
  All, List, Option, String, [], false, none, or_else, some, true, ℕ, ◌∷◌, ◌≡◌, All-map, Bool,
  Bool-cases, ap, arith, eq_iff, inl, inr, is_some, not, refl, subst, sym, ◌&&◌, ◌==◌,
}
use agent_commerce.Json.{Json}
use agent_commerce.Core.Attempt.{rejected, settled}
use agent_commerce.Sql.{find_row}
use agent_commerce.Store.Redact.{redact}
use agent_commerce.Store.Journal.{AttemptRow, Db, Resolution, has_attempt_id, reconcile}
use agent_commerce.Store.Journal.Writes.{redacted_resolution, resolved}
use agent_commerce.Store.Journal.Unique.{IsUnique}
use agent_commerce.Reconcile.Candidates.{Candidate}
use agent_commerce.Reconcile.Verdicts.{
  Entry, Outcome, Provider, Reply, RunOptions, Verdict, ask, entry_of, finds, found_settled,
  is_known, not_settled, report_verdict, settle_candidate, settle_candidates, unknown,
  write_verdict, ask_provider, breaks, malformed, rejection_for, reply_verdict, status_for,
  verdict_request,
}
use agent_commerce.Reconcile.Verdicts.Written.{
  IsResolved, IsTurn, run-IsResolved, settle_candidate-IsResolved, settle_candidate-IsTurn,
  turn-IsUnique, turn-back,
}

-- A provider of the run that has the attempt's name gave the verdict.
pub record IsGiven (ps : List Provider) (c : Candidate) (v : Verdict) : Type 0 where
  pub provider : Provider
  pub enabled : Mem provider ps
  pub named : provider.name ≡ c.attempt.provider
  pub call : AttemptRow → Option Json → Reply
  pub reconciles : provider.reconcile ≡ some call
  pub answered : call c.attempt c.locator ≡ finds v

-- The row `b` after a verdict on the row `a`: settled if the verdict says so, rejected with a reason
-- if it says that the payment was not settled, and nothing for an unknown outcome.
abbrev pub IsWrittenAs : Outcome → AttemptRow → AttemptRow → Type 0
IsWrittenAs found_settled a b = (b.status ≡ settled) × (b.rejection_reason ≡ a.rejection_reason)
IsWrittenAs not_settled a b = (b.status ≡ rejected) × (b.rejection_reason ≡ some "not_settled")
IsWrittenAs unknown a b = ⊥

-- The resolution that the row keeps
abbrev pub resolution_for : ℕ → String → Verdict → Resolution
resolution_for now actor v = record {
  method = reconcile;
  actor = actor;
  reason = v.reason;
  at = now;
  external_reference = v.external_reference;
  evidence = Option.map redact v.evidence;
}

-- The attempt in the tables carries the verdict that the provider gave.
pub record IsRecorded (now : ℕ) (o : RunOptions) (first db : Db) (entry : Entry) : Type 0 where
  pub given : IsGiven o.providers entry.candidate entry.verdict
  pub before : AttemptRow
  pub row : AttemptRow
  pub found : find_row (has_attempt_id entry.candidate.attempt.id) db.attempts ≡ some row
  pub was : find_row (has_attempt_id entry.candidate.attempt.id) first.attempts ≡ some before
  pub expected : before.status ≡ entry.candidate.attempt.status
  pub unresolved : before.resolution_json ≡ none
  pub written_as : IsWrittenAs entry.verdict.outcome before row
  pub kept : row.resolution_json ≡ some (resolution_for now o.actor entry.verdict)
  pub reference :
      row.external_reference ≡ or_else entry.verdict.external_reference before.external_reference

reply-known : (r : Reply) → is_known (reply_verdict r).outcome ≡ true → r ≡ finds (reply_verdict r)
reply-known (finds v) h = refl
reply-known malformed h = cc
reply-known breaks h = cc

ask_provider-known :
    (reconciles : Option (AttemptRow → Option Json → Reply)) (c : Candidate)
    → is_known (ask_provider reconciles c).outcome ≡ true
    → (call : AttemptRow → Option Json → Reply) × (reconciles ≡ some call)
      × (call c.attempt c.locator ≡ finds (ask_provider reconciles c))
ask_provider-known none c h = cc
ask_provider-known (some call) c h = (call, refl, reply-known (call c.attempt c.locator) h)

ask-IsGiven :
    (ps : List Provider) (c : Candidate)
    → is_known (ask ps c).outcome ≡ true
    → IsGiven ps c (ask ps c)
unfolding ask
ask-IsGiven [] c h = cc
ask-IsGiven (p ∷ ps) c h = elim (Bool-cases (p.name == c.attempt.provider)) [
  | inl same ↦
      let (call, reconciles, answered) = ask_provider-known p.reconcile c (rw same at h) in
      rw (ask, same)
        (record {
          provider = p;
          enabled = mem-cons_self;
          named = (eq_iff p.name c.attempt.provider).0 same;
          call = call;
          reconciles = reconciles;
          answered = answered;
        })
  | inr other ↦
      let given = ask-IsGiven ps c (rw other at h) in
      rw (ask, other)
        (record {
          provider = given.provider;
          enabled = mem-cons_of_mem p given.enabled;
          named = given.named;
          call = given.call;
          reconciles = given.reconciles;
          answered = given.answered;
        })
]

report-known :
    (now : ℕ) (o : RunOptions) (c : Candidate) (v : Verdict) (due : Bool) (db : Db)
    → (report_verdict now o c v due db).1.written ≡ true
    → ((report_verdict now o c v due db).1 ≡ entry_of c v true false) × (due ≡ true)
unfolding report_verdict write_verdict
report-known now o c v false db w = cc
report-known now o c v true db w = (write-known (o.write_throws c.attempt) w, refl)
  where
    write-known :
        (throws : Bool)
        → (write_verdict now o.actor c v throws db).1.written ≡ true
        → (write_verdict now o.actor c v throws db).1 ≡ entry_of c v true false
    write-known true h = cc
    write-known false h = ap (λ b. entry_of c v b false) h

-- A turn that reports a write was given a known verdict, and reports that verdict.
written-known :
    (now : ℕ) (o : RunOptions) (c : Candidate) (db : Db)
    → (settle_candidate now o c db).1.written ≡ true
    → ((settle_candidate now o c db).1 ≡ entry_of c (ask o.providers c) true false)
      × (is_known (ask o.providers c).outcome ≡ true)
unfolding settle_candidate
written-known now o c db w =
    let known =
      report-known now o c (ask o.providers c)
        (not o.dry_run && is_known (ask o.providers c).outcome) db w in
    (known.0, ground (arith, known.1))

IsWrittenAs-outcome :
    (x : Outcome) (a b : AttemptRow)
    → is_known x ≡ true
    → b.status ≡ status_for x
    → b.rejection_reason ≡ or_else (rejection_for x) a.rejection_reason
    → IsWrittenAs x a b
IsWrittenAs-outcome found_settled a b h s r = (s, r)
IsWrittenAs-outcome not_settled a b h s r = (s, r)
IsWrittenAs-outcome unknown a b h s r = cc

redacted-evidence :
    (now : ℕ) (actor : String) (a : AttemptRow) (v : Verdict)
    → redacted_resolution (verdict_request now actor a v).resolution ≡ resolution_for now actor v
redacted-evidence now actor a v = ground arith

not_some : (x : Option Resolution) → is_some x ≡ false → x ≡ none
not_some none h = refl
not_some (some r) h = cc

IsRecorded-resolved :
    (now : ℕ) (o : RunOptions) (first db : Db) (c : Candidate)
    → is_known (ask o.providers c).outcome ≡ true
    → IsResolved now o first db (entry_of c (ask o.providers c) true false)
    → IsRecorded now o first db (entry_of c (ask o.providers c) true false)
IsRecorded-resolved now o first db c known (a, found, was, s, r) =
    let v = ask o.providers c in
    record {
      given = ask-IsGiven o.providers c known;
      before = a;
      row = resolved now (verdict_request now o.actor c.attempt v) a;
      found = found;
      was = was;
      expected = s;
      unresolved = not_some a.resolution_json r;
      written_as = IsWrittenAs-outcome v.outcome a _ known refl refl;
      kept = ap some (redacted-evidence now o.actor c.attempt v);
      reference = refl;
    }

IsRecorded-turn :
    (now : ℕ) (o : RunOptions) (db db' last : Db) (e : Entry)
    → IsTurn now db db'
    → IsRecorded now o db' last e
    → IsRecorded now o db last e
IsRecorded-turn now o db db' last e turn h = record {
  given = h.given;
  before = h.before;
  row = h.row;
  found = h.found;
  expected = h.expected;
  unresolved = h.unresolved;
  written_as = h.written_as;
  kept = h.kept;
  reference = h.reference;
  was = turn-back now db db' e.candidate.attempt.id h.before turn h.was (rw h.unresolved refl);
}

-- In tables with one attempt to an id: for each entry of a run's report that says `written`, an
-- enabled provider with the attempt's name gave the entry's verdict on the candidate, and its outcome
-- is not `unknown`. Before the run the attempt had the status that was seen and no resolution; after
-- it, the attempt is settled, or rejected with the reason `not_settled`, as the verdict says, with
-- the verdict, its evidence redacted, as its resolution.
pub written-IsRecorded :
    (now : ℕ) (o : RunOptions) (cs : List Candidate) (db : Db)
    → IsUnique db
    → let (db', entries) = settle_candidates now o cs db in
      All (λ e. e.written ≡ true → IsRecorded now o db db' e) entries
unfolding settle_candidates
written-IsRecorded now o [] db u = tt
written-IsRecorded now o (c ∷ cs) db u =
    let db' : Db = (settle_candidate now o c db).0 in
    let turn = settle_candidate-IsTurn now o c db in
    (
      λ w.
          (let (entry, known) = written-known now o c db w in
            let last = (settle_candidates now o cs db').0 in
            let done =
              run-IsResolved now o cs db db' (settle_candidate now o c db).1
                (settle_candidate-IsResolved now o c db u w) in
            subst (IsRecorded now o db last) (sym entry) (
              IsRecorded-resolved now o db last c known
                (subst (IsResolved now o db last) entry done))),
      All-map (settle_candidates now o cs db').1
          (λ e h w. IsRecorded-turn now o db db' (settle_candidates now o cs db').0 e turn (h w))
          (written-IsRecorded now o cs db' (turn-IsUnique now db db' turn u)),
    )
