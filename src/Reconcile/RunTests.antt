-- ===== src/Reconcile/RunTests.antt =====
-- A run over one uncertain payment, one pending hold and one orphan hold, and the theorems at it.
use mathlib.Core.Option
use agent_commerce.Prelude.{
  All, Bool, List, Option, String, [], arith, false, length, none, refl, some, true, ◌==◌, ◌∷◌, ◌≡◌,
}
use agent_commerce.Core.Attempt.{settlement_uncertain, settled}
use agent_commerce.Core.Transaction.{reserved, released, uncertain}
use agent_commerce.Store.Journal.{AttemptRow, Db}
use agent_commerce.Store.Params.{clamp_list_limit}
use agent_commerce.Store.Holds.{HoldRow, has_reference}
use agent_commerce.Sql.{find_row, update_rows}
use agent_commerce.Reconcile.Candidates.{Candidate, Scanned, collect_candidates}
use agent_commerce.Reconcile.Candidates.Sound.{IsSelection, candidates-IsSelection}
use agent_commerce.Reconcile.Verdicts.{
  RunOptions, Verdict, entry_of, finds, found_settled, settle_candidates,
}
use agent_commerce.Reconcile.Verdicts.Recorded.{IsRecorded, written-IsRecorded}
use agent_commerce.Reconcile.Alignment.{
  AlignDeps, HeldTransaction, align_pending, hold_entry, to_consumed,
}
use agent_commerce.Reconcile.Alignment.Aligned.{IsRun, align_pending-IsRun}
use agent_commerce.Reconcile.Orphans.{OrphanEntry, OrphanOptions, references, release_orphans}
use agent_commerce.Reconcile.Orphans.Ends.{Ends, release_orphans-Ends}

abbrev missing_payment : AttemptRow
missing_payment = record {
  id = "a1";
  request_id = "r1";
  resource_id = "weather";
  provider = "x402";
  replay_key = "k1";
  status = settlement_uncertain;
  amount = "0.01";
  currency = "USD";
  payer = none;
  payee = none;
  external_reference = none;
  rejection_reason = none;
  created_at = 5;
  updated_at = 5;
  transaction_id = some "t1";
  resolution_json = none;
}

abbrev one_missing : Db
one_missing = record { attempts = missing_payment ∷ []; history = []; transactions = [] }

abbrev get_missing : String → Option AttemptRow
get_missing id = find_row (λ (a : AttemptRow). a.id == id) one_missing.attempts

abbrev scanned : List Scanned
scanned =
    record { id = "t1"; attempt_id = "a1"; payment_status = settlement_uncertain; locator = none }
    ∷ record { id = "t0"; attempt_id = "a1"; payment_status = settlement_uncertain; locator = none }
    ∷ []

abbrev missing_candidate : Candidate
missing_candidate = record { attempt = missing_payment; transaction_id = some "t1"; locator = none }

one_candidate : collect_candidates 900 60 (some 5) get_missing scanned [] ≡ missing_candidate ∷ []
unfolding collect_candidates
one_candidate = refl

candidates-IsSelection_example :
    IsSelection 900 60 (some 5) (collect_candidates 900 60 (some 5) get_missing scanned [])
candidates-IsSelection_example = candidates-IsSelection 900 60 (some 5) get_missing scanned []

abbrev on_chain : Verdict
on_chain = record {
  outcome = found_settled;
  reason = "transfer found";
  external_reference = some "0xabc";
  evidence = none;
  retry_after = none;
}

abbrev wet_run : RunOptions
wet_run = record {
  providers = record { name = "x402"; reconcile = some (λ _ _. finds on_chain) } ∷ [];
  actor = "cli";
  dry_run = false;
  write_throws = λ _. false;
}

found_on_chain :
    (settle_candidates 900 wet_run (missing_candidate ∷ []) one_missing).1
    ≡ entry_of missing_candidate on_chain true false ∷ []
unfolding settle_candidates
found_on_chain = refl

written-IsRecorded_example :
    let (db', entries) = settle_candidates 900 wet_run (missing_candidate ∷ []) one_missing in
    All (λ e. e.written ≡ true → IsRecorded 900 wet_run one_missing db' e) entries
written-IsRecorded_example =
    written-IsRecorded 900 wet_run (missing_candidate ∷ []) one_missing (tt, tt)

abbrev held_sale : HeldTransaction
held_sale = record {
  id = "t1";
  request_id = "r1";
  resource_id = "weather";
  attempt_id = "a1";
  payment_status = settled;
  authorization = some (record { method = "ap2"; reservation_id = "m1"; hold = uncertain });
}

abbrev calm_deps : AlignDeps
calm_deps = record {
  is_enabled = λ method. method == "ap2";
  provider_throws = λ _ _ _. false;
  journal_throws = λ _. false;
}

hold_consumed :
    (align_pending calm_deps (some 3) false (held_sale ∷ []) []).1
    ≡ hold_entry held_sale to_consumed true none ∷ []
unfolding align_pending
hold_consumed = refl

align_pending-IsRun_example :
    IsRun calm_deps false (align_pending calm_deps (some 3) false (held_sale ∷ []) [])
align_pending-IsRun_example = align_pending-IsRun calm_deps (some 3) false (held_sale ∷ []) [] tt

abbrev orphan : String → HoldRow
orphan reference = record {
  reference = reference;
  method = "ap2";
  binding_reference = reference;
  resource_id = "weather";
  request_id = reference;
  state = reserved;
  metadata_json = none;
  created_at = 5;
  updated_at = 5;
}

-- The release of a hold, which throws for one of them.
abbrev release_hold : HoldRow → List HoldRow → List HoldRow × Bool
release_hold h t = (
  update_rows (has_reference h.reference) (λ (g : HoldRow). record g { state = released }) t,
  h.reference == "m2",
)

release_hold-references :
    (h : HoldRow) (t : List HoldRow) → references (release_hold h t).0 ≡ references t
release_hold-references h [] = refl
release_hold-references h (g ∷ t) = ground (arith, release_hold-references h t)

abbrev orphan_options : OrphanOptions
orphan_options = record {
  dry_run = false;
  limit = some 5;
  updated_before = 100;
  is_enabled = λ _. true;
  release = release_hold;
  attempts = [];
  history = [];
  reference_le = λ a b. a == "m1";
}

orphans_released :
    Option.map
      (λ (x : List HoldRow × List OrphanEntry). length x.1)
      (release_orphans orphan_options 9 [] 0 (orphan "m2" ∷ orphan "m1" ∷ []))
    ≡ some 2
unfolding release_orphans clamp_list_limit
orphans_released = refl

release_orphans-Ends_example :
    Ends orphan_options release_hold-references 0
      (release_orphans orphan_options 9 [] 0 (orphan "m2" ∷ orphan "m1" ∷ []))
release_orphans-Ends_example =
    release_orphans-Ends orphan_options release_hold-references 9 (orphan "m2" ∷ orphan "m1" ∷ [])
      (omega arith)
