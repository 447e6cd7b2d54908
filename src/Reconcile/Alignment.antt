-- ===== src/Reconcile/Alignment.antt =====
-- `alignHold` and `alignPendingHolds` of src/core/execution/reconcile.ts: the hold of a resolved
-- payment is brought in line. The calls that leave the module are kept in the order in which they are
-- made; whether a provider or the journal throws is an argument.
pub mod Aligned
use agent_commerce.Prelude.{
  Bool, List, Option, String, [], false, if◌then◌else◌, leb, length, none, some, true, ℕ, ◌++◌, ◌∷◌,
}
use agent_commerce.Core.Attempt.{AttemptStatus, settled, rejected}
use agent_commerce.Core.Transaction.{HoldState, consumed, released}
use agent_commerce.Store.Holds.{is_open}

-- The `authorization` of a `Transaction`
pub record Authorization : Type 0 where
  pub method : String
  pub reservation_id : String
  pub hold : HoldState

-- A `Transaction`, as this part reads it
pub record HeldTransaction : Type 0 where
  pub id : String
  pub request_id : String
  pub resource_id : String
  pub attempt_id : String
  pub payment_status : AttemptStatus
  pub authorization : Option Authorization

-- `HoldEntry['hold']`
pub data Target : Type 0 where
  to_consumed to_released : Target

-- The state that the journal records
abbrev pub recorded_hold : Target → HoldState
recorded_hold to_consumed = consumed
recorded_hold to_released = released

pub data Reason : Type 0 where
  provider_not_enabled provider_error journal_error : Reason

-- `HoldEntry`; its ids and method are those of the transaction.
pub record HoldEntry : Type 0 where
  pub transaction : HeldTransaction
  pub hold : Target
  pub written : Bool
  pub reason : Option Reason

-- A call that leaves the module: `provider.consume` or `provider.release` with a transaction's
-- reservation and its request, and the step `hold` of the journal.
pub data Effect : Type 0 where
  calls : Target → Authorization → HeldTransaction → Effect
  records : String → HoldState → Effect

-- Which providers are enabled, and what throws.
pub record AlignDeps : Type 0 where
  pub is_enabled : String → Bool
  pub provider_throws : Target → Authorization → HeldTransaction → Bool
  pub journal_throws : String → Bool

abbrev pub target_of : AttemptStatus → Option Target
target_of settled = some to_consumed
target_of rejected = some to_released
target_of _ = none

-- `holdTarget`
unfoldable pub hold_target : HeldTransaction → Option Target
hold_target t = elim t.authorization [
  | none ↦ none
  | some a ↦ if is_open a.hold then target_of t.payment_status else none
]

-- `holdEntry`
abbrev pub hold_entry : HeldTransaction → Target → Bool → Option Reason → HoldEntry
hold_entry t target written reason = record {
  transaction = t;
  hold = target;
  written = written;
  reason = reason;
}

-- The part of `alignHold` after the provider's call
unfoldable pub record_hold : Bool → HeldTransaction → Target → HoldEntry
record_hold true t target = hold_entry t target false (some journal_error)
record_hold false t target = hold_entry t target true none

-- The part of `alignHold` from the provider's call on
unfoldable pub call_provider :
    AlignDeps → Bool → Authorization → HeldTransaction → Target → List Effect × HoldEntry
unfolding record_hold
call_provider deps true a t target =
    (calls target a t ∷ [], hold_entry t target false (some provider_error))
call_provider deps false a t target = (
  calls target a t ∷ records t.id (recorded_hold target) ∷ [],
  record_hold (deps.journal_throws t.id) t target,
)

unfoldable pub align_authorized :
    AlignDeps → Bool → Authorization → HeldTransaction → Target → List Effect × HoldEntry
unfolding call_provider
align_authorized deps false a t target = ([], hold_entry t target false (some provider_not_enabled))
align_authorized deps true a t target =
    call_provider deps (deps.provider_throws target a t) a t target

abbrev pub align_with :
    AlignDeps → Option Authorization → HeldTransaction → Target → List Effect × HoldEntry
align_with deps none t target = ([], hold_entry t target false (some provider_not_enabled))
align_with deps (some a) t target = align_authorized deps (deps.is_enabled a.method) a t target

-- `alignHold`
unfoldable pub align_hold : AlignDeps → HeldTransaction → Target → List Effect × HoldEntry
unfolding align_authorized
align_hold deps t target = align_with deps t.authorization t target

-- `holds.length >= limit`, where `none` is POSITIVE_INFINITY
abbrev pub is_spent : Option ℕ → List HoldEntry → Bool
is_spent none holds = false
is_spent (some n) holds = leb n (length holds)

-- What a run adds for one transaction with a target
unfoldable pub align_one : AlignDeps → Bool → HeldTransaction → Target → List Effect × HoldEntry
unfolding align_hold
align_one deps true t target = ([], hold_entry t target false none)
align_one deps false t target = align_hold deps t target

-- `alignPendingHolds`, over the transactions of its pages, after the entries so far
unfoldable pub align_pending :
    AlignDeps
    → Option ℕ
    → Bool
    → List HeldTransaction
    → List HoldEntry
    → List Effect × List HoldEntry
unfolding hold_target align_one
align_pending deps limit dry_run [] holds = ([], holds)
align_pending deps limit dry_run (t ∷ ts) holds =
    let skipped = align_pending deps limit dry_run ts holds in
    elim (hold_target t) [
      | none ↦ skipped
      | some target ↦
          let (effects, entry) = align_one deps dry_run t target in
          let (later, all) = align_pending deps limit dry_run ts (holds ++ entry ∷ []) in
          if is_spent limit holds then ([], holds) else (effects ++ later, all)
    ]
