-- ===== src/Store/Journal/Listing/Tests.antt =====
-- Pages of a short journal, and the loop over them.
use agent_commerce.Sql.{select_rows}
use agent_commerce.Prelude.{
  Bool, List, String, [], arith, false, if◌then◌else◌, none, refl, some, true, ℕ, ◌∷◌, ◌≡◌,
}
--@@use agent_commerce.Sql
use agent_commerce.Core.Time.{instant}
use agent_commerce.Core.Transaction.{
  TransactionState, payment_pending, delivery_started, transaction_state,
}
use agent_commerce.Store.Params.{whole, clamp_list_limit}
use agent_commerce.Store.Journal.{TransactionRow, payment_status, state_at, archived_status}
use agent_commerce.Store.Journal.Listing.{ListQuery, list_transactions, read_pages}
use agent_commerce.Store.Journal.Listing.Complete.{read_pages_complete, wanted}

-- A sale without its attempt, dispatched with a deadline at 20 if it is `sent`
abbrev sale : String → Bool → TransactionState → TransactionRow
sale id sent state = record {
  id = id;
  request_id = "r1";
  resource_id = "weather";
  protocol = "mcp";
  state = state;
  provider = "x402";
  attempt_id = id;
  replay_key = id;
  network = none;
  asset = none;
  authorization_json = none;
  reservation_id = none;
  locator_json = none;
  expires_at = none;
  input_digest = none;
  config_digest = "c";
  settling_at = none;
  backend_dispatched_at = if sent then some (instant 5) else none;
  backend_deadline_at = if sent then some (instant 20) else none;
  backend_status = none;
  backend_error_code = none;
  receipt_id = none;
  persistence_failures_json = none;
  completed_at = none;
  created_at = 5;
  updated_at = instant 5;
}

abbrev journal : List (ℕ × TransactionRow)
journal =
    (9, sale "t3" false payment_pending)
    ∷ (4, sale "t2" true delivery_started)
    ∷ (1, sale "t1" false payment_pending)
    ∷ []

abbrev pending_query : ListQuery
pending_query = record {
  cursor = none;
  limit = some (whole 1);
  state = some payment_pending;
  unresolved = true;
  pending_hold = false;
  request_id = none;
}

-- At 30 the deadline has passed, so the row stored as started is pending again.
first_page : (list_transactions [] [] (instant 30) pending_query journal).next ≡ some 9
unfolding list_transactions clamp_list_limit
first_page = refl

read_pages_complete_example :
    read_pages [] [] (instant 30) 9 pending_query journal
    ≡ some (
        select_rows
          (λ (r : ℕ × TransactionRow). wanted [] [] (instant 30) pending_query r.1)
          journal)
unfolding state_at transaction_state payment_status archived_status
read_pages_complete_example =
    read_pages_complete [] [] (instant 30) 9 pending_query journal refl
      ((omega arith, (omega arith, tt)), ((omega arith, tt), (tt, tt)))
      ((instant 5, refl), ((instant 5, refl), ((instant 5, refl), tt))) (omega arith)

all_pending : wanted [] [] (instant 30) pending_query (sale "t2" true delivery_started) ≡ true
unfolding state_at transaction_state payment_status archived_status
all_pending = refl
