-- ===== src/Store/Journal/Reserve.antt =====
-- `reservePaymentAttempt` of src/storage/receipts/store.ts: one immediate transaction that may archive
-- and reclaim a rejected attempt, inserts an attempt, and opens a journal row. A constraint that fails
-- rolls the whole call back.
use agent_commerce.Prelude.{
  Bool, List, Option, String, [], if◌then◌else◌, none, not, some, ℕ, ◌&&◌, ◌++◌, ◌==◌, ◌∷◌,
}
use agent_commerce.Json.{Json}
use agent_commerce.Sql.{any_row, find_row, update_rows}
use agent_commerce.Store.Redact.{redact}
use agent_commerce.Core.Time.{IsoTimestamp, instant}
use agent_commerce.Core.Attempt.{AttemptStatus, reserved, rejected, status_eq}
use agent_commerce.Core.Transaction.{transaction_state}
use agent_commerce.Core.Transaction
use agent_commerce.Store.Journal.{
  ArchivedRow, AttemptRow, Db, StoredAuthorization, TransactionRow, has_attempt_id, has_replay_key,
  has_transaction_id,
}

-- `NewTransaction['authorization']`
pub record NewAuthorization : Type 0 where
  pub method : String
  pub reference : String
  pub metadata : Option Json
  pub reservation_id : String

-- `NewTransaction`
pub record NewTransaction : Type 0 where
  pub id : String
  pub protocol : String
  pub network : Option String
  pub asset : Option String
  pub locator : Option Json
  pub expires_at : Option IsoTimestamp
  pub authorization : Option NewAuthorization
  pub input_digest : Option String
  pub config_digest : String

-- `PaymentAttemptReservation`
pub record Reservation : Type 0 where
  pub request_id : String
  pub resource_id : String
  pub provider : String
  pub replay_key : String
  pub amount : String
  pub currency : String
  pub payer : Option String
  pub payee : Option String
  pub reclaim_rejected : Bool
  pub transaction : Option NewTransaction

-- The row, PAYMENT_REPLAYED with the status of the existing attempt, or STORAGE_ERROR.
pub data Reserved : Type 0 where
  attempt : AttemptRow → Reserved
  payment_replayed : Option AttemptStatus → Reserved
  storage_error : Reserved

abbrev transaction_id_of : Option NewTransaction → Option String
transaction_id_of none = none
transaction_id_of (some t) = some t.id

-- `insertPaymentAttemptStmt`
abbrev pub new_attempt : ℕ → String → Reservation → AttemptRow
new_attempt now id r = record {
  id = id;
  request_id = r.request_id;
  resource_id = r.resource_id;
  provider = r.provider;
  replay_key = r.replay_key;
  status = reserved;
  amount = r.amount;
  currency = r.currency;
  payer = r.payer;
  payee = r.payee;
  external_reference = none;
  rejection_reason = none;
  created_at = now;
  updated_at = now;
  transaction_id = transaction_id_of r.transaction;
  resolution_json = none;
}

-- The WHERE clause of the archive and of the reclaim.
abbrev pub is_reclaimable : Reservation → AttemptRow → Bool
is_reclaimable r a =
    a.replay_key == r.replay_key && (a.provider == r.provider && status_eq a.status rejected)

-- `reclaimPaymentAttemptStmt` sets every column but `replay_key` and `provider`, which it matched.
abbrev pub reclaimed : ℕ → String → Reservation → AttemptRow → AttemptRow
reclaimed now id r a = record (new_attempt now id r) {
  provider = a.provider;
  replay_key = a.replay_key;
}

-- `archiveRejectedAttemptStmt`
unfoldable pub archive_rejected : ℕ → Reservation → List AttemptRow → List ArchivedRow
archive_rejected now r [] = []
archive_rejected now r (a ∷ more) =
    let rest = archive_rejected now r more in
    if is_reclaimable r a then record { attempt = a; superseded_at = now } ∷ rest else rest

abbrev stored_authorization : Option NewAuthorization → Option StoredAuthorization
stored_authorization none = none
stored_authorization (some a) = some (record {
  method = a.method;
  reference = a.reference;
  metadata = elim a.metadata [ none ↦ none | some j ↦ some (redact j) ];
  hold = Transaction.reserved;
})

abbrev reservation_id_of : Option NewAuthorization → Option String
reservation_id_of none = none
reservation_id_of (some a) = some a.reservation_id

-- `insertTransactionStmt`, after the attempt's row
unfoldable pub new_transaction : Reservation → AttemptRow → NewTransaction → TransactionRow
new_transaction r a n = record {
  id = n.id;
  request_id = r.request_id;
  resource_id = r.resource_id;
  protocol = n.protocol;
  state =
      transaction_state (record { payment_status = reserved; backend = none; completed_at = none })
        (instant a.created_at);
  provider = r.provider;
  attempt_id = a.id;
  replay_key = r.replay_key;
  network = n.network;
  asset = n.asset;
  authorization_json = stored_authorization n.authorization;
  reservation_id = reservation_id_of n.authorization;
  locator_json = elim n.locator [ none ↦ none | some j ↦ some (redact j) ];
  expires_at = n.expires_at;
  input_digest = n.input_digest;
  config_digest = n.config_digest;
  settling_at = none;
  backend_dispatched_at = none;
  backend_deadline_at = none;
  backend_status = none;
  backend_error_code = none;
  receipt_id = none;
  persistence_failures_json = none;
  completed_at = none;
  created_at = a.created_at;
  updated_at = instant a.created_at;
}

-- The journal row, under the UNIQUE constraint on its id.
unfoldable pub open_transaction : Reservation → AttemptRow → Db → Db → Db × Reserved
open_transaction r a before db = elim r.transaction [
  | none ↦ (db, attempt a)
  | some n ↦
      if any_row (has_transaction_id n.id) db.transactions
      then (before, storage_error)
      else (record db { transactions = db.transactions ++ new_transaction r a n ∷ [] }, attempt a)
]

-- The INSERT, under the UNIQUE constraints on the id, which is tested first, and on the replay key.
unfoldable pub insert_attempt : ℕ → String → Reservation → Db → Db × Reserved
unfolding open_transaction
insert_attempt now id r db =
    if any_row (has_attempt_id id) db.attempts
    then (db, storage_error)
    else elim (find_row (has_replay_key r.replay_key) db.attempts) [
      | some a ↦ (db, payment_replayed (some a.status))
      | none ↦
          open_transaction r (new_attempt now id r) db
            (record db { attempts = db.attempts ++ new_attempt now id r ∷ [] })
    ]

-- The archive and the UPDATE, which must keep the id unique too.
unfoldable pub reclaim_attempt : ℕ → String → Reservation → AttemptRow → Db → Db × Reserved
unfolding open_transaction
reclaim_attempt now id r a db =
    if any_row (λ b. has_attempt_id id b && not (is_reclaimable r b)) db.attempts
    then (db, storage_error)
    else open_transaction r (reclaimed now id r a) db (record db {
      attempts = update_rows (is_reclaimable r) (reclaimed now id r) db.attempts;
      history = db.history ++ archive_rejected now r db.attempts;
    })

-- `reservePaymentAttempt`, with the id that the generator returns
unfoldable pub reserve_payment_attempt : ℕ → String → Reservation → Db → Db × Reserved
unfolding insert_attempt reclaim_attempt
reserve_payment_attempt now id r db =
    if r.reclaim_rejected
    then elim (find_row (is_reclaimable r) db.attempts) [
      | some a ↦ reclaim_attempt now id r a db
      | none ↦ insert_attempt now id r db
    ]
    else insert_attempt now id r db
