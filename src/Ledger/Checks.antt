-- ===== src/Ledger/Checks.antt =====
-- The read-only part of each operation of ledger.rs: every check that runs, in its order, before
-- the first write, and the values that are written afterwards.
use trust_ledger.Common.{Option, none, some, not, ltb, ◌==◌, if◌then◌else◌}
use trust_ledger.SortedMap.{get, contains_key}
use trust_ledger.Vocabulary.{
  AccountId, TransferId, Amount, Scale, Timestamp, pending, posted, state_eq,
}
use trust_ledger.LedgerError.{
  Result, ok, err, ◌>>=◌, ◌>>◌, fail_if, ok_or, account_already_exists, account_not_found,
  account_closed, transfer_already_exists, transfer_not_found, invalid_transfer_state,
  debit_credit_account_same, zero_amount_transfer, scale_mismatch, partial_amount_exceeds_pending,
  timestamp_behind_prior, invalid_pending_link, pending_link_missing,
}
use trust_ledger.Amount.{checked_add, checked_sub}
use trust_ledger.Account.{Account, ensure_can_debit, ensure_can_credit}
use trust_ledger.Transfer.{Transfer, validate_shape, new_settlement}
use trust_ledger.Ledger.State.{Ledger}

unfoldable pub get_account : AccountId → Ledger → Result Account
get_account id l = ok_or (get id l.accounts) (account_not_found id)

unfoldable pub get_transfer : TransferId → Ledger → Result Transfer
get_transfer id l = ok_or (get id l.transfers) (transfer_not_found id)

unfoldable pub check_timestamp : Timestamp → Ledger → Result (Unit {0})
check_timestamp timestamp l =
    if ltb timestamp l.last_timestamp
    then err (timestamp_behind_prior timestamp l.last_timestamp)
    else ok tt

unfoldable pub check_create_account : AccountId → Scale → Timestamp → Ledger → Result (Unit {0})
check_create_account id scale timestamp l = do
  check_timestamp timestamp l
  fail_if (contains_key id l.accounts) (account_already_exists id)
  fail_if (not (scale == l.scale)) (scale_mismatch l.scale scale)

unfoldable pub check_close_account : AccountId → Timestamp → Ledger → Result (Unit {0})
check_close_account id timestamp l = do
  check_timestamp timestamp l
  account ← get_account id l
  fail_if account.flags.is_closed (account_closed id)

unfoldable pub validate_new_transfer : Transfer → Ledger → Result (Unit {0})
validate_new_transfer t l = do
  fail_if (contains_key t.id l.transfers) (transfer_already_exists t.id)
  fail_if (t.debit_account_id == t.credit_account_id) (debit_credit_account_same t.debit_account_id)
  fail_if (t.amount == 0) (zero_amount_transfer t.id)
  validate_shape t

abbrev pub check_link : Transfer → Option TransferId → Ledger → Result (Unit {0})
check_link t none l = ok tt
check_link t (some pending_id) l = do
  hold ← ok_or (get pending_id l.transfers) (pending_link_missing t.id pending_id)
  fail_if (not (state_eq hold.state posted)) (invalid_pending_link t.id pending_id hold.state)

unfoldable pub validate_pending_link : Transfer → Ledger → Result (Unit {0})
validate_pending_link t l = check_link t t.pending_id l

-- `create_transfer` up to its writes: the new posted debits and credits.
unfoldable pub check_create_transfer : Transfer → Ledger → Result (Amount × Amount)
check_create_transfer t l = do
  check_timestamp t.timestamp l
  fail_if (not (state_eq t.state posted)) (invalid_transfer_state t.id posted t.state)
  validate_new_transfer t l
  validate_pending_link t l
  debit_acc ← get_account t.debit_account_id l
  ensure_can_debit debit_acc t.amount
  new_debits ← checked_add debit_acc.balance.debits_posted t.amount
  credit_acc ← get_account t.credit_account_id l
  ensure_can_credit credit_acc t.amount
  new_credits ← checked_add credit_acc.balance.credits_posted t.amount
  ok (new_debits, new_credits)

-- `create_pending` up to its writes: the new pending debits and credits.
unfoldable pub check_create_pending : Transfer → Ledger → Result (Amount × Amount)
check_create_pending t l = do
  check_timestamp t.timestamp l
  fail_if (not (state_eq t.state pending)) (invalid_transfer_state t.id pending t.state)
  validate_new_transfer t l
  debit_acc ← get_account t.debit_account_id l
  ensure_can_debit debit_acc t.amount
  new_debits ← checked_add debit_acc.balance.debits_pending t.amount
  credit_acc ← get_account t.credit_account_id l
  ensure_can_credit credit_acc t.amount
  new_credits ← checked_add credit_acc.balance.credits_pending t.amount
  ok (new_debits, new_credits)

-- What `post_pending` writes.
pub record PostPlan : Type 0 where
  pub hold : Transfer
  pub debits_pending : Amount
  pub debits_posted : Amount
  pub credits_pending : Amount
  pub credits_posted : Amount
  pub posted_transfer : Transfer

-- `post_pending` up to its writes.
unfoldable pub check_post_pending :
    TransferId → TransferId → Amount → Timestamp → Ledger → Result PostPlan
check_post_pending pending_id post_transfer_id amount timestamp l = do
  check_timestamp timestamp l
  fail_if (contains_key post_transfer_id l.transfers) (transfer_already_exists post_transfer_id)
  hold ← get_transfer pending_id l
  fail_if (not (state_eq hold.state pending)) (invalid_transfer_state pending_id pending hold.state)
  fail_if (ltb hold.amount amount) (partial_amount_exceeds_pending pending_id amount hold.amount)
  fail_if (amount == 0) (zero_amount_transfer post_transfer_id)
  debit_acc ← get_account hold.debit_account_id l
  debits_pending ← checked_sub debit_acc.balance.debits_pending hold.amount
  debits_posted ← checked_add debit_acc.balance.debits_posted amount
  credit_acc ← get_account hold.credit_account_id l
  credits_pending ← checked_sub credit_acc.balance.credits_pending hold.amount
  credits_posted ← checked_add credit_acc.balance.credits_posted amount
  posted_transfer ←
      new_settlement post_transfer_id hold.debit_account_id hold.credit_account_id amount pending_id
        timestamp
  ok (record {
    hold = hold;
    debits_pending = debits_pending;
    debits_posted = debits_posted;
    credits_pending = credits_pending;
    credits_posted = credits_posted;
    posted_transfer = posted_transfer;
  })

-- What `void_pending` writes.
pub record VoidPlan : Type 0 where
  pub hold : Transfer
  pub debits_pending : Amount
  pub credits_pending : Amount

-- `void_pending` up to its writes.
unfoldable pub check_void_pending : TransferId → Timestamp → Ledger → Result VoidPlan
check_void_pending pending_id timestamp l = do
  check_timestamp timestamp l
  hold ← get_transfer pending_id l
  fail_if (not (state_eq hold.state pending)) (invalid_transfer_state pending_id pending hold.state)
  debit_acc ← get_account hold.debit_account_id l
  debits_pending ← checked_sub debit_acc.balance.debits_pending hold.amount
  credit_acc ← get_account hold.credit_account_id l
  credits_pending ← checked_sub credit_acc.balance.credits_pending hold.amount
  ok (record { hold = hold; debits_pending = debits_pending; credits_pending = credits_pending })
