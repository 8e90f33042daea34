-- ===== src/Transfer.antt =====
-- Transfers and their life cycle: crates/ledger-core/src/transfer.rs.
use trust_ledger.Common.{Option, none, some, ◌==◌}
use trust_ledger.Vocabulary.{
  AccountId, TransferId, Amount, Timestamp, TransferState, pending, posted, voided,
}
use trust_ledger.LedgerError.{
  Result, ok, err, ◌>>◌, fail_if, invalid_transfer_state, debit_credit_account_same,
  zero_amount_transfer, invalid_pending_link,
}

pub record Transfer : Type 0 where
  pub id : TransferId
  pub debit_account_id : AccountId
  pub credit_account_id : AccountId
  pub amount : Amount
  pub state : TransferState
  pub pending_id : Option TransferId
  pub timestamp : Timestamp

unfoldable pub validate_invariants : TransferId → AccountId → AccountId → Amount → Result (Unit {0})
validate_invariants id debit_account_id credit_account_id amount = do
  fail_if (debit_account_id == credit_account_id) (debit_credit_account_same debit_account_id)
  fail_if (amount == 0) (zero_amount_transfer id)

unfoldable pub new_immediate :
    TransferId → AccountId → AccountId → Amount → Timestamp → Result Transfer
unfolding validate_invariants
new_immediate id debit_account_id credit_account_id amount timestamp = do
  validate_invariants id debit_account_id credit_account_id amount
  ok (record {
    id = id;
    debit_account_id = debit_account_id;
    credit_account_id = credit_account_id;
    amount = amount;
    state = posted;
    pending_id = none;
    timestamp = timestamp;
  })

unfoldable pub new_pending :
    TransferId → AccountId → AccountId → Amount → Timestamp → Result Transfer
unfolding validate_invariants
new_pending id debit_account_id credit_account_id amount timestamp = do
  validate_invariants id debit_account_id credit_account_id amount
  ok (record {
    id = id;
    debit_account_id = debit_account_id;
    credit_account_id = credit_account_id;
    amount = amount;
    state = pending;
    pending_id = none;
    timestamp = timestamp;
  })

-- The transfer that `new_settlement` builds when the validation passes.
abbrev pub settlement :
    TransferId → AccountId → AccountId → Amount → TransferId → Timestamp → Transfer
settlement id debit_account_id credit_account_id amount pending_id timestamp = record {
  id = id;
  debit_account_id = debit_account_id;
  credit_account_id = credit_account_id;
  amount = amount;
  state = posted;
  pending_id = some pending_id;
  timestamp = timestamp;
}

unfoldable pub new_settlement :
    TransferId → AccountId → AccountId → Amount → TransferId → Timestamp → Result Transfer
unfolding validate_invariants
new_settlement id debit_account_id credit_account_id amount pending_id timestamp = do
  validate_invariants id debit_account_id credit_account_id amount
  ok (settlement id debit_account_id credit_account_id amount pending_id timestamp)

-- The pattern of `validate_shape`: a pending hold with a hold link.
abbrev pub shape_of : TransferId → TransferState → Option TransferId → Result (Unit {0})
shape_of id pending (some pending_id) = err (invalid_pending_link id pending_id pending)
shape_of id _ _ = ok tt

unfoldable pub validate_shape : Transfer → Result (Unit {0})
validate_shape t = shape_of t.id t.state t.pending_id

-- `transition_to` by the state it starts from and its target.
abbrev pub transition : Transfer → TransferState → TransferState → Result Transfer
transition t pending posted = ok (record t { state = posted })
transition t pending voided = ok (record t { state = voided })
transition t actual _ = err (invalid_transfer_state t.id pending actual)

unfoldable pub transition_to : TransferState → Transfer → Result Transfer
transition_to target t = transition t t.state target

abbrev pub restore_state : TransferState → Transfer → Transfer
restore_state state t = record t { state = state }
