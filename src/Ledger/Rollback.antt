-- ===== src/Ledger/Rollback.antt =====
-- Pre-images and `rollback` of ledger.rs.
pub mod Reverts
use trust_ledger.Common.{ℕ, List, [], ◌∷◌, ◌++◌, take, is_some, Option, none, some}
use trust_ledger.SortedMap.{get, update, remove, contains_key}
use trust_ledger.Vocabulary.{AccountId, TransferId, Timestamp, AccountFlags, TransferState}
use trust_ledger.LedgerError.{Result, ok, err, ◌>>=◌, ◌>>◌, fail_if, account_already_exists}
use trust_ledger.Account.{Balance}
use trust_ledger.Transfer.{Transfer, restore_state}
use trust_ledger.Journal.{LedgerEvent, BatchOp}
use trust_ledger.Ledger.State.{Ledger}
use trust_ledger.Ledger.Checks.{get_account, get_transfer}

pub data UndoOp : Type 0 where
  remove_account : AccountId → UndoOp
  account_flags_before : AccountId → AccountFlags → UndoOp
  account_balance_before : AccountId → Balance → UndoOp
  remove_transfer : TransferId → UndoOp
  transfer_state_before : TransferId → TransferState → UndoOp

-- One arm of the loop of `rollback`; a missing entry is left as it is.
unfoldable pub revert : UndoOp → Ledger → Ledger
revert (remove_account id) l = record l { accounts = remove id l.accounts }
revert (account_flags_before id flags) l = record l {
  accounts = update id (λ a. record a { flags = flags }) l.accounts;
}
revert (account_balance_before id balance) l = record l {
  accounts = update id (λ a. record a { balance = balance }) l.accounts;
}
revert (remove_transfer id) l = record l { transfers = remove id l.transfers }
revert (transfer_state_before id state) l = record l {
  transfers = update id (restore_state state) l.transfers;
}

-- The loop `for op in undo.iter().rev()`.
unfoldable pub revert_all : List UndoOp → Ledger → Ledger
unfolding revert
revert_all [] l = l
revert_all (op ∷ ops) l = revert op (revert_all ops l)

unfoldable pub rollback : List UndoOp → ℕ → Timestamp → Ledger → Ledger
unfolding revert_all
rollback undo base_journal_len base_timestamp l =
    let l' = revert_all undo l in
    record l' { journal = take base_journal_len l'.journal; last_timestamp = base_timestamp }

-- `push_balance_before`: the pre-image that is pushed.
unfoldable pub balance_before : AccountId → Ledger → Result UndoOp
balance_before id l = do account ← get_account id l; ok (account_balance_before id account.balance)

-- The pre-images of a posted or pending transfer.
unfoldable pub transfer_before : Transfer → Ledger → Result (List UndoOp)
transfer_before t l = do
  debit ← balance_before t.debit_account_id l
  credit ← balance_before t.credit_account_id l
  ok (debit ∷ credit ∷ remove_transfer t.id ∷ [])

-- The pre-images of a capture.
unfoldable pub post_before : TransferId → TransferId → Ledger → Result (List UndoOp)
post_before pending_id post_transfer_id l = do
  pending ← get_transfer pending_id l
  debit ← balance_before pending.debit_account_id l
  credit ← balance_before pending.credit_account_id l
  ok (
      debit
      ∷ credit
      ∷ transfer_state_before pending_id pending.state
      ∷ remove_transfer post_transfer_id
      ∷ [])

-- The pre-images of a void.
unfoldable pub void_before : TransferId → Ledger → Result (List UndoOp)
void_before pending_id l = do
  pending ← get_transfer pending_id l
  debit ← balance_before pending.debit_account_id l
  credit ← balance_before pending.credit_account_id l
  ok (debit ∷ credit ∷ transfer_state_before pending_id pending.state ∷ [])

-- The pre-image of a closed account.
unfoldable pub flags_before : AccountId → Ledger → Result (List UndoOp)
flags_before id l = do account ← get_account id l; ok (account_flags_before id account.flags ∷ [])

unfoldable pub pre_images : LedgerEvent → Ledger → Result (List UndoOp)
pre_images (LedgerEvent.account_created id account_type flags scale timestamp) l =
    ok (remove_account id ∷ [])
pre_images (LedgerEvent.account_closed id timestamp) l = flags_before id l
pre_images (LedgerEvent.transfer_posted t) l = transfer_before t l
pre_images (LedgerEvent.transfer_pending_created t) l = transfer_before t l
pre_images (LedgerEvent.transfer_pending_posted pending_id post_transfer_id amount timestamp) l =
    post_before pending_id post_transfer_id l
pre_images (LedgerEvent.transfer_pending_voided pending_id amount timestamp) l =
    void_before pending_id l

unfoldable pub op_pre_images : BatchOp → Ledger → Result (List UndoOp)
op_pre_images (BatchOp.create_account id account_type flags scale timestamp) l = do
  fail_if (contains_key id l.accounts) (account_already_exists id)
  ok (remove_account id ∷ [])
op_pre_images (BatchOp.close_account id timestamp) l = flags_before id l
op_pre_images (BatchOp.transfer t) l = transfer_before t l
op_pre_images (BatchOp.pending_transfer t) l = transfer_before t l
op_pre_images (BatchOp.post_pending pending_id post_transfer_id amount timestamp) l =
    post_before pending_id post_transfer_id l
op_pre_images (BatchOp.void_pending pending_id timestamp) l = void_before pending_id l
