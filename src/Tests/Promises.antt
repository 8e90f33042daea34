-- ===== src/Tests/Promises.antt =====
-- The theorems about batches and reachable ledgers of ledger.rs at the ledgers of the small bank.
use trust_ledger.Common.{◌≡◌, ◌+◌, ◌≤◌, ◌++◌, ◌∷◌, [], refl, some, arith}
use trust_ledger.SortedMap.{get, insert, update, sum_of}
use trust_ledger.Amount.{checked_add, checked_sub}
use trust_ledger.Account.{ensure_can_debit, ensure_can_credit, debit_limit, credit_limit}
use trust_ledger.Transfer.{validate_shape, transition_to, validate_invariants, new_settlement}
use trust_ledger.Ledger.Checks.{
  get_account, get_transfer, check_timestamp, check_create_account, check_close_account,
  validate_new_transfer, validate_pending_link, check_create_transfer, check_create_pending,
  check_post_pending, check_void_pending,
}
use trust_ledger.Ledger.Operations.{
  create_account, close_account, create_transfer, create_pending, post_pending, void_pending,
}
use trust_ledger.Ledger.Events.{
  check_voided_amount, apply_event, apply_events, apply_batch_op, replay,
}
use trust_ledger.Tests.Bank.{
  account_of, overdraft, payment, opening, holding, opened, held, settled, captured, held-Reachable,
  settled-Reachable,
}
use trust_ledger.Vocabulary.{asset, liability}
use trust_ledger.Account.{bank_asset, customer}
use trust_ledger.Journal.{BatchOp, transfer_posted}
use trust_ledger.LedgerError.{ok}
use trust_ledger.Ledger.State.{new_ledger, after, done}
use trust_ledger.Ledger.Batch.{commit_events, prepare_batch, prepare_transactions}
use trust_ledger.Ledger.Batch.Commit.{
  Committed, commit_events-Committed, Speculated, prepare_batch-Speculated,
}
use trust_ledger.Ledger.Batch.Transactions.{Isolated, prepare_transactions-Isolated}
use trust_ledger.Ledger.Verify.{verify_invariants}
use trust_ledger.Ledger.Verify.Accepts.{verify_invariants-accepts}
use trust_ledger.Ledger.Invariant.{
  IsWellFormed, debits_posted_of, credits_posted_of, debits_pending_of, credits_pending_of,
  held_debit, held_credit,
}
use trust_ledger.Ledger.Invariant.Reachable.{Reachable-replay, operate}
use trust_ledger.Ledger.Invariant.Promises.{
  Reachable-balanced, Reachable-backed, Reachable-IsWellFormed, Reachable-debits_covered,
  Reachable-credits_covered,
}
use trust_ledger.Ledger.Invariant.Lifecycle.{Call-terminal}
use trust_ledger.Ledger.Invariant.Backed.{posted-ne-pending}

opening_applies : apply_events opening (new_ledger 2) ≡ done tt opened
unfolding get insert update checked_add checked_sub ensure_can_debit ensure_can_credit debit_limit
    credit_limit validate_shape transition_to validate_invariants new_settlement get_account
    get_transfer check_timestamp check_create_account check_close_account validate_new_transfer
    validate_pending_link check_create_transfer check_create_pending check_post_pending
    check_void_pending create_account close_account create_transfer create_pending post_pending
    void_pending check_voided_amount apply_event apply_events
opening_applies = refl

buyer_found : get 2 settled.accounts ≡ some (account_of 2 liability customer 150 500 0 0)
unfolding get
buyer_found = refl

vault_found : get 1 settled.accounts ≡ some (account_of 1 asset bank_asset 500 0 0 0)
unfolding get
vault_found = refl

holder_found : get 2 held.accounts ≡ some (account_of 2 liability customer 0 500 200 0)
unfolding get
holder_found = refl

captured_found : get 102 settled.transfers ≡ some captured
unfolding get
captured_found = refl

settled_totals :
    (sum_of debits_posted_of settled.accounts ≡ 650)
    × (sum_of debits_pending_of settled.accounts ≡ 0)
unfolding sum_of
settled_totals = (refl, refl)

commit_events-Committed_example :
    Committed
      (holding ++ transfer_posted overdraft ∷ [])
      opened
      (commit_events (holding ++ transfer_posted overdraft ∷ []) opened)
commit_events-Committed_example =
    commit_events-Committed (holding ++ transfer_posted overdraft ∷ []) opened

prepare_batch-Speculated_example :
    Speculated
      (BatchOp.transfer payment ∷ BatchOp.close_account 3 13 ∷ [])
      opened
      (prepare_batch (BatchOp.transfer payment ∷ BatchOp.close_account 3 13 ∷ []) opened)
prepare_batch-Speculated_example =
    prepare_batch-Speculated (BatchOp.transfer payment ∷ BatchOp.close_account 3 13 ∷ []) opened

prepare_transactions-Isolated_example :
    Isolated ((BatchOp.transfer overdraft ∷ []) ∷ (BatchOp.transfer payment ∷ []) ∷ []) opened (
      prepare_transactions
        ((BatchOp.transfer overdraft ∷ []) ∷ (BatchOp.transfer payment ∷ []) ∷ [])
        opened)
prepare_transactions-Isolated_example =
    prepare_transactions-Isolated
      ((BatchOp.transfer overdraft ∷ []) ∷ (BatchOp.transfer payment ∷ []) ∷ []) opened

Reachable-balanced_example :
    (sum_of debits_posted_of settled.accounts ≡ sum_of credits_posted_of settled.accounts)
    × (sum_of debits_pending_of settled.accounts ≡ sum_of credits_pending_of settled.accounts)
Reachable-balanced_example = Reachable-balanced 2 settled settled-Reachable

Reachable-backed_example :
    (200 ≡ sum_of (held_debit 2) held.transfers) × (0 ≡ sum_of (held_credit 2) held.transfers)
Reachable-backed_example =
    Reachable-backed 2 held held-Reachable 2 (account_of 2 liability customer 0 500 200 0)
      holder_found

Reachable-IsWellFormed_example : IsWellFormed settled 102 captured
Reachable-IsWellFormed_example =
    Reachable-IsWellFormed 2 settled settled-Reachable 102 captured captured_found

Reachable-debits_covered_example : 150 + 0 ≤ 500
Reachable-debits_covered_example =
    Reachable-debits_covered 2 settled settled-Reachable 2
      (account_of 2 liability customer 150 500 0 0) buyer_found refl

Reachable-credits_covered_example : 0 + 0 ≤ 500
Reachable-credits_covered_example =
    Reachable-credits_covered 2 settled settled-Reachable 1
      (account_of 1 asset bank_asset 500 0 0 0) vault_found refl

Reachable-replay_example : replay 2 settled.journal ≡ ok settled
Reachable-replay_example = Reachable-replay 2 settled settled-Reachable

Call-terminal_example :
    get 102 (after (apply_batch_op (BatchOp.void_pending 102 16) settled)).transfers ≡ some captured
Call-terminal_example =
    Call-terminal settled (after (apply_batch_op (BatchOp.void_pending 102 16) settled)) 102
      captured (operate (BatchOp.void_pending 102 16)) captured_found posted-ne-pending

verify_invariants-accepts_example : verify_invariants settled ≡ ok tt
verify_invariants-accepts_example =
    verify_invariants-accepts 2 settled settled-Reachable (omega (arith, settled_totals.0))
      (omega (arith, settled_totals.1))
