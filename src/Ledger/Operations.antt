-- ===== src/Ledger/Operations.antt =====
-- The six mutations of ledger.rs as a release build runs them: the read-only checks, then the
-- writes in the source's order, each with its own `get_mut(..).ok_or(..)?`.
use trust_ledger.Common.{none, some, true}
use trust_ledger.SortedMap.{get, update}
use trust_ledger.Vocabulary.{
  AccountId, TransferId, Amount, Scale, Timestamp, AccountType, AccountFlags, posted, voided,
}
use trust_ledger.LedgerError.{account_not_found}
use trust_ledger.Account.{new_account}
use trust_ledger.Transfer.{Transfer}
use trust_ledger.Journal.{
  account_created, account_closed, transfer_posted, transfer_pending_created,
  transfer_pending_posted, transfer_pending_voided,
}
use trust_ledger.Ledger.State.{
  Method, done, fail, ◌>>=◌, ◌>>◌, read, write_balance, write_state, insert_account,
  insert_transfer, advance_timestamp, push_event,
}
use trust_ledger.Ledger.Checks.{
  check_create_account, check_close_account, check_create_transfer, check_create_pending,
  check_post_pending, check_void_pending,
}

unfoldable pub create_account :
    AccountId → AccountType → AccountFlags → Scale → Timestamp → Method (Unit {0})
create_account id account_type flags scale timestamp = do
  read (check_create_account id scale timestamp)
  insert_account id (new_account id account_type flags scale)
  advance_timestamp timestamp
  push_event (account_created id account_type flags scale timestamp)

-- `account.flags.is_closed = true` on the account that was found.
abbrev pub set_closed : AccountId → Method (Unit {0})
set_closed id l = elim (get id l.accounts) [
  | none ↦ fail (account_not_found id) l
  | some a ↦ done tt (record l {
    accounts =
        update id (λ b. record b { flags = record (b.flags) { is_closed = true } }) l.accounts;
  })
]

unfoldable pub close_account : AccountId → Timestamp → Method (Unit {0})
close_account id timestamp = do
  read (check_close_account id timestamp)
  set_closed id
  advance_timestamp timestamp
  push_event (account_closed id timestamp)

unfoldable pub create_transfer : Transfer → Method (Unit {0})
create_transfer t = do
  new ← read (check_create_transfer t)
  write_balance t.debit_account_id (λ b. record b { debits_posted = new.0 })
  write_balance t.credit_account_id (λ b. record b { credits_posted = new.1 })
  advance_timestamp t.timestamp
  insert_transfer t.id t
  push_event (transfer_posted t)

unfoldable pub create_pending : Transfer → Method (Unit {0})
create_pending t = do
  new ← read (check_create_pending t)
  write_balance t.debit_account_id (λ b. record b { debits_pending = new.0 })
  write_balance t.credit_account_id (λ b. record b { credits_pending = new.1 })
  advance_timestamp t.timestamp
  insert_transfer t.id t
  push_event (transfer_pending_created t)

unfoldable pub post_pending : TransferId → TransferId → Amount → Timestamp → Method (Unit {0})
post_pending pending_id post_transfer_id amount timestamp = do
  plan ← read (check_post_pending pending_id post_transfer_id amount timestamp)
  write_balance plan.hold.debit_account_id
      (λ b. record b { debits_pending = plan.debits_pending; debits_posted = plan.debits_posted })
  write_balance plan.hold.credit_account_id (λ b. record b {
    credits_pending = plan.credits_pending;
    credits_posted = plan.credits_posted;
  })
  write_state pending_id posted
  advance_timestamp timestamp
  insert_transfer post_transfer_id plan.posted_transfer
  push_event (transfer_pending_posted pending_id post_transfer_id amount timestamp)

unfoldable pub void_pending : TransferId → Timestamp → Method (Unit {0})
void_pending pending_id timestamp = do
  plan ← read (check_void_pending pending_id timestamp)
  write_balance plan.hold.debit_account_id (λ b. record b { debits_pending = plan.debits_pending })
  write_balance plan.hold.credit_account_id
      (λ b. record b { credits_pending = plan.credits_pending })
  write_state pending_id voided
  advance_timestamp timestamp
  push_event (transfer_pending_voided pending_id plan.hold.amount timestamp)
