-- ===== src/Tests/Bank.antt =====
-- A small bank: a vault, two customers, a deposit, a capture in part and a released hold.
use trust_ledger.Common.{ℕ, List, [], ◌∷◌, ◌++◌, ◌≡◌, refl, none, subst}
use trust_ledger.SortedMap.{get, insert, update, remove}
use trust_ledger.Vocabulary.{asset, liability, pending, posted, voided, AccountType, AccountFlags}
use trust_ledger.LedgerError.{insufficient_funds, invalid_transfer_state, timestamp_behind_prior}
use trust_ledger.Account.{bank_asset, customer, Account}
use trust_ledger.Transfer.{Transfer, settlement, restore_state}
use trust_ledger.Journal.{
  LedgerEvent, account_created, transfer_posted, transfer_pending_created, transfer_pending_posted,
  transfer_pending_voided,
}
use trust_ledger.Ledger.State.{Ledger, new_ledger, after, done, fail}
use trust_ledger.Ledger.Invariant.Reachable.{Reachable, call, start, commit}
use trust_ledger.Ledger.Rollback.{revert, revert_all, rollback}
use trust_ledger.Amount.{checked_add, checked_sub}
use trust_ledger.Account.{
  ensure_can_debit, ensure_can_credit, debit_limit, credit_limit, available_liability,
}
use trust_ledger.Transfer.{validate_shape, transition_to, validate_invariants, new_settlement}
use trust_ledger.Ledger.Checks.{
  get_account, get_transfer, check_timestamp, check_create_account, check_close_account,
  validate_new_transfer, validate_pending_link, check_create_transfer, check_create_pending,
  check_post_pending, check_void_pending,
}
use trust_ledger.Ledger.Operations.{
  create_account, close_account, create_transfer, create_pending, post_pending, void_pending,
}
use trust_ledger.Ledger.Events.{check_voided_amount, apply_event}
use trust_ledger.Ledger.Rollback.{
  pre_images, transfer_before, balance_before, post_before, void_before,
}
use trust_ledger.Ledger.Batch.{run_with_undo, apply_with_undo, commit_events}

abbrev pub account_of : ℕ → AccountType → AccountFlags → ℕ → ℕ → ℕ → ℕ → Account
account_of id account_type flags dp cp dh ch = record {
  id = id;
  account_type = account_type;
  flags = flags;
  scale = 2;
  balance = record {
    debits_posted = dp;
    credits_posted = cp;
    debits_pending = dh;
    credits_pending = ch;
  };
}

abbrev pub deposit : Transfer
deposit = record {
  id = 100;
  debit_account_id = 1;
  credit_account_id = 2;
  amount = 500;
  state = posted;
  pending_id = none;
  timestamp = 11;
}

abbrev pub purchase : Transfer
purchase = record {
  id = 101;
  debit_account_id = 2;
  credit_account_id = 3;
  amount = 200;
  state = pending;
  pending_id = none;
  timestamp = 12;
}

abbrev pub second_purchase : Transfer
second_purchase = record purchase { id = 103; amount = 50; timestamp = 14 }

-- More than the customer has.
abbrev pub overdraft : Transfer
overdraft = record {
  id = 200;
  debit_account_id = 2;
  credit_account_id = 3;
  amount = 10000;
  state = posted;
  pending_id = none;
  timestamp = 20;
}

-- What the customer can pay.
abbrev pub payment : Transfer
payment = record {
  id = 150;
  debit_account_id = 2;
  credit_account_id = 3;
  amount = 300;
  state = posted;
  pending_id = none;
  timestamp = 12;
}

abbrev pub opening : List LedgerEvent
opening =
    account_created 1 asset bank_asset 2 10
    ∷ account_created 2 liability customer 2 10
    ∷ account_created 3 liability customer 2 10
    ∷ transfer_posted deposit
    ∷ []

abbrev pub holding : List LedgerEvent
holding = transfer_pending_created purchase ∷ []

abbrev pub settling : List LedgerEvent
settling =
    transfer_pending_posted 101 102 150 13
    ∷ transfer_pending_created second_purchase
    ∷ transfer_pending_voided 103 50 15
    ∷ []

-- After the deposit, with a hold, and after its capture.
abbrev pub opened : Ledger
opened = record {
  scale = 2;
  accounts =
      (1, account_of 1 asset bank_asset 500 0 0 0)
      ∷ (2, account_of 2 liability customer 0 500 0 0)
      ∷ (3, account_of 3 liability customer 0 0 0 0)
      ∷ [];
  transfers = (100, deposit) ∷ [];
  journal = opening;
  last_timestamp = 11;
}

abbrev pub held : Ledger
held = record {
  scale = 2;
  accounts =
      (1, account_of 1 asset bank_asset 500 0 0 0)
      ∷ (2, account_of 2 liability customer 0 500 200 0)
      ∷ (3, account_of 3 liability customer 0 0 0 200)
      ∷ [];
  transfers = (100, deposit) ∷ (101, purchase) ∷ [];
  journal = opening ++ holding;
  last_timestamp = 12;
}

abbrev pub captured : Transfer
captured = settlement 102 2 3 150 101 13

abbrev pub settled : Ledger
settled = record {
  scale = 2;
  accounts =
      (1, account_of 1 asset bank_asset 500 0 0 0)
      ∷ (2, account_of 2 liability customer 150 500 0 0)
      ∷ (3, account_of 3 liability customer 0 150 0 0)
      ∷ [];
  transfers =
      (100, deposit)
      ∷ (101, restore_state posted purchase)
      ∷ (102, captured)
      ∷ (103, restore_state voided second_purchase)
      ∷ [];
  journal = opening ++ holding ++ settling;
  last_timestamp = 15;
}

pub opened_run : commit_events opening (new_ledger 2) ≡ done tt opened
unfolding get insert update remove checked_add checked_sub ensure_can_debit ensure_can_credit
    debit_limit credit_limit available_liability validate_shape transition_to validate_invariants
    new_settlement get_account get_transfer check_timestamp check_create_account check_close_account
    validate_new_transfer validate_pending_link check_create_transfer check_create_pending
    check_post_pending check_void_pending create_account close_account create_transfer
    create_pending post_pending void_pending check_voided_amount apply_event pre_images
    transfer_before balance_before post_before void_before run_with_undo apply_with_undo
    commit_events
opened_run = refl

pub held_run : commit_events holding opened ≡ done tt held
unfolding get insert update remove checked_add checked_sub ensure_can_debit ensure_can_credit
    debit_limit credit_limit available_liability validate_shape transition_to validate_invariants
    new_settlement get_account get_transfer check_timestamp check_create_account check_close_account
    validate_new_transfer validate_pending_link check_create_transfer check_create_pending
    check_post_pending check_void_pending create_account close_account create_transfer
    create_pending post_pending void_pending check_voided_amount apply_event pre_images
    transfer_before balance_before post_before void_before run_with_undo apply_with_undo
    commit_events
held_run = refl

pub settled_run : commit_events settling held ≡ done tt settled
unfolding get insert update remove checked_add checked_sub ensure_can_debit ensure_can_credit
    debit_limit credit_limit available_liability validate_shape transition_to validate_invariants
    new_settlement get_account get_transfer check_timestamp check_create_account check_close_account
    validate_new_transfer validate_pending_link check_create_transfer check_create_pending
    check_post_pending check_void_pending create_account close_account create_transfer
    create_pending post_pending void_pending check_voided_amount apply_event pre_images
    transfer_before balance_before post_before void_before run_with_undo apply_with_undo
    commit_events
settled_run = refl

-- An overdraft is refused with the available amount, and a batch that holds one is undone.
overdraft_refused :
    commit_events (holding ++ transfer_posted overdraft ∷ []) opened
    ≡ fail (insufficient_funds 2 10000 300) opened
unfolding get insert update remove checked_add checked_sub ensure_can_debit ensure_can_credit
    debit_limit credit_limit available_liability validate_shape transition_to validate_invariants
    new_settlement get_account get_transfer check_timestamp check_create_account check_close_account
    validate_new_transfer validate_pending_link check_create_transfer check_create_pending
    check_post_pending check_void_pending create_account close_account create_transfer
    create_pending post_pending void_pending check_voided_amount apply_event pre_images
    transfer_before balance_before post_before void_before run_with_undo apply_with_undo
    commit_events revert revert_all rollback
overdraft_refused = refl

-- A captured hold cannot be voided.
captured_stays :
    void_pending 101 16 settled ≡ fail (invalid_transfer_state 101 pending posted) settled
unfolding get insert update remove checked_add checked_sub ensure_can_debit ensure_can_credit
    debit_limit credit_limit available_liability validate_shape transition_to validate_invariants
    new_settlement get_account get_transfer check_timestamp check_create_account check_close_account
    validate_new_transfer validate_pending_link check_create_transfer check_create_pending
    check_post_pending check_void_pending create_account close_account create_transfer
    create_pending post_pending void_pending check_voided_amount apply_event pre_images
    transfer_before balance_before post_before void_before run_with_undo apply_with_undo
    commit_events
captured_stays = refl

-- A clock that runs backwards is refused.
late_refused : close_account 3 14 settled ≡ fail (timestamp_behind_prior 14 15) settled
unfolding get insert update remove checked_add checked_sub ensure_can_debit ensure_can_credit
    debit_limit credit_limit available_liability validate_shape transition_to validate_invariants
    new_settlement get_account get_transfer check_timestamp check_create_account check_close_account
    validate_new_transfer validate_pending_link check_create_transfer check_create_pending
    check_post_pending check_void_pending create_account close_account create_transfer
    create_pending post_pending void_pending check_voided_amount apply_event pre_images
    transfer_before balance_before post_before void_before run_with_undo apply_with_undo
    commit_events
late_refused = refl

pub opened-Reachable : Reachable 2 opened
opened-Reachable = subst (λ o. Reachable 2 (after o)) opened_run (call start (commit opening))

pub held-Reachable : Reachable 2 held
held-Reachable =
    subst (λ o. Reachable 2 (after o)) held_run (call opened-Reachable (commit holding))

pub settled-Reachable : Reachable 2 settled
settled-Reachable =
    subst (λ o. Reachable 2 (after o)) settled_run (call held-Reachable (commit settling))
