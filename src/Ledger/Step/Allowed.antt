-- ===== src/Ledger/Step/Allowed.antt =====
-- The other direction of the specification: a step whose conditions hold is not refused by the
-- methods of ledger.rs.
use trust_ledger.Common.{
  ◌+◌, ◌-◌, ◌≤◌, ◌<◌, ◌≡◌, ◌≢◌, refl, false, Option, none, some, arith, ◌==◌, ltb,
}
use trust_ledger.SortedMap.{get}
use trust_ledger.Vocabulary.{
  AccountType, AccountFlags, Scale, AccountId, TransferId, Timestamp, Amount, posted, u128_mod,
}
use trust_ledger.LedgerError.{ok}
use trust_ledger.Amount.{checked_add, checked_sub}
use trust_ledger.Account.{Account, ensure_can_debit, ensure_can_credit, debit_limit, credit_limit}
use trust_ledger.Transfer.{
  Transfer, validate_shape, new_settlement, settlement, validate_invariants,
}
use trust_ledger.Ledger.State.{Ledger, done}
use trust_ledger.Ledger.Checks.{
  check_create_account, check_close_account, check_timestamp, validate_new_transfer,
  validate_pending_link, check_create_transfer, check_create_pending, check_post_pending,
  check_void_pending, get_account, get_transfer, check_link,
}
use trust_ledger.Ledger.Operations.{
  create_account, close_account, create_transfer, create_pending, post_pending, void_pending,
}
use trust_ledger.Ledger.Step.{
  Creates, Closes, MayDebit, MayCredit, HasPostedHold, Posts, Reserves, Captures, Releases,
}
use trust_ledger.Ledger.Step.Transfers.{
  create_account-passed, close_account-passed, create_transfer-passed, create_pending-passed,
}
use trust_ledger.Ledger.Step.Holds.{
  post_pending-passed, void_pending-passed, capture_plan, void_plan,
}

checked_add-ok : (a b : Amount) → a + b < u128_mod → checked_add a b ≡ ok (a + b)
unfolding checked_add
checked_add-ok a b h = ground arith

checked_sub-ok : (a b : Amount) → b ≤ a → checked_sub a b ≡ ok (a - b)
unfolding checked_sub
checked_sub-ok a b h = ground arith

MayDebit-ok :
    (a : Account) (amount : Amount)
    → MayDebit a amount
    → a.balance.credits_posted < u128_mod
    → ensure_can_debit a amount ≡ ok tt
unfolding ensure_can_debit debit_limit checked_add
MayDebit-ok a amount may fits = ground arith

MayCredit-ok :
    (a : Account) (amount : Amount)
    → MayCredit a amount
    → a.balance.debits_posted < u128_mod
    → ensure_can_credit a amount ≡ ok tt
unfolding ensure_can_credit credit_limit checked_add
MayCredit-ok a amount may fits = ground arith

check_timestamp-ok :
    (t : Timestamp) (l : Ledger) → l.last_timestamp ≤ t → check_timestamp t l ≡ ok tt
unfolding check_timestamp
check_timestamp-ok t l h = ground arith

check_link-ok :
    (t : Transfer) (o : Option TransferId) (l : Ledger)
    → HasPostedHold o l
    → check_link t o l ≡ ok tt
check_link-ok t none l h = refl
check_link-ok t (some p) l (hold, found, is_posted) = rw (found, is_posted) refl

validate_new_transfer-ok :
    (t : Transfer) (l : Ledger)
    → get t.id l.transfers ≡ none
    → t.debit_account_id ≢ t.credit_account_id
    → 0 < t.amount
    → validate_shape t ≡ ok tt
    → validate_new_transfer t l ≡ ok tt
unfolding validate_new_transfer
validate_new_transfer-ok t l fresh distinct positive shape = ground arith

posted_shape : (t : Transfer) → t.state ≡ posted → validate_shape t ≡ ok tt
unfolding validate_shape
posted_shape t h = rw h refl

unlinked_shape : (t : Transfer) → t.pending_id ≡ none → validate_shape t ≡ ok tt
unfolding validate_shape
unlinked_shape t h = ground arith

check_create_transfer-ok :
    (t : Transfer) (l l' : Ledger) (p : Posts t l l')
    → p.debtor.balance.credits_posted < u128_mod
    → p.creditor.balance.debits_posted < u128_mod
    → check_create_transfer t l
      ≡ ok (p.debtor.balance.debits_posted + t.amount, p.creditor.balance.credits_posted + t.amount)
unfolding check_create_transfer validate_pending_link get_account
check_create_transfer-ok t l l' p fits_d fits_c =
    rw
      (
        check_timestamp-ok t.timestamp l p.timely,
        validate_new_transfer-ok t l p.fresh p.distinct p.positive (posted_shape t p.is_posted),
        check_link-ok t t.pending_id l p.linked,
        p.is_posted,
        p.found_debtor,
        p.found_creditor,
        MayDebit-ok p.debtor t.amount p.may_debit fits_d,
        MayCredit-ok p.creditor t.amount p.may_credit fits_c,
        checked_add-ok _ _ p.debit_fits,
        checked_add-ok _ _ p.credit_fits,
      )
      refl

-- A posted transfer that meets the conditions of its step is created, and the ledger takes that
-- step, where the balances that limit its two accounts are 128-bit numbers.
pub create_transfer-allowed :
    (t : Transfer) (l l' : Ledger) (p : Posts t l l')
    → p.debtor.balance.credits_posted < u128_mod
    → p.creditor.balance.debits_posted < u128_mod
    → create_transfer t l ≡ done tt l'
create_transfer-allowed t l l' p fits_d fits_c =
    create_transfer-passed t l l' p (check_create_transfer-ok t l l' p fits_d fits_c)

check_create_pending-ok :
    (t : Transfer) (l l' : Ledger) (p : Reserves t l l')
    → p.debtor.balance.credits_posted < u128_mod
    → p.creditor.balance.debits_posted < u128_mod
    → check_create_pending t l
      ≡ ok (
        p.debtor.balance.debits_pending + t.amount,
        p.creditor.balance.credits_pending + t.amount,
      )
unfolding check_create_pending get_account
check_create_pending-ok t l l' p fits_d fits_c =
    rw
      (
        check_timestamp-ok t.timestamp l p.timely,
        validate_new_transfer-ok t l p.fresh p.distinct p.positive (unlinked_shape t p.unlinked),
        p.is_pending,
        p.found_debtor,
        p.found_creditor,
        MayDebit-ok p.debtor t.amount p.may_debit fits_d,
        MayCredit-ok p.creditor t.amount p.may_credit fits_c,
        checked_add-ok _ _ p.debit_fits,
        checked_add-ok _ _ p.credit_fits,
      )
      refl

-- A hold that meets the conditions of its step is created, and the ledger takes that step, where
-- the balances that limit its two accounts are 128-bit numbers.
pub create_pending-allowed :
    (t : Transfer) (l l' : Ledger) (p : Reserves t l l')
    → p.debtor.balance.credits_posted < u128_mod
    → p.creditor.balance.debits_posted < u128_mod
    → create_pending t l ≡ done tt l'
create_pending-allowed t l l' p fits_d fits_c =
    create_pending-passed t l l' p (check_create_pending-ok t l l' p fits_d fits_c)

new_settlement-ok :
    (id : TransferId) (d c : AccountId) (n : Amount) (p : TransferId) (ts : Timestamp)
    → d ≢ c
    → 0 < n
    → new_settlement id d c n p ts ≡ ok (settlement id d c n p ts)
unfolding new_settlement validate_invariants
new_settlement-ok id d c n p ts distinct positive = ground arith

capture_tests : (n m : Amount) → 0 < n → n ≤ m → (ltb m n ≡ false) × ((n == 0) ≡ false)
capture_tests n m positive within = ground arith

check_post_pending-ok :
    (pending_id post_transfer_id : TransferId) (amount : Amount) (timestamp : Timestamp)
    (l l' : Ledger) (p : Captures pending_id post_transfer_id amount timestamp l l')
    → check_post_pending pending_id post_transfer_id amount timestamp l
      ≡ ok (capture_plan pending_id post_transfer_id amount timestamp l l' p)
unfolding check_post_pending get_account get_transfer
check_post_pending-ok pending_id post_transfer_id amount timestamp l l' p =
    rw
      (
        check_timestamp-ok timestamp l p.timely,
        p.fresh,
        p.found_hold,
        p.is_pending,
        (capture_tests amount p.hold.amount p.positive p.within).0,
        (capture_tests amount p.hold.amount p.positive p.within).1,
        p.found_debtor,
        checked_sub-ok _ _ p.debit_held,
        checked_add-ok _ _ p.debit_fits,
        p.found_creditor,
        checked_sub-ok _ _ p.credit_held,
        checked_add-ok _ _ p.credit_fits,
        new_settlement-ok post_transfer_id p.hold.debit_account_id p.hold.credit_account_id amount
            pending_id timestamp p.distinct p.positive,
      )
      refl

-- A capture that meets the conditions of its step is made, and the ledger takes that step,
-- whether the accounts of the hold are open or closed.
pub post_pending-allowed :
    (pending_id post_transfer_id : TransferId) (amount : Amount) (timestamp : Timestamp)
    (l l' : Ledger)
    → Captures pending_id post_transfer_id amount timestamp l l'
    → post_pending pending_id post_transfer_id amount timestamp l ≡ done tt l'
post_pending-allowed pending_id post_transfer_id amount timestamp l l' p =
    post_pending-passed pending_id post_transfer_id amount timestamp l l' p
      (check_post_pending-ok pending_id post_transfer_id amount timestamp l l' p)

check_void_pending-ok :
    (pending_id : TransferId) (timestamp : Timestamp) (l l' : Ledger)
    (p : Releases pending_id timestamp l l')
    → check_void_pending pending_id timestamp l ≡ ok (void_plan pending_id timestamp l l' p)
unfolding check_void_pending get_account get_transfer
check_void_pending-ok pending_id timestamp l l' p =
    rw
      (
        check_timestamp-ok timestamp l p.timely,
        p.found_hold,
        p.is_pending,
        p.found_debtor,
        checked_sub-ok _ _ p.debit_held,
        p.found_creditor,
        checked_sub-ok _ _ p.credit_held,
      )
      refl

-- A void that meets the conditions of its step is made, and the ledger takes that step, whether
-- the accounts of the hold are open or closed.
pub void_pending-allowed :
    (pending_id : TransferId) (timestamp : Timestamp) (l l' : Ledger)
    → Releases pending_id timestamp l l'
    → void_pending pending_id timestamp l ≡ done tt l'
void_pending-allowed pending_id timestamp l l' p =
    void_pending-passed pending_id timestamp l l' p
      (check_void_pending-ok pending_id timestamp l l' p)

check_create_account-ok :
    (id : AccountId) (account_type : AccountType) (flags : AccountFlags) (scale : Scale)
    (timestamp : Timestamp) (l l' : Ledger)
    → Creates id account_type flags scale timestamp l l'
    → check_create_account id scale timestamp l ≡ ok tt
unfolding check_create_account check_timestamp
check_create_account-ok id account_type flags scale timestamp l l' p = ground arith

-- An account that meets the conditions of its step is created, and the ledger takes that step.
pub create_account-allowed :
    (id : AccountId) (account_type : AccountType) (flags : AccountFlags) (scale : Scale)
    (timestamp : Timestamp) (l l' : Ledger)
    → Creates id account_type flags scale timestamp l l'
    → create_account id account_type flags scale timestamp l ≡ done tt l'
create_account-allowed id account_type flags scale timestamp l l' p =
    create_account-passed id account_type flags scale timestamp l l' p
      (check_create_account-ok id account_type flags scale timestamp l l' p)

check_close_account-ok :
    (id : AccountId) (timestamp : Timestamp) (l l' : Ledger)
    → Closes id timestamp l l'
    → check_close_account id timestamp l ≡ ok tt
unfolding check_close_account get_account
check_close_account-ok id timestamp l l' p =
    rw (check_timestamp-ok timestamp l p.timely, p.found, p.is_open) refl

-- An open account can always be closed, no earlier than the last event, and the ledger takes that
-- step: reservations and a balance do not prevent it.
pub close_account-allowed :
    (id : AccountId) (timestamp : Timestamp) (l l' : Ledger)
    → Closes id timestamp l l'
    → close_account id timestamp l ≡ done tt l'
close_account-allowed id timestamp l l' p =
    close_account-passed id timestamp l l' p (check_close_account-ok id timestamp l l' p)
