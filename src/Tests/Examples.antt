-- ===== src/Tests/Examples.antt =====
-- The theorems about the operations of ledger.rs at the ledgers of the small bank.
use trust_ledger.Common.{◌≡◌, ◌<◌, ◌∷◌, [], refl, arith}
use trust_ledger.SortedMap.{get}
use trust_ledger.Ledger.Checks.{get_account}
use trust_ledger.Ledger.Operations.{create_transfer, post_pending, void_pending}
use trust_ledger.Ledger.Events.{apply_event}
use trust_ledger.Ledger.Rollback.{pre_images, transfer_before, balance_before}
use trust_ledger.Tests.Bank.{account_of, purchase, payment, opened, held}
use trust_ledger.Vocabulary.{liability, u128_mod, Amount}
use trust_ledger.Account.{customer}
use trust_ledger.Journal.{transfer_posted}
use trust_ledger.LedgerError.{ok}
use trust_ledger.Ledger.State.{done}
use trust_ledger.Ledger.Step.{
  created_ledger, closed_ledger, Step, MayCredit, Creates, Closes, Posts, Reserves, Captures,
  Releases, posted_ledger, reserved_ledger, captured_ledger, released_ledger,
}
use trust_ledger.Ledger.Step.Writes.{Refines}
use trust_ledger.Ledger.Step.Events.{apply_event-Step}
use trust_ledger.Ledger.Step.Holds.{void_pending-Releases}
use trust_ledger.Ledger.Step.Allowed.{
  create_transfer-allowed, post_pending-allowed, void_pending-allowed,
}
use trust_ledger.Ledger.Rollback.{account_balance_before, remove_transfer}

seller_credit : (n : Amount) → MayCredit (account_of 3 liability customer 0 0 0 0) n
seller_credit n = record { is_open = refl; covered = λ h. cc }

fits_500 : 500 < u128_mod
fits_500 = omega arith

fits_0 : 0 < u128_mod
fits_0 = omega arith

-- The steps of the specification that the bank can take.
abbrev payment-Posts : Posts payment opened (posted_ledger payment opened)
unfolding get
payment-Posts = record {
  admissible = record {
    timely = omega arith;
    fresh = refl;
    distinct = omega arith;
    positive = omega arith;
    debtor = account_of 2 liability customer 0 500 0 0;
    creditor = account_of 3 liability customer 0 0 0 0;
    found_debtor = refl;
    found_creditor = refl;
    may_debit = record { is_open = refl; covered = λ h. omega arith };
    may_credit = seller_credit _;
  };
  is_posted = refl;
  linked = tt;
  debit_fits = omega arith;
  credit_fits = omega arith;
  result = refl;
}

abbrev purchase-Reserves : Reserves purchase opened (reserved_ledger purchase opened)
unfolding get
purchase-Reserves = record {
  admissible = record {
    timely = omega arith;
    fresh = refl;
    distinct = omega arith;
    positive = omega arith;
    debtor = account_of 2 liability customer 0 500 0 0;
    creditor = account_of 3 liability customer 0 0 0 0;
    found_debtor = refl;
    found_creditor = refl;
    may_debit = record { is_open = refl; covered = λ h. omega arith };
    may_credit = seller_credit _;
  };
  is_pending = refl;
  unlinked = refl;
  debit_fits = omega arith;
  credit_fits = omega arith;
  result = refl;
}

purchase-Captures : Captures 101 102 150 13 held (captured_ledger purchase 101 102 150 13 held)
unfolding get
purchase-Captures = record {
  held = record {
    timely = omega arith;
    hold = purchase;
    debtor = account_of 2 liability customer 0 500 200 0;
    creditor = account_of 3 liability customer 0 0 0 200;
    found_hold = refl;
    found_debtor = refl;
    found_creditor = refl;
    is_pending = refl;
    debit_held = omega arith;
    credit_held = omega arith;
  };
  fresh = refl;
  distinct = omega arith;
  positive = omega arith;
  within = omega arith;
  debit_fits = omega arith;
  credit_fits = omega arith;
  result = refl;
}

purchase-Releases : Releases 101 13 held (released_ledger purchase 101 13 held)
unfolding get
purchase-Releases = record {
  held = record {
    timely = omega arith;
    hold = purchase;
    debtor = account_of 2 liability customer 0 500 200 0;
    creditor = account_of 3 liability customer 0 0 0 200;
    found_hold = refl;
    found_debtor = refl;
    found_creditor = refl;
    is_pending = refl;
    debit_held = omega arith;
    credit_held = omega arith;
  };
  result = refl;
}

payment_before :
    pre_images (transfer_posted payment) opened
    ≡ ok (
        account_balance_before 2 (account_of 2 liability customer 0 500 0 0).balance
        ∷ account_balance_before 3 (account_of 3 liability customer 0 0 0 0).balance
        ∷ remove_transfer 150
        ∷ [])
unfolding pre_images transfer_before balance_before get_account get
payment_before = refl

apply_event-Step_example :
    Refines opened
      (Step (transfer_posted payment) opened)
      (apply_event (transfer_posted payment) opened)
apply_event-Step_example = apply_event-Step (transfer_posted payment) opened

void_pending-Releases_example : Refines held (Releases 101 13 held) (void_pending 101 13 held)
void_pending-Releases_example = void_pending-Releases 101 13 held

create_transfer-allowed_example :
    create_transfer payment opened ≡ done tt (posted_ledger payment opened)
unfolding payment-Posts
create_transfer-allowed_example =
    create_transfer-allowed payment opened (posted_ledger payment opened) payment-Posts fits_500
      fits_0

post_pending-allowed_example :
    post_pending 101 102 150 13 held ≡ done tt (captured_ledger purchase 101 102 150 13 held)
post_pending-allowed_example =
    post_pending-allowed 101 102 150 13 held (captured_ledger purchase 101 102 150 13 held)
      purchase-Captures

seller-Creates :
    Creates 4 liability customer 2 12 opened (created_ledger 4 liability customer 2 12 opened)
unfolding get
seller-Creates = record { timely = omega arith; fresh = refl; same_scale = refl; result = refl }

holder-Closes : Closes 2 13 held (closed_ledger 2 13 held)
unfolding get
holder-Closes = record {
  timely = omega arith;
  account = account_of 2 liability customer 0 500 200 0;
  found = refl;
  is_open = refl;
  result = refl;
}

void_pending-allowed_example :
    void_pending 101 13 held ≡ done tt (released_ledger purchase 101 13 held)
void_pending-allowed_example =
    void_pending-allowed 101 13 held (released_ledger purchase 101 13 held) purchase-Releases
