-- ===== src/Ledger/Step/Transfers.antt =====
-- `create_account`, `close_account`, `create_transfer` and `create_pending` of ledger.rs take a
-- step of the specification, or fail and leave the ledger as it was.
use trust_ledger.Common.{◌+◌, ◌≡◌, refl, ◌∙◌, inl, inr, arith, not, ap, ap₂, sym}
use trust_ledger.SortedMap.{get}
use trust_ledger.Vocabulary.{
  AccountId, AccountType, AccountFlags, Scale, Timestamp, Amount, pending, posted, state_eq,
}
use trust_ledger.LedgerError.{ok, fail_if, >>=-eq-ok, >>-eq-ok, ok_or-eq-ok, ok_or, Result-cases}
use trust_ledger.Amount.{checked_add}
use trust_ledger.Account.{ensure_can_debit, ensure_can_credit}
use trust_ledger.Transfer.{Transfer}
use trust_ledger.Ledger.State.{Ledger, done, ◌>>=◌}
use trust_ledger.Ledger.Checks.{
  check_timestamp, check_create_account, check_close_account, validate_new_transfer,
  validate_pending_link, check_create_transfer, check_create_pending, get_account, check_link,
}
use trust_ledger.Ledger.Operations.{
  set_closed, create_account, close_account, create_transfer, create_pending,
}
use trust_ledger.Ledger.Step.{
  Creates, Closes, Posts, Reserves, post_debit, post_credit, hold_debit, hold_credit,
  created_ledger, closed_ledger, posted_ledger, reserved_ledger,
}
use trust_ledger.Ledger.Step.Checks.{
  checked_add-eq-ok, ensure_can_debit-MayDebit, ensure_can_credit-MayCredit, check_timestamp-eq-ok,
  check_link-eq-ok, validate_new_transfer-eq-ok, validate_shape-pending,
}
use trust_ledger.Ledger.Step.Writes.{
  Refines, applied, refused, two_writes, read_err, read_ok, max-eq_right,
}

-- Passing the checks of `create_account` is being allowed to create it.
check_create_account-Creates :
    (id : AccountId) (account_type : AccountType) (flags : AccountFlags) (scale : Scale)
    (timestamp : Timestamp) (l : Ledger)
    → check_create_account id scale timestamp l ≡ ok tt
    → Creates id account_type flags scale timestamp l
        (created_ledger id account_type flags scale timestamp l)
unfolding check_create_account check_timestamp
check_create_account-Creates id account_type flags scale timestamp l h = ground arith

-- `create_account` after its checks.
pub create_account-passed :
    (id : AccountId) (account_type : AccountType) (flags : AccountFlags) (scale : Scale)
    (timestamp : Timestamp) (l l' : Ledger)
    → Creates id account_type flags scale timestamp l l'
    → check_create_account id scale timestamp l ≡ ok tt
    → create_account id account_type flags scale timestamp l ≡ done tt l'
unfolding create_account
create_account-passed id account_type flags scale timestamp l l' p passed =
    read_ok (check_create_account id scale timestamp) _ l passed
    ∙ ap
        (λ n.
          done tt (record (created_ledger id account_type flags scale timestamp l) {
            last_timestamp = n;
          }))
        (max-eq_right p.timely)
    ∙ ap (done tt) (sym p.result)

-- Creating an account takes the step that creates it (no earlier event, a fresh identifier, the
-- ledger's scale), or fails and leaves the ledger exactly as it was.
pub create_account-Creates :
    (id : AccountId) (account_type : AccountType) (flags : AccountFlags) (scale : Scale)
    (timestamp : Timestamp) (l : Ledger)
    → Refines l
        (Creates id account_type flags scale timestamp l)
        (create_account id account_type flags scale timestamp l)
unfolding create_account
create_account-Creates id account_type flags scale timestamp l =
    elim (Result-cases (check_create_account id scale timestamp l)) [
      | inr (e, failed) ↦ refused e (read_err (check_create_account id scale timestamp) _ l failed)
      | inl (u, passed) ↦
          let p = check_create_account-Creates id account_type flags scale timestamp l passed in
          applied (created_ledger id account_type flags scale timestamp l)
            (create_account-passed id account_type flags scale timestamp l _ p passed) p
    ]

-- Passing the checks of `close_account` is being allowed to close it.
check_close_account-Closes :
    (id : AccountId) (timestamp : Timestamp) (l : Ledger)
    → check_close_account id timestamp l ≡ ok tt
    → Closes id timestamp l (closed_ledger id timestamp l)
unfolding check_close_account get_account
check_close_account-Closes id timestamp l h =
    let (time, h1) = >>-eq-ok (check_timestamp timestamp l) _ h in
    let (a, found, h2) = >>=-eq-ok (ok_or (get id l.accounts) _) _ h1 in
    record {
      timely = check_timestamp-eq-ok _ l time;
      account = a;
      found = ok_or-eq-ok _ _ found;
      is_open = ground arith;
      result = refl;
    }

-- `close_account` after its checks.
pub close_account-passed :
    (id : AccountId) (timestamp : Timestamp) (l l' : Ledger)
    → Closes id timestamp l l'
    → check_close_account id timestamp l ≡ ok tt
    → close_account id timestamp l ≡ done tt l'
unfolding close_account
close_account-passed id timestamp l l' p passed =
    read_ok (check_close_account id timestamp) _ l passed
    ∙ rw (p.found, set_closed, ◌>>=◌)
        (ap (λ n. done tt (record (closed_ledger id timestamp l) { last_timestamp = n }))
          (max-eq_right p.timely))
    ∙ ap (done tt) (sym p.result)

-- Closing an account takes the step that closes an open account and nothing else, or fails and
-- leaves the ledger exactly as it was.
pub close_account-Closes :
    (id : AccountId) (timestamp : Timestamp) (l : Ledger)
    → Refines l (Closes id timestamp l) (close_account id timestamp l)
unfolding close_account
close_account-Closes id timestamp l = elim (Result-cases (check_close_account id timestamp l)) [
  | inr (e, failed) ↦ refused e (read_err (check_close_account id timestamp) _ l failed)
  | inl (u, passed) ↦
      let p = check_close_account-Closes id timestamp l passed in
      applied (closed_ledger id timestamp l) (close_account-passed id timestamp l _ p passed) p
]

-- Passing the checks of `create_transfer` is being allowed to post it, and gives the new balances.
check_create_transfer-Posts :
    (t : Transfer) (l : Ledger) (new : Amount × Amount)
    → check_create_transfer t l ≡ ok new
    → (p : Posts t l (posted_ledger t l)) × (new.0 ≡ p.debtor.balance.debits_posted + t.amount)
      × (new.1 ≡ p.creditor.balance.credits_posted + t.amount)
unfolding check_create_transfer validate_pending_link get_account
check_create_transfer-Posts t l new h =
    let (time, h1) = >>-eq-ok (check_timestamp t.timestamp l) _ h in
    let (state, h2) = >>-eq-ok (fail_if (not (state_eq t.state posted)) _) _ h1 in
    let (valid, h3) = >>-eq-ok (validate_new_transfer t l) _ h2 in
    let (link, h4) = >>-eq-ok (check_link t t.pending_id l) _ h3 in
    let (d, found_d, h5) = >>=-eq-ok (ok_or (get t.debit_account_id l.accounts) _) _ h4 in
    let (may_d, h6) = >>-eq-ok (ensure_can_debit d t.amount) _ h5 in
    let (nd, add_d, h7) = >>=-eq-ok (checked_add d.balance.debits_posted t.amount) _ h6 in
    let (c, found_c, h8) = >>=-eq-ok (ok_or (get t.credit_account_id l.accounts) _) _ h7 in
    let (may_c, h9) = >>-eq-ok (ensure_can_credit c t.amount) _ h8 in
    let (nc, add_c, h10) = >>=-eq-ok (checked_add c.balance.credits_posted t.amount) _ h9 in
    let (fresh, distinct, positive, shape) = validate_new_transfer-eq-ok t l valid in
    let (nd_eq, nd_fits) = checked_add-eq-ok _ _ add_d in
    let (nc_eq, nc_fits) = checked_add-eq-ok _ _ add_c in
    (
      record {
        admissible = record {
          timely = check_timestamp-eq-ok _ l time;
          fresh = fresh;
          distinct = distinct;
          positive = positive;
          debtor = d;
          creditor = c;
          found_debtor = ok_or-eq-ok _ _ found_d;
          found_creditor = ok_or-eq-ok _ _ found_c;
          may_debit = ensure_can_debit-MayDebit d _ may_d;
          may_credit = ensure_can_credit-MayCredit c _ may_c;
        };
        is_posted = ground arith;
        linked = check_link-eq-ok t _ l link;
        debit_fits = nd_fits;
        credit_fits = nc_fits;
        result = refl;
      },
      ground arith,
      ground arith,
    )

-- `create_transfer` after its checks.
pub create_transfer-passed :
    (t : Transfer) (l l' : Ledger) (p : Posts t l l')
    → check_create_transfer t l
      ≡ ok (p.debtor.balance.debits_posted + t.amount, p.creditor.balance.credits_posted + t.amount)
    → create_transfer t l ≡ done tt l'
unfolding create_transfer
create_transfer-passed t l l' p passed =
    read_ok (check_create_transfer t) _ l passed
    ∙ two_writes t.debit_account_id t.credit_account_id _ _ (post_debit t.amount)
        (post_credit t.amount) p.debtor p.creditor l _ p.distinct p.found_debtor p.found_creditor
        refl refl
    ∙ ap (λ n. done tt (record (posted_ledger t l) { last_timestamp = n })) (max-eq_right p.timely)
    ∙ ap (done tt) (sym p.result)

-- Creating a posted transfer takes the step that moves its amount between the two accounts, with
-- every condition that the step requires, or fails and leaves the ledger exactly as it was.
pub create_transfer-Posts :
    (t : Transfer) (l : Ledger) → Refines l (Posts t l) (create_transfer t l)
unfolding create_transfer
create_transfer-Posts t l = elim (Result-cases (check_create_transfer t l)) [
  | inr (e, failed) ↦ refused e (read_err (check_create_transfer t) _ l failed)
  | inl (new, passed) ↦
      let (p, new_debits, new_credits) = check_create_transfer-Posts t l new passed in
      applied (posted_ledger t l)
        (create_transfer-passed t l _ p (passed ∙ ap₂ (λ x y. ok (x, y)) new_debits new_credits)) p
]

-- Passing the checks of `create_pending` is being allowed to reserve, and gives the new balances.
check_create_pending-Reserves :
    (t : Transfer) (l : Ledger) (new : Amount × Amount)
    → check_create_pending t l ≡ ok new
    → (p : Reserves t l (reserved_ledger t l)) × (new.0
        ≡ p.debtor.balance.debits_pending + t.amount)
      × (new.1 ≡ p.creditor.balance.credits_pending + t.amount)
unfolding check_create_pending get_account
check_create_pending-Reserves t l new h =
    let (time, h1) = >>-eq-ok (check_timestamp t.timestamp l) _ h in
    let (state, h2) = >>-eq-ok (fail_if (not (state_eq t.state pending)) _) _ h1 in
    let (valid, h4) = >>-eq-ok (validate_new_transfer t l) _ h2 in
    let (d, found_d, h5) = >>=-eq-ok (ok_or (get t.debit_account_id l.accounts) _) _ h4 in
    let (may_d, h6) = >>-eq-ok (ensure_can_debit d t.amount) _ h5 in
    let (nd, add_d, h7) = >>=-eq-ok (checked_add d.balance.debits_pending t.amount) _ h6 in
    let (c, found_c, h8) = >>=-eq-ok (ok_or (get t.credit_account_id l.accounts) _) _ h7 in
    let (may_c, h9) = >>-eq-ok (ensure_can_credit c t.amount) _ h8 in
    let (nc, add_c, h10) = >>=-eq-ok (checked_add c.balance.credits_pending t.amount) _ h9 in
    let (fresh, distinct, positive, shape) = validate_new_transfer-eq-ok t l valid in
    let (nd_eq, nd_fits) = checked_add-eq-ok _ _ add_d in
    let (nc_eq, nc_fits) = checked_add-eq-ok _ _ add_c in
    let state_is : t.state ≡ pending = ground arith in
    (
      record {
        admissible = record {
          timely = check_timestamp-eq-ok _ l time;
          fresh = fresh;
          distinct = distinct;
          positive = positive;
          debtor = d;
          creditor = c;
          found_debtor = ok_or-eq-ok _ _ found_d;
          found_creditor = ok_or-eq-ok _ _ found_c;
          may_debit = ensure_can_debit-MayDebit d _ may_d;
          may_credit = ensure_can_credit-MayCredit c _ may_c;
        };
        is_pending = state_is;
        unlinked = validate_shape-pending t shape state_is;
        debit_fits = nd_fits;
        credit_fits = nc_fits;
        result = refl;
      },
      ground arith,
      ground arith,
    )

-- `create_pending` after its checks.
pub create_pending-passed :
    (t : Transfer) (l l' : Ledger) (p : Reserves t l l')
    → check_create_pending t l
      ≡ ok (
        p.debtor.balance.debits_pending + t.amount,
        p.creditor.balance.credits_pending + t.amount,
      )
    → create_pending t l ≡ done tt l'
unfolding create_pending
create_pending-passed t l l' p passed =
    read_ok (check_create_pending t) _ l passed
    ∙ two_writes t.debit_account_id t.credit_account_id _ _ (hold_debit t.amount)
        (hold_credit t.amount) p.debtor p.creditor l _ p.distinct p.found_debtor p.found_creditor
        refl refl
    ∙ ap (λ n. done tt (record (reserved_ledger t l) { last_timestamp = n }))
        (max-eq_right p.timely)
    ∙ ap (done tt) (sym p.result)

-- Creating a pending transfer takes the step that reserves its amount on the two accounts and
-- posts nothing, or fails and leaves the ledger exactly as it was.
pub create_pending-Reserves :
    (t : Transfer) (l : Ledger) → Refines l (Reserves t l) (create_pending t l)
unfolding create_pending
create_pending-Reserves t l = elim (Result-cases (check_create_pending t l)) [
  | inr (e, failed) ↦ refused e (read_err (check_create_pending t) _ l failed)
  | inl (new, passed) ↦
      let (p, new_debits, new_credits) = check_create_pending-Reserves t l new passed in
      applied (reserved_ledger t l)
        (create_pending-passed t l _ p (passed ∙ ap₂ (λ x y. ok (x, y)) new_debits new_credits)) p
]
