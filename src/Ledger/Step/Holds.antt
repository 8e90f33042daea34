-- ===== src/Ledger/Step/Holds.antt =====
-- `post_pending` and `void_pending` of ledger.rs take a step of the specification, or fail and
-- leave the ledger as it was.
use trust_ledger.Common.{
  ◌+◌, ◌-◌, ◌≡◌, ◌≢◌, refl, sym, ◌∙◌, inl, inr, some, arith, not, ap, Bool-cases, ltb, ◌==◌,
}
use trust_ledger.SortedMap.{get, contains_key}
use trust_ledger.Vocabulary.{
  AccountId, TransferId, Timestamp, Amount, pending, posted, voided, state_eq,
}
use trust_ledger.LedgerError.{ok, fail_if, >>=-eq-ok, >>-eq-ok, ok_or-eq-ok, ok_or, Result-cases}
use trust_ledger.Amount.{checked_add, checked_sub}
use trust_ledger.Transfer.{Transfer, new_settlement, settlement, transition_to, restore_state}
use trust_ledger.Ledger.State.{Ledger, done}
use trust_ledger.Ledger.Checks.{
  check_timestamp, check_post_pending, check_void_pending, PostPlan, VoidPlan, get_account,
  get_transfer,
}
use trust_ledger.Ledger.Operations.{post_pending, void_pending}
use trust_ledger.SortedMap.{update}
use trust_ledger.SortedMap.Lookup.{get-update}
use trust_ledger.Account.{Account, Balance}
use trust_ledger.Ledger.Step.{
  on_balance, Captures, Releases, capture_debit, capture_credit, release_debit, release_credit,
  captured_ledger, released_ledger,
}
use trust_ledger.Ledger.Step.Checks.{
  checked_add-eq-ok, checked_sub-eq-ok, check_timestamp-eq-ok, is_state, is_absent, is_positive,
  is_at_least,
}
use trust_ledger.Ledger.Step.Writes.{
  Refines, applied, refused, two_writes, two_writes_at, state_write, read_err, read_ok,
  max-eq_right,
}

-- A settlement that is built has two accounts, and is the expected transfer.
new_settlement-eq-ok :
    (id : TransferId) (d c : AccountId) (n : Amount) (p : TransferId) (ts : Timestamp)
    {t : Transfer}
    → new_settlement id d c n p ts ≡ ok t
    → (d ≢ c) × (t ≡ settlement id d c n p ts)
unfolding new_settlement
new_settlement-eq-ok id d c n p ts h = ground arith

pending_transitions :
    (t : Transfer)
    → t.state ≡ pending
    → (transition_to posted t ≡ ok (restore_state posted t))
      × (transition_to voided t ≡ ok (restore_state voided t))
unfolding transition_to
pending_transitions t h = ground arith

-- What a capture writes.
abbrev pub capture_plan :
    (pending_id post_transfer_id : TransferId) (amount : Amount) (timestamp : Timestamp)
    (l l' : Ledger)
    → Captures pending_id post_transfer_id amount timestamp l l'
    → PostPlan
capture_plan pending_id post_transfer_id amount timestamp l l' p = record {
  hold = p.hold;
  debits_pending = p.debtor.balance.debits_pending - p.hold.amount;
  debits_posted = p.debtor.balance.debits_posted + amount;
  credits_pending = p.creditor.balance.credits_pending - p.hold.amount;
  credits_posted = p.creditor.balance.credits_posted + amount;
  posted_transfer =
      settlement post_transfer_id p.hold.debit_account_id p.hold.credit_account_id amount pending_id
        timestamp;
}

-- Passing the checks of `post_pending` is being allowed to capture.
check_post_pending-Captures :
    (pending_id post_transfer_id : TransferId) (amount : Amount) (timestamp : Timestamp)
    (l : Ledger) (plan : PostPlan)
    → check_post_pending pending_id post_transfer_id amount timestamp l ≡ ok plan
    → (l' : Ledger) × (p : Captures pending_id post_transfer_id amount timestamp l l') × (plan
        ≡ capture_plan pending_id post_transfer_id amount timestamp l l' p)
unfolding check_post_pending get_account get_transfer
check_post_pending-Captures pending_id post_transfer_id amount timestamp l plan h =
    let (time, h1) = >>-eq-ok (check_timestamp timestamp l) _ h in
    let (unused, h2) = >>-eq-ok (fail_if (contains_key post_transfer_id l.transfers) _) _ h1 in
    let (hold, found, h3) = >>=-eq-ok (ok_or (get pending_id l.transfers) _) _ h2 in
    let (state, h4) = >>-eq-ok (fail_if (not (state_eq hold.state pending)) _) _ h3 in
    let (within, h5) = >>-eq-ok (fail_if (ltb hold.amount amount) _) _ h4 in
    let (nonzero, h6) = >>-eq-ok (fail_if (amount == 0) _) _ h5 in
    let (d, found_d, h7) = >>=-eq-ok (ok_or (get hold.debit_account_id l.accounts) _) _ h6 in
    let (dh, sub_d, h8) = >>=-eq-ok (checked_sub d.balance.debits_pending hold.amount) _ h7 in
    let (dp, add_d, h9) = >>=-eq-ok (checked_add d.balance.debits_posted amount) _ h8 in
    let (c, found_c, h10) = >>=-eq-ok (ok_or (get hold.credit_account_id l.accounts) _) _ h9 in
    let (ch, sub_c, h11) = >>=-eq-ok (checked_sub c.balance.credits_pending hold.amount) _ h10 in
    let (cp, add_c, h12) = >>=-eq-ok (checked_add c.balance.credits_posted amount) _ h11 in
    let (t, built, h13) =
      >>=-eq-ok
        (new_settlement post_transfer_id hold.debit_account_id hold.credit_account_id amount
          pending_id timestamp)
        _ h12 in
    let (distinct, is_settlement) = new_settlement-eq-ok _ _ _ _ _ _ built in
    let (dh_eq, dh_le) = checked_sub-eq-ok _ _ sub_d in
    let (dp_eq, dp_fits) = checked_add-eq-ok _ _ add_d in
    let (ch_eq, ch_le) = checked_sub-eq-ok _ _ sub_c in
    let (cp_eq, cp_fits) = checked_add-eq-ok _ _ add_c in
    (
      captured_ledger hold pending_id post_transfer_id amount timestamp l,
      record {
        held = record {
          timely = check_timestamp-eq-ok _ l time;
          hold = hold;
          debtor = d;
          creditor = c;
          found_hold = ok_or-eq-ok _ _ found;
          found_debtor = ok_or-eq-ok _ _ found_d;
          found_creditor = ok_or-eq-ok _ _ found_c;
          is_pending = is_state _ _ _ state;
          debit_held = dh_le;
          credit_held = ch_le;
        };
        fresh = is_absent _ _ unused;
        distinct = distinct;
        positive = is_positive _ _ nonzero;
        within = is_at_least _ _ _ within;
        debit_fits = dp_fits;
        credit_fits = cp_fits;
        result = refl;
      },
      ground arith,
    )

-- `post_pending` after its checks.
pub post_pending-passed :
    (pending_id post_transfer_id : TransferId) (amount : Amount) (timestamp : Timestamp)
    (l l' : Ledger) (p : Captures pending_id post_transfer_id amount timestamp l l')
    → check_post_pending pending_id post_transfer_id amount timestamp l
      ≡ ok (capture_plan pending_id post_transfer_id amount timestamp l l' p)
    → post_pending pending_id post_transfer_id amount timestamp l ≡ done tt l'
unfolding post_pending
post_pending-passed pending_id post_transfer_id amount timestamp l l' p passed =
    let final = captured_ledger p.hold pending_id post_transfer_id amount timestamp l in
    let n = p.hold.amount in
    read_ok (check_post_pending pending_id post_transfer_id amount timestamp) _ l passed
    ∙ two_writes p.hold.debit_account_id p.hold.credit_account_id _ _ (capture_debit n amount)
        (capture_credit n amount) p.debtor p.creditor l _ p.distinct p.found_debtor p.found_creditor
        refl refl
    ∙ state_write pending_id posted p.hold _ _ p.found_hold
        (pending_transitions p.hold p.is_pending).0
    ∙ ap (λ k. done tt (record final { last_timestamp = k })) (max-eq_right p.timely)
    ∙ ap (done tt) (sym p.result)

-- Capturing a hold takes the step that releases all that it reserves, posts the captured amount,
-- which is at most the held one, and links a settlement to the hold; or it fails and leaves the
-- ledger exactly as it was.
pub post_pending-Captures :
    (pending_id post_transfer_id : TransferId) (amount : Amount) (timestamp : Timestamp)
    (l : Ledger)
    → Refines l
        (Captures pending_id post_transfer_id amount timestamp l)
        (post_pending pending_id post_transfer_id amount timestamp l)
unfolding post_pending
post_pending-Captures pending_id post_transfer_id amount timestamp l =
    let check = check_post_pending pending_id post_transfer_id amount timestamp in
    elim (Result-cases (check l)) [
      | inr (e, failed) ↦ refused e (read_err check _ l failed)
      | inl (plan, passed) ↦
          let (l', p, written) =
            check_post_pending-Captures pending_id post_transfer_id amount timestamp l plan
              passed in
          applied l'
            (post_pending-passed pending_id post_transfer_id amount timestamp l l' p
              (passed ∙ ap ok written))
            p
    ]

-- What a void writes.
abbrev pub void_plan :
    (pending_id : TransferId) (timestamp : Timestamp) (l l' : Ledger)
    → Releases pending_id timestamp l l'
    → VoidPlan
void_plan pending_id timestamp l l' p = record {
  hold = p.hold;
  debits_pending = p.debtor.balance.debits_pending - p.hold.amount;
  credits_pending = p.creditor.balance.credits_pending - p.hold.amount;
}

-- Passing the checks of `void_pending` on a hold of two accounts is being allowed to release.
check_void_pending-Releases :
    (pending_id : TransferId) (timestamp : Timestamp) (l : Ledger) (plan : VoidPlan)
    → check_void_pending pending_id timestamp l ≡ ok plan
    → (l' : Ledger) × (p : Releases pending_id timestamp l l') × (plan
        ≡ void_plan pending_id timestamp l l' p)
unfolding check_void_pending get_account get_transfer
check_void_pending-Releases pending_id timestamp l plan h =
    let (time, h1) = >>-eq-ok (check_timestamp timestamp l) _ h in
    let (hold, found, h3) = >>=-eq-ok (ok_or (get pending_id l.transfers) _) _ h1 in
    let (state, h6) = >>-eq-ok (fail_if (not (state_eq hold.state pending)) _) _ h3 in
    let (d, found_d, h7) = >>=-eq-ok (ok_or (get hold.debit_account_id l.accounts) _) _ h6 in
    let (dh, sub_d, h9) = >>=-eq-ok (checked_sub d.balance.debits_pending hold.amount) _ h7 in
    let (c, found_c, h10) = >>=-eq-ok (ok_or (get hold.credit_account_id l.accounts) _) _ h9 in
    let (ch, sub_c, h11) = >>=-eq-ok (checked_sub c.balance.credits_pending hold.amount) _ h10 in
    let (dh_eq, dh_le) = checked_sub-eq-ok _ _ sub_d in
    let (ch_eq, ch_le) = checked_sub-eq-ok _ _ sub_c in
    (
      released_ledger hold pending_id timestamp l,
      record {
        held = record {
          timely = check_timestamp-eq-ok _ l time;
          hold = hold;
          debtor = d;
          creditor = c;
          found_hold = ok_or-eq-ok _ _ found;
          found_debtor = ok_or-eq-ok _ _ found_d;
          found_creditor = ok_or-eq-ok _ _ found_c;
          is_pending = is_state _ _ _ state;
          debit_held = dh_le;
          credit_held = ch_le;
        };
        result = refl;
      },
      ground arith,
    )

-- The credit account after a write to the debit account, which may be the same one, still holds
-- the pending credits that were read.
after_debit :
    (d c : AccountId) (f : Balance → Balance) (y : Account) (l : Ledger)
    → get c l.accounts ≡ some y
    → ((b : Balance) → (f b).credits_pending ≡ b.credits_pending)
    → (z : Account) × (get c (update d (on_balance f) l.accounts) ≡ some z)
      × (z.balance.credits_pending ≡ y.balance.credits_pending)
after_debit d c f y l found keep = elim (Bool-cases (c == d)) [
  | inl same ↦
      (on_balance f y, rw (get-update c d (on_balance f) l.accounts, same, found), keep y.balance)
  | inr other ↦ (y, rw (get-update c d (on_balance f) l.accounts, other, found), refl)
]

-- `void_pending` after its checks.
pub void_pending-passed :
    (pending_id : TransferId) (timestamp : Timestamp) (l l' : Ledger)
    (p : Releases pending_id timestamp l l')
    → check_void_pending pending_id timestamp l ≡ ok (void_plan pending_id timestamp l l' p)
    → void_pending pending_id timestamp l ≡ done tt l'
unfolding void_pending
void_pending-passed pending_id timestamp l l' p passed =
    let final = released_ledger p.hold pending_id timestamp l in
    let n = p.hold.amount in
    let (y, found_y, same) =
      after_debit p.hold.debit_account_id p.hold.credit_account_id
        (λ b. record b { debits_pending = p.debtor.balance.debits_pending - n }) p.creditor l
        p.found_creditor (λ b. refl) in
    read_ok (check_void_pending pending_id timestamp) _ l passed
    ∙ two_writes_at p.hold.debit_account_id p.hold.credit_account_id
        (λ b. record b { debits_pending = p.debtor.balance.debits_pending - n })
        (λ b. record b { credits_pending = p.creditor.balance.credits_pending - n })
        (release_debit n) (release_credit n) p.debtor y l _ p.found_debtor found_y refl
        (ap (λ k. record (y.balance) { credits_pending = k - n }) (sym same))
    ∙ state_write pending_id voided p.hold _ _ p.found_hold
        (pending_transitions p.hold p.is_pending).1
    ∙ ap (λ k. done tt (record final { last_timestamp = k })) (max-eq_right p.timely)
    ∙ ap (done tt) (sym p.result)

-- Voiding a hold takes the step that releases all that it reserves and posts nothing, or fails and
-- leaves the ledger exactly as it was.
pub void_pending-Releases :
    (pending_id : TransferId) (timestamp : Timestamp) (l : Ledger)
    → Refines l (Releases pending_id timestamp l) (void_pending pending_id timestamp l)
unfolding void_pending
void_pending-Releases pending_id timestamp l =
    let check = check_void_pending pending_id timestamp in
    elim (Result-cases (check l)) [
      | inr (e, failed) ↦ refused e (read_err check _ l failed)
      | inl (plan, passed) ↦
          let (l', p, written) = check_void_pending-Releases pending_id timestamp l plan passed in
          applied l' (void_pending-passed pending_id timestamp l l' p (passed ∙ ap ok written)) p
    ]
