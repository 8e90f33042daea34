-- ===== src/Ledger/Invariant/Balanced.antt =====
-- Conservation: every step of ledger.rs moves as much debit as credit.
use trust_ledger.Common.{◌≡◌, ap, arith, ne→==, some, sym, ℕ, ◌+◌, ◌≢◌}
use trust_ledger.Account.{Balance, Account, new_account}
use trust_ledger.Journal.{LedgerEvent}
use trust_ledger.Ledger.Invariant.{
  debits_posted_of, credits_posted_of, debits_pending_of, credits_pending_of, IsBalanced,
}
use trust_ledger.Ledger.State.{Ledger}
use trust_ledger.Ledger.Step.{
  on_balance, post_debit, post_credit, hold_debit, hold_credit, capture_debit, capture_credit,
  release_debit, release_credit, shut, Step, rebalance,
}
use trust_ledger.SortedMap.{SortedMap, get, update, sum_of}
use trust_ledger.SortedMap.Lookup.{get-update}
use trust_ledger.SortedMap.Sums.{sum_of-insert, sum_of-update}
use trust_ledger.Transfer.{Transfer}
use trust_ledger.Vocabulary.{AccountId, TransferId}

-- The sum of a field when the balances of two accounts change.
pub sum_of-rebalance :
    (p : Account → ℕ) (d c : AccountId) (f g : Balance → Balance) (x y : Account)
    (m : SortedMap Account)
    → d ≢ c
    → get d m ≡ some x
    → get c m ≡ some y
    → sum_of p (rebalance d f c g m) + p x + p y
      ≡ sum_of p m + p (on_balance f x) + p (on_balance g y)
sum_of-rebalance p d c f g x y m ne fx fy =
    let found : get c (update d (on_balance f) m) ≡ some y =
      rw (get-update c d (on_balance f) m, ne→== c d (λ e. ne (sym e)), fy) in
    omega
      (arith, sum_of-update p c (on_balance g) y _ found, sum_of-update p d (on_balance f) x m fx)

-- The four sums of a step that changes two balances.
module _ (d c : AccountId) (f g : Balance → Balance) (x y : Account) (l l' : Ledger) (ne : d ≢ c)
    (fx : get d l.accounts ≡ some x) (fy : get c l.accounts ≡ some y)
    (moved : l'.accounts ≡ rebalance d f c g l.accounts) (h : IsBalanced l)
    (posted_even : debits_posted_of (on_balance f x)
        + debits_posted_of (on_balance g y)
        + credits_posted_of x
        + credits_posted_of y
      ≡ credits_posted_of (on_balance f x)
        + credits_posted_of (on_balance g y)
        + debits_posted_of x
        + debits_posted_of y)
    (pending_even : debits_pending_of (on_balance f x)
        + debits_pending_of (on_balance g y)
        + credits_pending_of x
        + credits_pending_of y
      ≡ credits_pending_of (on_balance f x)
        + credits_pending_of (on_balance g y)
        + debits_pending_of x
        + debits_pending_of y) where
  rebalance-IsBalanced : IsBalanced l'
  rebalance-IsBalanced = record {
    posted_balance = rw moved (
        omega (
          arith,
          h.posted_balance,
          posted_even,
          sum_of-rebalance debits_posted_of d c f g x y l.accounts ne fx fy,
          sum_of-rebalance credits_posted_of d c f g x y l.accounts ne fx fy,
        ));
    pending_balance = rw moved (
        omega (
          arith,
          h.pending_balance,
          pending_even,
          sum_of-rebalance debits_pending_of d c f g x y l.accounts ne fx fy,
          sum_of-rebalance credits_pending_of d c f g x y l.accounts ne fx fy,
        ));
  }

-- Every step keeps total debits equal to total credits, posted and pending, where the hold that
-- it captures or releases has two accounts.
pub Step-IsBalanced :
    (event : LedgerEvent) (l l' : Ledger)
    → ((id : TransferId) (t : Transfer)
        → get id l.transfers ≡ some t
        → t.debit_account_id ≢ t.credit_account_id)
    → Step event l l'
    → IsBalanced l
    → IsBalanced l'
Step-IsBalanced (LedgerEvent.account_created id account_type flags scale timestamp) l l' dis s h =
    let a = new_account id account_type flags scale in
    rw s.result (record {
      posted_balance = omega (
        arith,
        h.posted_balance,
        sum_of-insert debits_posted_of id a l.accounts s.fresh,
        sum_of-insert credits_posted_of id a l.accounts s.fresh,
      );
      pending_balance = omega (
        arith,
        h.pending_balance,
        sum_of-insert debits_pending_of id a l.accounts s.fresh,
        sum_of-insert credits_pending_of id a l.accounts s.fresh,
      );
    })
Step-IsBalanced (LedgerEvent.account_closed id timestamp) l l' dis s h = rw s.result (record {
  posted_balance = omega (
    arith,
    h.posted_balance,
    sum_of-update debits_posted_of id shut s.account l.accounts s.found,
    sum_of-update credits_posted_of id shut s.account l.accounts s.found,
  );
  pending_balance = omega (
    arith,
    h.pending_balance,
    sum_of-update debits_pending_of id shut s.account l.accounts s.found,
    sum_of-update credits_pending_of id shut s.account l.accounts s.found,
  );
})
Step-IsBalanced (LedgerEvent.transfer_posted t) l l' dis s h =
    rebalance-IsBalanced t.debit_account_id t.credit_account_id (post_debit t.amount)
      (post_credit t.amount) s.debtor s.creditor l l' s.distinct s.found_debtor s.found_creditor
      (ap (λ k. k.accounts) s.result) h (omega arith) (omega arith)
Step-IsBalanced (LedgerEvent.transfer_pending_created t) l l' dis s h =
    rebalance-IsBalanced t.debit_account_id t.credit_account_id (hold_debit t.amount)
      (hold_credit t.amount) s.debtor s.creditor l l' s.distinct s.found_debtor s.found_creditor
      (ap (λ k. k.accounts) s.result) h (omega arith) (omega arith)
Step-IsBalanced (LedgerEvent.transfer_pending_posted p q n timestamp) l l' dis s h =
    let t = s.hold in
    let within_d = s.debit_held in
    let within_c = s.credit_held in
    rebalance-IsBalanced t.debit_account_id t.credit_account_id (capture_debit t.amount n)
      (capture_credit t.amount n) s.debtor s.creditor l l' s.distinct s.found_debtor
      s.found_creditor (ap (λ k. k.accounts) s.result) h (omega arith)
      (omega (arith, within_d, within_c))
Step-IsBalanced (LedgerEvent.transfer_pending_voided p n timestamp) l l' dis (s, same) h =
    let t = s.hold in
    let within_d = s.debit_held in
    let within_c = s.credit_held in
    rebalance-IsBalanced t.debit_account_id t.credit_account_id (release_debit t.amount)
      (release_credit t.amount) s.debtor s.creditor l l' (dis p t s.found_hold) s.found_debtor
      s.found_creditor (ap (λ k. k.accounts) s.result) h (omega arith)
      (omega (arith, within_d, within_c))
