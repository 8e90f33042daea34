-- ===== src/Ledger/Invariant/Solvent.antt =====
-- The limits that the account flags set hold for every account of every reachable ledger.
use trust_ledger.Common.{
  ◌≡◌, ==→eq, Bool-cases, List, [], ap, arith, false, if◌then◌else◌, inl, inr, ne→==, some, subst,
  sym, true, ◌+◌, ◌==◌, ◌∙◌, ◌∷◌, ◌≢◌, ◌≤◌,
}
use mathlib.Core.Option.{some-injective}
use trust_ledger.Account.{Balance, Account, new_account}
use trust_ledger.Journal.{LedgerEvent}
use trust_ledger.Ledger.Batch.Atomic.{apply_events-cons, apply_events-fail}
use trust_ledger.Ledger.Batch.Commit.{apply_event-done}
use trust_ledger.Ledger.Events.{apply_event, apply_events}
use trust_ledger.Ledger.Invariant.{IsSound}
use trust_ledger.Ledger.Invariant.Backed.{from-rebalance}
use trust_ledger.Ledger.Invariant.Reachable.{
  Step-IsSound, Reachable, Call-Advances, Reachable-IsSound, call, start,
}
use trust_ledger.Ledger.State.{Ledger, done, fail, after, Outcome-cases}
use trust_ledger.Ledger.Step.{
  on_balance, rebalance, post_debit, post_credit, hold_debit, hold_credit, capture_debit,
  capture_credit, release_debit, release_credit, shut, Step,
}
use trust_ledger.SortedMap.{get, insert}
use trust_ledger.SortedMap.Keys.{get-nil}
use trust_ledger.SortedMap.Lookup.{get-insert, from-update}
use trust_ledger.Vocabulary.{AccountId, Scale}

-- What an account's flags promise of its balance, reservations included.
pub record WithinLimits (a : Account) : Type 0 where
  pub debit_side :
      a.flags.debits_must_not_exceed_credits ≡ true
      → a.balance.debits_posted + a.balance.debits_pending ≤ a.balance.credits_posted
  pub credit_side :
      a.flags.credits_must_not_exceed_debits ≡ true
      → a.balance.credits_posted + a.balance.credits_pending ≤ a.balance.debits_posted

abbrev pub AllWithinLimits : Ledger → Type 0
AllWithinLimits l = (id : AccountId) (a : Account) → get id l.accounts ≡ some a → WithinLimits a

-- From the accounts before a change of two balances to those after it.
rebalance_limits :
    (d c : AccountId) (f g : Balance → Balance) (x y : Account) (l l' : Ledger)
    → l'.accounts ≡ rebalance d f c g l.accounts
    → d ≢ c
    → get d l.accounts ≡ some x
    → get c l.accounts ≡ some y
    → WithinLimits (on_balance f x)
    → WithinLimits (on_balance g y)
    → AllWithinLimits l
    → AllWithinLimits l'
rebalance_limits d c f g x y l l' moved ne fx fy wx wy all id a found =
    let (b, before, same) =
      from-rebalance id d c f g l.accounts a (subst (λ m. get id m ≡ some a) moved found) in
    subst WithinLimits (sym same) (elim (Bool-cases (id == d)) [
      | inl at_d ↦
          let other : (id == c) ≡ false = ne→== id c (λ e. ne (sym (==→eq id d at_d) ∙ e)) in
          let is_x : b ≡ x =
            some-injective _ _ (sym before ∙ ap (λ k. get k l.accounts) (==→eq id d at_d) ∙ fx) in
          rw (at_d, other, is_x) wx
      | inr not_d ↦ elim (Bool-cases (id == c)) [
        | inl at_c ↦
            let is_y : b ≡ y =
              some-injective _ _ (sym before ∙ ap (λ k. get k l.accounts) (==→eq id c at_c) ∙ fy) in
            rw (not_d, at_c, is_y) wy
        | inr not_c ↦ rw (not_d, not_c) (all id b before)
      ]
    ])

-- Every step keeps every account within its limits.
pub Step-AllWithinLimits :
    (event : LedgerEvent) (l l' : Ledger)
    → IsSound l
    → Step event l l'
    → AllWithinLimits l
    → AllWithinLimits l'
Step-AllWithinLimits (LedgerEvent.account_created id account_type flags scale timestamp) l l' sound
      s all =
    λ j a found.
      let new = new_account id account_type flags scale in
      let at : get j (insert id new l.accounts) ≡ some a =
        subst (λ k. get j k.accounts ≡ some a) s.result found in
      elim (Bool-cases (j == id)) [
        | inl here ↦
            let is_new : new ≡ a = some-injective _ _ (
              sym (ap (λ q. if q then some new else get j l.accounts) here)
              ∙ sym (get-insert j id new l.accounts)
              ∙ at) in
            subst WithinLimits is_new
              (record { debit_side = λ h. omega arith; credit_side = λ h. omega arith })
        | inr elsewhere ↦ all j a (
            sym (ap (λ q. if q then some new else get j l.accounts) elsewhere)
            ∙ sym (get-insert j id new l.accounts)
            ∙ at)
      ]
Step-AllWithinLimits (LedgerEvent.account_closed id timestamp) l l' sound s all = λ j a found.
    let (b, before, same) =
      from-update j id shut l.accounts a (subst (λ k. get j k.accounts ≡ some a) s.result found) in
    let w = all j b before in
    subst WithinLimits (sym same) (elim (Bool-cases (j == id)) [
      | inl here ↦ rw here (record { debit_side = w.debit_side; credit_side = w.credit_side })
      | inr elsewhere ↦ rw elsewhere w
    ])
Step-AllWithinLimits (LedgerEvent.transfer_posted t) l l' sound s all =
    let wx = all t.debit_account_id s.debtor s.found_debtor in
    let wy = all t.credit_account_id s.creditor s.found_creditor in
    rebalance_limits t.debit_account_id t.credit_account_id (post_debit t.amount)
      (post_credit t.amount) s.debtor s.creditor l l' (ap (λ k. k.accounts) s.result) s.distinct
      s.found_debtor s.found_creditor
      (record {
        debit_side = λ h. omega (arith, s.may_debit.covered h);
        credit_side = λ h. omega (arith, wx.credit_side h);
      })
      (record {
        debit_side = λ h. omega (arith, wy.debit_side h);
        credit_side = λ h. omega (arith, s.may_credit.covered h);
      })
      all
Step-AllWithinLimits (LedgerEvent.transfer_pending_created t) l l' sound s all =
    let wx = all t.debit_account_id s.debtor s.found_debtor in
    let wy = all t.credit_account_id s.creditor s.found_creditor in
    rebalance_limits t.debit_account_id t.credit_account_id (hold_debit t.amount)
      (hold_credit t.amount) s.debtor s.creditor l l' (ap (λ k. k.accounts) s.result) s.distinct
      s.found_debtor s.found_creditor
      (record {
        debit_side = λ h. omega (arith, s.may_debit.covered h);
        credit_side = λ h. omega (arith, wx.credit_side h);
      })
      (record {
        debit_side = λ h. omega (arith, wy.debit_side h);
        credit_side = λ h. omega (arith, s.may_credit.covered h);
      })
      all
Step-AllWithinLimits (LedgerEvent.transfer_pending_posted p q n timestamp) l l' sound s all =
    let t = s.hold in
    let wx = all t.debit_account_id s.debtor s.found_debtor in
    let wy = all t.credit_account_id s.creditor s.found_creditor in
    rebalance_limits t.debit_account_id t.credit_account_id (capture_debit t.amount n)
      (capture_credit t.amount n) s.debtor s.creditor l l' (ap (λ k. k.accounts) s.result)
      s.distinct s.found_debtor s.found_creditor
      (record {
        debit_side = λ h. omega (arith, wx.debit_side h, s.debit_held, s.within);
        credit_side = λ h. omega (arith, wx.credit_side h);
      })
      (record {
        debit_side = λ h. omega (arith, wy.debit_side h);
        credit_side = λ h. omega (arith, wy.credit_side h, s.credit_held, s.within);
      })
      all
Step-AllWithinLimits (LedgerEvent.transfer_pending_voided p n timestamp) l l' sound (s, same) all =
    let t = s.hold in
    let wx = all t.debit_account_id s.debtor s.found_debtor in
    let wy = all t.credit_account_id s.creditor s.found_creditor in
    rebalance_limits t.debit_account_id t.credit_account_id (release_debit t.amount)
      (release_credit t.amount) s.debtor s.creditor l l' (ap (λ k. k.accounts) s.result)
      (sound.transfers_ok p t s.found_hold).distinct s.found_debtor s.found_creditor
      (record {
        debit_side = λ h. omega (arith, wx.debit_side h);
        credit_side = λ h. omega (arith, wx.credit_side h);
      })
      (record {
        debit_side = λ h. omega (arith, wy.debit_side h);
        credit_side = λ h. omega (arith, wy.credit_side h);
      })
      all

apply_events-AllWithinLimits :
    (events : List LedgerEvent) (l l' : Ledger)
    → IsSound l
    → AllWithinLimits l
    → apply_events events l ≡ done tt l'
    → AllWithinLimits l'
unfolding apply_events
apply_events-AllWithinLimits [] l l' s w h = subst AllWithinLimits (ap after h) w
apply_events-AllWithinLimits (event ∷ events) l l' s w h =
    elim (Outcome-cases (apply_event event l)) [
      | inl (u, m, e) ↦
          let st = apply_event-done event l m e in
          apply_events-AllWithinLimits events m l' (Step-IsSound event l m s st)
            (Step-AllWithinLimits event l m s st w) (sym (apply_events-cons event events l m e) ∙ h)
      | inr (err_, m, e) ↦
          let never : done tt l' ≡ fail err_ m =
            sym h ∙ apply_events-fail event events l m err_ e in
          cc
    ]

-- In every reachable ledger, an account whose debits must not exceed its credits has posted and
-- pending debits of at most its posted credits, and an account whose credits must not exceed its
-- debits has posted and pending credits of at most its posted debits.
pub Reachable-AllWithinLimits : (scale : Scale) (l : Ledger) → Reachable scale l → AllWithinLimits l
unfolding get
Reachable-AllWithinLimits scale _ start = λ id a h. cc (get-nil id a h)
Reachable-AllWithinLimits scale _ (call {l = l} {l' = l'} r c) =
    let a = Call-Advances l l' c in
    apply_events-AllWithinLimits a.events l l' (Reachable-IsSound scale l r)
      (Reachable-AllWithinLimits scale l r) a.applies
