-- ===== src/Ledger/Invariant/Backed.antt =====
-- Every account's reservations stay the sum of its pending transfers, through every step.
use mathlib.Core.Option
use mathlib.Core.Option.{some-injective}
use trust_ledger.Common.{
  ◌≡◌, Option-cases, ap, arith, if◌then◌else◌, inl, inr, none, some, sym, ◌==◌, ◌∙◌, subst, ◌+◌,
  ◌≢◌, ne→==, true,
}
use trust_ledger.Account.{Balance, Account, new_account}
use trust_ledger.Ledger.Step.{
  on_balance, rebalance, post_debit, post_credit, shut, Step, hold_debit, hold_credit,
  capture_debit, capture_credit, release_debit, release_credit,
}
use trust_ledger.SortedMap.{SortedMap, get, update, sum_of, contains_key}
use trust_ledger.SortedMap.Lookup.{get-update, get-insert, unchanged_absent, from-update}
use trust_ledger.Vocabulary.{AccountId, TransferId, TransferState, pending, posted, voided}
use trust_ledger.Ledger.Invariant.{
  debits_pending_of, credits_pending_of, held_debit, held_credit, IsBacked, IsSound,
}
use trust_ledger.Ledger.State.{Ledger}
use trust_ledger.SortedMap.Sums.{sum_of-update, sum_of-insert}
use trust_ledger.Transfer.{Transfer, restore_state, settlement}
use trust_ledger.Journal.{LedgerEvent}
use trust_ledger.SortedMap.Keys.{not_both, sum_of-zero}

-- What an account of the rebalanced map was before.
abbrev rebalanced :
    AccountId
    → AccountId
    → (Balance → Balance)
    → AccountId
    → (Balance → Balance)
    → Account
    → Account
rebalanced id d f c g a =
    let b : Account = if id == d then on_balance f a else a in if id == c then on_balance g b else b

-- Looking up an account after two changes of balances.
pub get-rebalance :
    (id d c : AccountId) (f g : Balance → Balance) (m : SortedMap Account)
    → get id (rebalance d f c g m) ≡ Option.map (rebalanced id d f c g) (get id m)
get-rebalance id d c f g m = ground (
  arith,
  get-update id c (on_balance g) (update d (on_balance f) m),
  get-update id d (on_balance f) m,
)

-- The account that was there before, and what it has become.
pub from-rebalance :
    (id d c : AccountId) (f g : Balance → Balance) (m : SortedMap Account) (a : Account)
    → get id (rebalance d f c g m) ≡ some a
    → (b : Account) × (get id m ≡ some b) × (a ≡ rebalanced id d f c g b)
from-rebalance id d c f g m a h = elim (Option-cases (get id m)) [
  | inl missing ↦
      let never : none ≡ some a =
        ap (Option.map (rebalanced id d f c g)) (sym missing)
        ∙ sym (get-rebalance id d c f g m)
        ∙ h in
      cc
  | inr (b, found) ↦ (
    b,
    found,
    let same : some a ≡ some (rebalanced id d f c g b) =
          sym h ∙ get-rebalance id d c f g m ∙ ap (Option.map (rebalanced id d f c g)) found in
        some-injective _ _ same,
  )
]

module _ (d c : AccountId) (f g : Balance → Balance) (l l' : Ledger)
    (moved : l'.accounts ≡ rebalance d f c g l.accounts)
    (debits : (id : AccountId) (b : Account)
      → get id l.accounts ≡ some b
      → (rebalanced id d f c g b).balance.debits_pending ≡ sum_of (held_debit id) l'.transfers)
    (credits : (id : AccountId) (b : Account)
      → get id l.accounts ≡ some b
      → (rebalanced id d f c g b).balance.credits_pending
        ≡ sum_of (held_credit id) l'.transfers) where
  rebalance-IsBacked : IsBacked l'
  rebalance-IsBacked = record {
    debits_backed = λ id a found.
        let (b, before, same) =
          from-rebalance id d c f g l.accounts a (subst (λ m. get id m ≡ some a) moved found) in
        ap debits_pending_of same ∙ debits id b before;
    credits_backed = λ id a found.
        let (b, before, same) =
          from-rebalance id d c f g l.accounts a (subst (λ m. get id m ≡ some a) moved found) in
        ap credits_pending_of same ∙ credits id b before;
  }

-- What a transfer reserves that is no longer pending, and one that is.
pub held_none :
    (id : AccountId) (t : Transfer)
    → t.state ≢ pending
    → (held_debit id t ≡ 0) × (held_credit id t ≡ 0)
held_none id t h = ground arith

pub held_all :
    (id : AccountId) (t : Transfer)
    → t.state ≡ pending
    → (held_debit id t ≡ (if t.debit_account_id == id then t.amount else 0))
      × (held_credit id t ≡ (if t.credit_account_id == id then t.amount else 0))
held_all id t h = ground arith

-- The sums after a hold has left the pending state.
held_debits_after :
    (id : AccountId) (p : TransferId) (s : TransferState) (t : Transfer) (m : SortedMap Transfer)
    → get p m ≡ some t
    → t.state ≡ pending
    → s ≢ pending
    → sum_of (held_debit id) (update p (restore_state s) m)
        + (if t.debit_account_id == id then t.amount else 0)
      ≡ sum_of (held_debit id) m
held_debits_after id p s t m found is done_state = omega (
  arith,
  sum_of-update (held_debit id) p (restore_state s) t m found,
  (held_all id t is).0,
  (held_none id (restore_state s t) done_state).0,
)

held_credits_after :
    (id : AccountId) (p : TransferId) (s : TransferState) (t : Transfer) (m : SortedMap Transfer)
    → get p m ≡ some t
    → t.state ≡ pending
    → s ≢ pending
    → sum_of (held_credit id) (update p (restore_state s) m)
        + (if t.credit_account_id == id then t.amount else 0)
      ≡ sum_of (held_credit id) m
held_credits_after id p s t m found is done_state = omega (
  arith,
  sum_of-update (held_credit id) p (restore_state s) t m found,
  (held_all id t is).1,
  (held_none id (restore_state s t) done_state).1,
)

pub posted-ne-pending : posted ≢ pending
posted-ne-pending e = cc

pub voided-ne-pending : voided ≢ pending
voided-ne-pending e = cc

-- No transfer reserves anything of an account that does not exist.
pub unknown_debits :
    (id : AccountId) (l : Ledger)
    → IsSound l
    → get id l.accounts ≡ none
    → sum_of (held_debit id) l.transfers ≡ 0
unknown_debits id l s h = sum_of-zero (held_debit id) l.transfers s.unique_transfers λ j t found.
    let known : contains_key t.debit_account_id l.accounts ≡ true =
      (s.transfers_ok j t found).has_debtor in
    let other : t.debit_account_id ≢ id =
      λ e. not_both _ _ (ap (λ k. contains_key k l.accounts) (sym e) ∙ known) h in
    rw (ne→== t.debit_account_id id other)

pub unknown_credits :
    (id : AccountId) (l : Ledger)
    → IsSound l
    → get id l.accounts ≡ none
    → sum_of (held_credit id) l.transfers ≡ 0
unknown_credits id l s h = sum_of-zero (held_credit id) l.transfers s.unique_transfers λ j t found.
    let known : contains_key t.credit_account_id l.accounts ≡ true =
      (s.transfers_ok j t found).has_creditor in
    let other : t.credit_account_id ≢ id =
      λ e. not_both _ _ (ap (λ k. contains_key k l.accounts) (sym e) ∙ known) h in
    rw (ne→== t.credit_account_id id other)

-- Every step keeps each account's reservations equal to the sum of its pending transfers.
pub Step-IsBacked :
    (event : LedgerEvent) (l l' : Ledger) → IsSound l → Step event l l' → IsBacked l'
Step-IsBacked (LedgerEvent.account_created id account_type flags scale timestamp) l l' sound s =
    rw s.result (record {
      debits_backed = λ j a found. ground (
        arith,
        get-insert j id (new_account id account_type flags scale) l.accounts,
        sound.backed.debits_backed j a,
        unknown_debits id l sound s.fresh,
      );
      credits_backed = λ j a found. ground (
        arith,
        get-insert j id (new_account id account_type flags scale) l.accounts,
        sound.backed.credits_backed j a,
        unknown_credits id l sound s.fresh,
      );
    })
Step-IsBacked (LedgerEvent.account_closed id timestamp) l l' sound s = rw s.result (record {
  debits_backed = λ j a found.
      let (b, before, same) = from-update j id shut l.accounts a found in
      ground (arith, sound.backed.debits_backed j b before);
  credits_backed = λ j a found.
      let (b, before, same) = from-update j id shut l.accounts a found in
      ground (arith, sound.backed.credits_backed j b before);
})
Step-IsBacked (LedgerEvent.transfer_posted t) l l' sound s =
    rebalance-IsBacked t.debit_account_id t.credit_account_id (post_debit t.amount)
      (post_credit t.amount) l l' (ap (λ k. k.accounts) s.result)
      (λ id b found. ground (
        arith,
        sound.backed.debits_backed id b found,
        ap (λ k. sum_of (held_debit id) k.transfers) s.result,
        sum_of-insert (held_debit id) t.id t l.transfers s.fresh,
        s.is_posted,
      ))
      (λ id b found. ground (
        arith,
        sound.backed.credits_backed id b found,
        ap (λ k. sum_of (held_credit id) k.transfers) s.result,
        sum_of-insert (held_credit id) t.id t l.transfers s.fresh,
        s.is_posted,
      ))
Step-IsBacked (LedgerEvent.transfer_pending_created t) l l' sound s =
    rebalance-IsBacked t.debit_account_id t.credit_account_id (hold_debit t.amount)
      (hold_credit t.amount) l l' (ap (λ k. k.accounts) s.result)
      (λ id b found. ground (
        arith,
        sound.backed.debits_backed id b found,
        ap (λ k. sum_of (held_debit id) k.transfers) s.result,
        sum_of-insert (held_debit id) t.id t l.transfers s.fresh,
        s.is_pending,
      ))
      (λ id b found. ground (
        arith,
        sound.backed.credits_backed id b found,
        ap (λ k. sum_of (held_credit id) k.transfers) s.result,
        sum_of-insert (held_credit id) t.id t l.transfers s.fresh,
        s.is_pending,
      ))
Step-IsBacked (LedgerEvent.transfer_pending_posted p q n timestamp) l l' sound s =
    let t = s.hold in
    let new = settlement q t.debit_account_id t.credit_account_id n p timestamp in
    let fresh = unchanged_absent q p (restore_state posted) l.transfers s.fresh in
    rebalance-IsBacked t.debit_account_id t.credit_account_id (capture_debit t.amount n)
      (capture_credit t.amount n) l l' (ap (λ k. k.accounts) s.result)
      (λ id b found. ground (
        arith,
        sound.backed.debits_backed id b found,
        ap (λ k. sum_of (held_debit id) k.transfers) s.result,
        sum_of-insert (held_debit id) q new _ fresh,
        held_debits_after id p posted t l.transfers s.found_hold s.is_pending posted-ne-pending,
      ))
      (λ id b found. ground (
        arith,
        sound.backed.credits_backed id b found,
        ap (λ k. sum_of (held_credit id) k.transfers) s.result,
        sum_of-insert (held_credit id) q new _ fresh,
        held_credits_after id p posted t l.transfers s.found_hold s.is_pending posted-ne-pending,
      ))
Step-IsBacked (LedgerEvent.transfer_pending_voided p n timestamp) l l' sound (s, same) =
    let t = s.hold in
    rebalance-IsBacked t.debit_account_id t.credit_account_id (release_debit t.amount)
      (release_credit t.amount) l l' (ap (λ k. k.accounts) s.result)
      (λ id b found. ground (
        arith,
        sound.backed.debits_backed id b found,
        ap (λ k. sum_of (held_debit id) k.transfers) s.result,
        held_debits_after id p voided t l.transfers s.found_hold s.is_pending voided-ne-pending,
      ))
      (λ id b found. ground (
        arith,
        sound.backed.credits_backed id b found,
        ap (λ k. sum_of (held_credit id) k.transfers) s.result,
        held_credits_after id p voided t l.transfers s.found_hold s.is_pending voided-ne-pending,
      ))
