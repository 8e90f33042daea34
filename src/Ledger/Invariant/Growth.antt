-- ===== src/Ledger/Invariant/Growth.antt =====
-- What a step keeps for the hold links of other transfers: accounts are only added, and a posted
-- transfer stays as it is.
use mathlib.Core.Option.{some-injective}
use trust_ledger.Common.{
  ◌≡◌, ==→eq, Bool-cases, Option, ap, arith, inl, inr, none, some, sym, true, ◌==◌, ◌∙◌,
}
use trust_ledger.Account.{Balance, Account}
use trust_ledger.Journal.{LedgerEvent}
use trust_ledger.Ledger.Invariant.{LinkFits, IsWellFormed}
use trust_ledger.Ledger.State.{Ledger}
use trust_ledger.Ledger.Step.{HasPostedHold, on_balance, rebalance, shut, Step}
use trust_ledger.SortedMap.{SortedMap, get, contains_key, insert, update}
use trust_ledger.SortedMap.Keys.{contains_key-insert, contains_key-update}
use trust_ledger.SortedMap.Lookup.{get-insert, get-update, unchanged_absent}
use trust_ledger.Transfer.{Transfer, restore_state}
use trust_ledger.Vocabulary.{AccountId, TransferId, TransferState, pending, posted, voided}

-- What a step may do to the accounts and the posted transfers: add to them.
pub record Grows (l l' : Ledger) : Type 0 where
  pub accounts_stay :
      (k : AccountId) → contains_key k l.accounts ≡ true → contains_key k l'.accounts ≡ true
  pub posted_stay :
      (p : TransferId) (h : Transfer)
      → get p l.transfers ≡ some h
      → h.state ≡ posted
      → get p l'.transfers ≡ some h

HasPostedHold-Grows :
    (o : Option TransferId) (l l' : Ledger) → Grows l l' → HasPostedHold o l → HasPostedHold o l'
HasPostedHold-Grows none l l' g h = tt
HasPostedHold-Grows (some p) l l' g (t, found, is) = (t, g.posted_stay p t found is, is)

LinkFits-Grows :
    (s : TransferState) (o : Option TransferId) (l l' : Ledger)
    → Grows l l'
    → LinkFits s o l
    → LinkFits s o l'
LinkFits-Grows pending o l l' g h = h
LinkFits-Grows posted o l l' g h = HasPostedHold-Grows o l l' g h
LinkFits-Grows voided o l l' g h = h

pub IsWellFormed-Grows :
    (id : TransferId) (t : Transfer) (l l' : Ledger)
    → Grows l l'
    → IsWellFormed l id t
    → IsWellFormed l' id t
IsWellFormed-Grows id t l l' g w = record {
  keyed = w.keyed;
  distinct = w.distinct;
  has_debtor = g.accounts_stay t.debit_account_id w.has_debtor;
  has_creditor = g.accounts_stay t.credit_account_id w.has_creditor;
  link_fits = LinkFits-Grows t.state t.pending_id l l' g w.link_fits;
}

-- A posted transfer is still found after a new one is stored.
pub stays-insert :
    (p q : TransferId) (h t : Transfer) (m : SortedMap Transfer)
    → get q m ≡ none
    → get p m ≡ some h
    → get p (insert q t m) ≡ some h
stays-insert p q h t m fresh found = ground (arith, get-insert p q t m)

-- A posted transfer is still found after a hold has changed its state.
stays-update :
    (p q : TransferId) (h t : Transfer) (s : TransferState) (m : SortedMap Transfer)
    → get q m ≡ some t
    → t.state ≡ pending
    → get p m ≡ some h
    → h.state ≡ posted
    → get p (update q (restore_state s) m) ≡ some h
stays-update p q h t s m hold is found done_state = elim (Bool-cases (p == q)) [
  | inl same ↦
      let e : some h ≡ some t = sym found ∙ ap (λ k. get k m) (==→eq p q same) ∙ hold in
      let never : posted ≡ pending =
        sym done_state ∙ ap (λ k. k.state) (some-injective _ _ e) ∙ is in
      cc
  | inr other ↦ rw (get-update p q (restore_state s) m, other, found)
]

contains_key-rebalance :
    (k d c : AccountId) (f g : Balance → Balance) (m : SortedMap Account)
    → contains_key k m ≡ true
    → contains_key k (rebalance d f c g m) ≡ true
contains_key-rebalance k d c f g m h =
    contains_key-update k c (on_balance g) _ (contains_key-update k d (on_balance f) m h)

-- A step only adds accounts, and keeps posted transfers as they are.
pub Step-Grows : (event : LedgerEvent) (l l' : Ledger) → Step event l l' → Grows l l'
Step-Grows (LedgerEvent.account_created id account_type flags scale timestamp) l l' s =
    rw s.result (record {
      accounts_stay = λ k h. contains_key-insert k id _ l.accounts h;
      posted_stay = λ p h found is. found;
    })
Step-Grows (LedgerEvent.account_closed id timestamp) l l' s = rw s.result (record {
  accounts_stay = λ k h. contains_key-update k id shut l.accounts h;
  posted_stay = λ p h found is. found;
})
Step-Grows (LedgerEvent.transfer_posted t) l l' s = rw s.result (record {
  accounts_stay = λ k h. contains_key-rebalance k _ _ _ _ l.accounts h;
  posted_stay = λ p h found is. stays-insert p t.id h t l.transfers s.fresh found;
})
Step-Grows (LedgerEvent.transfer_pending_created t) l l' s = rw s.result (record {
  accounts_stay = λ k h. contains_key-rebalance k _ _ _ _ l.accounts h;
  posted_stay = λ p h found is. stays-insert p t.id h t l.transfers s.fresh found;
})
Step-Grows (LedgerEvent.transfer_pending_posted p q n timestamp) l l' s = rw s.result (record {
  accounts_stay = λ k h. contains_key-rebalance k _ _ _ _ l.accounts h;
  posted_stay = λ r h found is.
      stays-insert r q h _ _ (unchanged_absent q p (restore_state posted) l.transfers s.fresh)
        (stays-update r p h s.hold posted l.transfers s.found_hold s.is_pending found is);
})
Step-Grows (LedgerEvent.transfer_pending_voided p n timestamp) l l' (s, same) =
    rw s.result (record {
      accounts_stay = λ k h. contains_key-rebalance k _ _ _ _ l.accounts h;
      posted_stay = λ r h found is.
          stays-update r p h s.hold voided l.transfers s.found_hold s.is_pending found is;
    })
