-- ===== src/Ledger/Rollback/Reverts.antt =====
-- The pre-images that ledger.rs captures before an event revert exactly what the event does.
use trust_ledger.Common.{
  ◌≡◌, refl, sym, ◌∙◌, ap, inl, inr, some, [], ◌∷◌, ◌==◌, arith, Bool-cases, ==→eq, subst, List,
  ap₂, none,
}
use trust_ledger.SortedMap.{SortedMap, get, update, insert}
use trust_ledger.SortedMap.Lookup.{get-update, unchanged_absent}
use trust_ledger.SortedMap.Undo.{update-update, update-fuse, update_self, remove-insert}
use trust_ledger.Vocabulary.{AccountId, TransferId, posted, voided}
use trust_ledger.LedgerError.{ok, ok_or, ◌>>=◌, Result}
use trust_ledger.Account.{Account, Balance}
use trust_ledger.Transfer.{Transfer, restore_state}
use trust_ledger.Ledger.State.{Ledger}
use trust_ledger.Ledger.Checks.{get_account, get_transfer}
use trust_ledger.Ledger.Rollback.{
  account_balance_before, remove_transfer, transfer_state_before, balance_before, transfer_before,
  post_before, UndoOp, remove_account, account_flags_before, revert_all, void_before, flags_before,
  pre_images,
}
use trust_ledger.Ledger.Step.{
  on_balance, rebalance, post_debit, post_credit, hold_debit, hold_credit, capture_debit,
  capture_credit, release_debit, release_credit, created_ledger, closed_ledger, posted_ledger,
  reserved_ledger, captured_ledger, released_ledger, Step, shut,
}
use trust_ledger.Journal.{LedgerEvent}

restore_one :
    (k : AccountId) (f g : Balance → Balance) (x : Account) (b : Balance) (m : SortedMap Account)
    → get k m ≡ some x
    → update k (on_balance (λ _. x.balance)) (update k (on_balance (λ _. b)) (rebalance k f k g m))
      ≡ m
restore_one k f g x b m fx =
    update-fuse k (on_balance (λ _. x.balance)) (on_balance (λ _. b)) _
    ∙ update-fuse k (on_balance (λ _. x.balance)) (on_balance g) _
    ∙ update-fuse k (on_balance (λ _. x.balance)) (on_balance f) m
    ∙ update_self k (on_balance (λ _. x.balance)) x m fx refl

-- Restoring two balances after changes of them, whether the accounts differ or not.
restore_balances :
    (d c : AccountId) (f g : Balance → Balance) (x y : Account) (m : SortedMap Account)
    → get d m ≡ some x
    → get c m ≡ some y
    → update d
        (on_balance (λ _. x.balance))
        (update c (on_balance (λ _. y.balance)) (rebalance d f c g m))
      ≡ m
restore_balances d c f g x y m fx fy = elim (Bool-cases (c == d)) [
  | inl same ↦
      subst
        (λ k.
          update d (on_balance (λ _. x.balance))
            (update k (on_balance (λ _. y.balance)) (rebalance d f k g m))
          ≡ m)
        (sym (==→eq c d same)) (restore_one d f g x y.balance m fx)
  | inr other ↦
      ap (update d (on_balance (λ _. x.balance))) (
        update-update c (on_balance g) (on_balance (λ _. y.balance)) y (update d (on_balance f) m)
          (rw (get-update c d (on_balance f) m, other, fy)) refl)
      ∙ update-update d (on_balance f) (on_balance (λ _. x.balance)) x m fx refl
]

-- What the pre-images of a transfer are.
pub transfer_before_found :
    (t : Transfer) (l : Ledger) (x y : Account)
    → get t.debit_account_id l.accounts ≡ some x
    → get t.credit_account_id l.accounts ≡ some y
    → transfer_before t l
      ≡ ok (
          account_balance_before t.debit_account_id x.balance
          ∷ account_balance_before t.credit_account_id y.balance
          ∷ remove_transfer t.id
          ∷ [])
unfolding transfer_before balance_before get_account
transfer_before_found t l x y fx fy = ground arith

-- What the pre-images of a capture are.
pub post_before_found :
    (p q : TransferId) (l : Ledger) (t : Transfer) (x y : Account)
    → get p l.transfers ≡ some t
    → get t.debit_account_id l.accounts ≡ some x
    → get t.credit_account_id l.accounts ≡ some y
    → post_before p q l
      ≡ ok (
          account_balance_before t.debit_account_id x.balance
          ∷ account_balance_before t.credit_account_id y.balance
          ∷ transfer_state_before p t.state
          ∷ remove_transfer q
          ∷ [])
unfolding post_before balance_before get_account get_transfer
post_before_found p q l t x y ft fx fy =
    rw (ft, ok_or, ◌>>=◌) (rw (fx, ok_or, ◌>>=◌) (rw (fy, ok_or, ◌>>=◌) refl))

-- What the pre-images of a void are.
pub void_before_found :
    (p : TransferId) (l : Ledger) (t : Transfer) (x y : Account)
    → get p l.transfers ≡ some t
    → get t.debit_account_id l.accounts ≡ some x
    → get t.credit_account_id l.accounts ≡ some y
    → void_before p l
      ≡ ok (
          account_balance_before t.debit_account_id x.balance
          ∷ account_balance_before t.credit_account_id y.balance
          ∷ transfer_state_before p t.state
          ∷ [])
unfolding void_before balance_before get_account get_transfer
void_before_found p l t x y ft fx fy =
    rw (ft, ok_or, ◌>>=◌) (rw (fx, ok_or, ◌>>=◌) (rw (fy, ok_or, ◌>>=◌) refl))

-- What the pre-image of a closed account is.
pub flags_before_found :
    (id : AccountId) (l : Ledger) (x : Account)
    → get id l.accounts ≡ some x
    → flags_before id l ≡ ok (account_flags_before id x.flags ∷ [])
unfolding flags_before get_account
flags_before_found id l x fx = rw (fx, ok_or, ◌>>=◌) refl

-- The accounts and transfers of `l`, with the journal and the watermark of `l'`.
abbrev pub kept : Ledger → Ledger → Ledger
kept l l' = record l { journal = l'.journal; last_timestamp = l'.last_timestamp }

-- From the pre-images and the final ledger in hand to the ones that were computed.
reverts_by :
    {before : Result (List UndoOp)} {pre : List UndoOp} (known : List UndoOp) (l l' final : Ledger)
    → before ≡ ok pre
    → before ≡ ok known
    → l' ≡ final
    → revert_all known final ≡ kept l final
    → revert_all pre l' ≡ kept l l'
reverts_by {pre = pre} known l l' final h k e r =
    let same : pre ≡ known = cc in rw same (subst (λ q. revert_all known q ≡ kept l q) (sym e) r)

reverts_transfer :
    (t : Transfer) (f g : Balance → Balance) (x y : Account) (l final : Ledger)
    → get t.debit_account_id l.accounts ≡ some x
    → get t.credit_account_id l.accounts ≡ some y
    → get t.id l.transfers ≡ none
    → final ≡ record (kept l final) {
      accounts = rebalance t.debit_account_id f t.credit_account_id g l.accounts;
      transfers = insert t.id t l.transfers;
    }
    → revert_all
        (account_balance_before t.debit_account_id x.balance
          ∷ account_balance_before t.credit_account_id y.balance
          ∷ remove_transfer t.id
          ∷ [])
        final
      ≡ kept l final
unfolding revert_all
reverts_transfer t f g x y l final fx fy fresh e = rw e (
    ap₂ (λ a m. record (kept l final) { accounts = a; transfers = m })
      (restore_balances t.debit_account_id t.credit_account_id f g x y l.accounts fx fy)
      (remove-insert t.id t l.transfers fresh))

-- The pre-images of an event restore the accounts and the transfers that it changed.
pub reverts :
    (event : LedgerEvent) (l l' : Ledger) (pre : List UndoOp)
    → pre_images event l ≡ ok pre
    → Step event l l'
    → revert_all pre l' ≡ kept l l'
unfolding pre_images revert_all
reverts (LedgerEvent.account_created id account_type flags scale timestamp) l l' pre h s =
    reverts_by (remove_account id ∷ []) l l' _ h refl s.result (
      ap
        (λ m. record (kept l (created_ledger id account_type flags scale timestamp l)) {
          accounts = m;
        })
        (remove-insert id _ l.accounts s.fresh))
reverts (LedgerEvent.account_closed id timestamp) l l' pre h s =
    reverts_by (account_flags_before id s.account.flags ∷ []) l l' _ h
      (flags_before_found id l s.account s.found) s.result
      (ap (λ m. record (kept l (closed_ledger id timestamp l)) { accounts = m })
        (update-update id shut (λ a. record a { flags = s.account.flags }) s.account l.accounts
          s.found refl))
reverts (LedgerEvent.transfer_posted t) l l' pre h s =
    reverts_by _ l l' (posted_ledger t l) h
      (transfer_before_found t l s.debtor s.creditor s.found_debtor s.found_creditor) s.result
      (reverts_transfer t (post_debit t.amount) (post_credit t.amount) s.debtor s.creditor l
        (posted_ledger t l) s.found_debtor s.found_creditor s.fresh refl)
reverts (LedgerEvent.transfer_pending_created t) l l' pre h s =
    reverts_by _ l l' (reserved_ledger t l) h
      (transfer_before_found t l s.debtor s.creditor s.found_debtor s.found_creditor) s.result
      (reverts_transfer t (hold_debit t.amount) (hold_credit t.amount) s.debtor s.creditor l
        (reserved_ledger t l) s.found_debtor s.found_creditor s.fresh refl)
reverts (LedgerEvent.transfer_pending_posted pending_id post_transfer_id amount timestamp) l l' pre
      h s =
    let t = s.hold in
    reverts_by _ l l' (captured_ledger t pending_id post_transfer_id amount timestamp l) h
      (post_before_found pending_id post_transfer_id l t s.debtor s.creditor s.found_hold
        s.found_debtor s.found_creditor)
      s.result
      (ap₂
        (λ a m. record (kept l (captured_ledger t pending_id post_transfer_id amount timestamp l)) {
          accounts = a;
          transfers = m;
        })
        (restore_balances t.debit_account_id t.credit_account_id (capture_debit t.amount amount)
          (capture_credit t.amount amount) s.debtor s.creditor l.accounts s.found_debtor
          s.found_creditor)
        (ap (update pending_id (restore_state t.state)) (
            remove-insert post_transfer_id _ _ (
              unchanged_absent post_transfer_id pending_id (restore_state posted) l.transfers
                s.fresh))
          ∙ update-update pending_id (restore_state posted) (restore_state t.state) t l.transfers
              s.found_hold refl))
reverts (LedgerEvent.transfer_pending_voided pending_id amount timestamp) l l' pre h (s, same) =
    let t = s.hold in
    reverts_by _ l l' (released_ledger t pending_id timestamp l) h
      (void_before_found pending_id l t s.debtor s.creditor s.found_hold s.found_debtor
        s.found_creditor)
      s.result
      (ap₂
        (λ a m. record (kept l (released_ledger t pending_id timestamp l)) {
          accounts = a;
          transfers = m;
        })
        (restore_balances t.debit_account_id t.credit_account_id (release_debit t.amount)
          (release_credit t.amount) s.debtor s.creditor l.accounts s.found_debtor s.found_creditor)
        (update-update pending_id (restore_state voided) (restore_state t.state) t l.transfers
          s.found_hold refl))
