-- ===== src/Ledger/Invariant/Stored.antt =====
-- Every stored transfer stays well formed through every step: its key, its two accounts, and its
-- hold link; and no key comes to stand twice.
use mathlib.Core.Option.{some-injective}
use trust_ledger.Common.{
  ◌≡◌, ==→eq, Bool-cases, Option, ap, inl, inr, none, some, sym, ◌==◌, ◌∙◌, ==-refl, if◌then◌else◌,
  refl, subst, subst₂, ◌≢◌, ◌⊎◌,
}
use trust_ledger.Journal.{LedgerEvent}
use trust_ledger.Ledger.Invariant.{LinkFits, IsWellFormed}
use trust_ledger.Ledger.State.{Ledger}
use trust_ledger.Ledger.Step.{HasPostedHold, shut, Step, Admissible}
use trust_ledger.SortedMap.{SortedMap, get, insert, update}
use trust_ledger.SortedMap.Keys.{
  UniqueKeys, insert-UniqueKeys, update-UniqueKeys, contains_key-found,
}
use trust_ledger.SortedMap.Lookup.{get-insert, get-update, unchanged_absent, from-update}
use trust_ledger.Transfer.{Transfer, restore_state, settlement}
use trust_ledger.Vocabulary.{TransferId, TransferState, pending, posted, voided}
use trust_ledger.Ledger.Invariant.Backed.{posted-ne-pending, voided-ne-pending}
use trust_ledger.Ledger.Invariant.Growth.{Grows, IsWellFormed-Grows, stays-insert, Step-Grows}

-- The stored transfer after one with a fresh identifier has been added.
from-insert :
    (j k : TransferId) (v : Transfer) (m : SortedMap Transfer) (t : Transfer)
    → get j (insert k v m) ≡ some t
    → ((j ≡ k) × (t ≡ v)) ⊎ (get j m ≡ some t)
from-insert j k v m t h = elim (Bool-cases (j == k)) [
  | inl same ↦ inl (
    ==→eq j k same,
    sym (
        some-injective _ _
          (sym (ap (λ b. if b then some v else get j m) same) ∙ sym (get-insert j k v m) ∙ h)),
  )
  | inr other ↦
      inr (sym (ap (λ b. if b then some v else get j m) other) ∙ sym (get-insert j k v m) ∙ h)
]

-- A new transfer that the ledger admits is well formed once it is stored.
admitted :
    (t : Transfer) (l l' : Ledger) (a : Admissible t l)
    → Grows l l'
    → LinkFits t.state t.pending_id l
    → IsWellFormed l' t.id t
admitted t l l' a g link = IsWellFormed-Grows t.id t l l' g (record {
  keyed = refl;
  distinct = a.distinct;
  has_debtor = contains_key-found t.debit_account_id a.debtor l.accounts a.found_debtor;
  has_creditor = contains_key-found t.credit_account_id a.creditor l.accounts a.found_creditor;
  link_fits = link;
})

-- A transfer with no hold link fits every state.
unlinked_fits : (s : TransferState) (o : Option TransferId) (l : Ledger) → o ≡ none → LinkFits s o l
unlinked_fits pending o l h = h
unlinked_fits posted o l h = subst (λ k. HasPostedHold k l) (sym h) tt
unlinked_fits voided o l h = h

-- A hold that has left the pending state is well formed: it had no hold link.
settled :
    (id : TransferId) (s : TransferState) (t : Transfer) (l : Ledger)
    → t.state ≡ pending
    → s ≢ pending
    → IsWellFormed l id t
    → IsWellFormed l id (restore_state s t)
settled id s t l is other w =
    let unlinked : t.pending_id ≡ none = subst (λ k. LinkFits k t.pending_id l) is w.link_fits in
    record {
      keyed = w.keyed;
      distinct = w.distinct;
      has_debtor = w.has_debtor;
      has_creditor = w.has_creditor;
      link_fits = unlinked_fits s t.pending_id l unlinked;
    }

-- The stored transfers after a hold has changed its state.
settled_store :
    (p : TransferId) (s : TransferState) (hold : Transfer) (l l' : Ledger)
    → ((id : TransferId) (t : Transfer) → get id l.transfers ≡ some t → IsWellFormed l id t)
    → Grows l l'
    → get p l.transfers ≡ some hold
    → hold.state ≡ pending
    → s ≢ pending
    → (id : TransferId) (t : Transfer) → get id (update p (restore_state s) l.transfers) ≡ some t
    → IsWellFormed l' id t
settled_store p s hold l l' ok_all g found is other id t h =
    let (b, before, same) = from-update id p (restore_state s) l.transfers t h in
    elim (Bool-cases (id == p)) [
      | inl here ↦
          let is_hold : b ≡ hold =
            some-injective _ _
              (sym before ∙ ap (λ k. get k l.transfers) (==→eq id p here) ∙ found) in
          let t_is : t ≡ restore_state s b =
            same ∙ ap (λ q. if q then restore_state s b else b) here in
          subst (IsWellFormed l' id) (sym t_is) (
            IsWellFormed-Grows id (restore_state s b) l l' g
              (settled id s b l (ap (λ k. k.state) is_hold ∙ is) other (ok_all id b before)))
      | inr elsewhere ↦
          let t_is : t ≡ b = same ∙ ap (λ q. if q then restore_state s b else b) elsewhere in
          subst (IsWellFormed l' id) (sym t_is)
            (IsWellFormed-Grows id b l l' g (ok_all id b before))
    ]

abbrev AllWellFormed : Ledger → Type 0
AllWellFormed l =
    (id : TransferId) (t : Transfer) → get id l.transfers ≡ some t → IsWellFormed l id t

-- The stored transfers after a new one has been admitted.
admitted_store :
    (t : Transfer) (l l' : Ledger) (a : Admissible t l)
    → AllWellFormed l
    → Grows l l'
    → LinkFits t.state t.pending_id l
    → (id : TransferId) (u : Transfer) → get id (insert t.id t l.transfers) ≡ some u
    → IsWellFormed l' id u
admitted_store t l l' a all g link id u h = elim (from-insert id t.id t l.transfers u h) [
  | inl (at_id, is_t) ↦ subst₂ (IsWellFormed l') (sym at_id) (sym is_t) (admitted t l l' a g link)
  | inr before ↦ IsWellFormed-Grows id u l l' g (all id u before)
]

-- Every step keeps every stored transfer well formed.
pub Step-AllWellFormed :
    (event : LedgerEvent) (l l' : Ledger) → AllWellFormed l → Step event l l' → AllWellFormed l'
Step-AllWellFormed (LedgerEvent.account_created id account_type flags scale timestamp) l l' all s j
      t found =
    IsWellFormed-Grows j t l l'
      (Step-Grows (LedgerEvent.account_created id account_type flags scale timestamp) l l' s)
      (all j t (subst (λ k. get j k.transfers ≡ some t) s.result found))
Step-AllWellFormed (LedgerEvent.account_closed id timestamp) l l' all s j t found =
    IsWellFormed-Grows j t l l' (Step-Grows (LedgerEvent.account_closed id timestamp) l l' s)
      (all j t (subst (λ k. get j k.transfers ≡ some t) s.result found))
Step-AllWellFormed (LedgerEvent.transfer_posted t) l l' all s j u found =
    admitted_store t l l' s.admissible all (Step-Grows (LedgerEvent.transfer_posted t) l l' s)
      (subst (λ k. LinkFits k t.pending_id l) (sym s.is_posted) s.linked) j u
      (subst (λ k. get j k.transfers ≡ some u) s.result found)
Step-AllWellFormed (LedgerEvent.transfer_pending_created t) l l' all s j u found =
    admitted_store t l l' s.admissible all
      (Step-Grows (LedgerEvent.transfer_pending_created t) l l' s)
      (subst (λ k. LinkFits k t.pending_id l) (sym s.is_pending) s.unlinked) j u
      (subst (λ k. get j k.transfers ≡ some u) s.result found)
Step-AllWellFormed (LedgerEvent.transfer_pending_posted p q n timestamp) l l' all s j u found =
    let t = s.hold in
    let g = Step-Grows (LedgerEvent.transfer_pending_posted p q n timestamp) l l' s in
    let m = update p (restore_state posted) l.transfers in
    let new = settlement q t.debit_account_id t.credit_account_id n p timestamp in
    let fresh = unchanged_absent q p (restore_state posted) l.transfers s.fresh in
    let old = all p t s.found_hold in
    elim (from-insert j q new m u (subst (λ k. get j k.transfers ≡ some u) s.result found)) [
      | inr before ↦
          settled_store p posted t l l' all g s.found_hold s.is_pending posted-ne-pending j u before
      | inl (at_id, is_new) ↦ subst₂ (IsWellFormed l') (sym at_id) (sym is_new) (record {
        keyed = refl;
        distinct = s.distinct;
        has_debtor = g.accounts_stay t.debit_account_id old.has_debtor;
        has_creditor = g.accounts_stay t.credit_account_id old.has_creditor;
        link_fits = (
          restore_state posted t,
          ap (λ k. get p k.transfers) s.result
              ∙ stays-insert p q (restore_state posted t) new m fresh
                  (rw (get-update p p (restore_state posted) l.transfers, ==-refl p, s.found_hold)),
          refl,
        );
      })
    ]
Step-AllWellFormed (LedgerEvent.transfer_pending_voided p n timestamp) l l' all (s, same) j u
      found =
    settled_store p voided s.hold l l' all
      (Step-Grows (LedgerEvent.transfer_pending_voided p n timestamp) l l' (s, same)) s.found_hold
      s.is_pending voided-ne-pending j u (subst (λ k. get j k.transfers ≡ some u) s.result found)

-- Every step keeps the keys of the two maps unique.
pub Step-UniqueKeys :
    (event : LedgerEvent) (l l' : Ledger)
    → UniqueKeys l.accounts
    → UniqueKeys l.transfers
    → Step event l l'
    → UniqueKeys l'.accounts × UniqueKeys l'.transfers
Step-UniqueKeys (LedgerEvent.account_created id account_type flags scale timestamp) l l' ua ut s =
    rw s.result (insert-UniqueKeys id _ l.accounts s.fresh ua, ut)
Step-UniqueKeys (LedgerEvent.account_closed id timestamp) l l' ua ut s =
    rw s.result (update-UniqueKeys id shut l.accounts ua, ut)
Step-UniqueKeys (LedgerEvent.transfer_posted t) l l' ua ut s =
    rw s.result
      (update-UniqueKeys _ _ _ (update-UniqueKeys _ _ _ ua), insert-UniqueKeys t.id t _ s.fresh ut)
Step-UniqueKeys (LedgerEvent.transfer_pending_created t) l l' ua ut s =
    rw s.result
      (update-UniqueKeys _ _ _ (update-UniqueKeys _ _ _ ua), insert-UniqueKeys t.id t _ s.fresh ut)
Step-UniqueKeys (LedgerEvent.transfer_pending_posted p q n timestamp) l l' ua ut s = rw s.result (
  update-UniqueKeys _ _ _ (update-UniqueKeys _ _ _ ua),
  insert-UniqueKeys q _ _ (unchanged_absent q p (restore_state posted) l.transfers s.fresh)
      (update-UniqueKeys p (restore_state posted) l.transfers ut),
)
Step-UniqueKeys (LedgerEvent.transfer_pending_voided p n timestamp) l l' ua ut (s, same) =
    rw s.result (
      update-UniqueKeys _ _ _ (update-UniqueKeys _ _ _ ua),
      update-UniqueKeys p (restore_state voided) l.transfers ut,
    )
