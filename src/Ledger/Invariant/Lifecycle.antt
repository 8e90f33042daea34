-- ===== src/Ledger/Invariant/Lifecycle.antt =====
-- The life cycle of a stored transfer: it is never removed, it changes only from pending to
-- posted or voided, and it never changes again.
use trust_ledger.Common.{
  ◌≡◌, ==→eq, Bool-cases, List, [], ap, arith, inl, inr, none, refl, some, subst, sym, ◌==◌, ◌∙◌,
  ◌∷◌, ◌≢◌, ◌⊎◌,
}
use mathlib.Core.Option.{some-injective}
use trust_ledger.Journal.{LedgerEvent}
use trust_ledger.Ledger.Batch.Atomic.{apply_events-cons, apply_events-fail}
use trust_ledger.Ledger.Batch.Commit.{apply_event-done}
use trust_ledger.Ledger.Events.{apply_event, apply_events}
use trust_ledger.Ledger.Invariant.Reachable.{Call, Call-Advances}
use trust_ledger.Ledger.State.{Ledger, done, fail, after, Outcome-cases}
use trust_ledger.Ledger.Step.{Step}
use trust_ledger.SortedMap.{SortedMap, get, insert, update}
use trust_ledger.SortedMap.Lookup.{get-insert, get-update, unchanged_absent}
use trust_ledger.Transfer.{Transfer, restore_state}
use trust_ledger.Vocabulary.{TransferId, TransferState, pending, posted, voided}

-- What a step may make of a stored transfer.
abbrev pub Evolves : Transfer → Transfer → Type 0
Evolves t t' =
    (t' ≡ t)
    ⊎ ((t.state ≡ pending) × ((t' ≡ restore_state posted t) ⊎ (t' ≡ restore_state voided t)))

after_insert :
    (id k : TransferId) (v t : Transfer) (m : SortedMap Transfer)
    → get k m ≡ none
    → get id m ≡ some t
    → get id (insert k v m) ≡ some t
after_insert id k v t m fresh found = ground (arith, get-insert id k v m)

-- A stored transfer after a hold has changed its state.
after_settling :
    (id p : TransferId) (s : TransferState) (hold t : Transfer) (m : SortedMap Transfer)
    → get p m ≡ some hold
    → hold.state ≡ pending
    → get id m ≡ some t
    → (t' : Transfer) × (get id (update p (restore_state s) m) ≡ some t')
      × ((t' ≡ t) ⊎ ((t.state ≡ pending) × (t' ≡ restore_state s t)))
after_settling id p s hold t m found is at_id = elim (Bool-cases (id == p)) [
  | inl here ↦
      let is_hold : t ≡ hold =
        some-injective _ _ (sym at_id ∙ ap (λ k. get k m) (==→eq id p here) ∙ found) in
      (
        restore_state s t,
        rw (get-update id p (restore_state s) m, here, at_id),
        inr (ap (λ k. k.state) is_hold ∙ is, refl),
      )
  | inr elsewhere ↦ (t, rw (get-update id p (restore_state s) m, elsewhere, at_id), inl refl)
]

posted-Evolves :
    (t t' : Transfer)
    → (t' ≡ t) ⊎ ((t.state ≡ pending) × (t' ≡ restore_state posted t))
    → Evolves t t'
posted-Evolves t t' (inl same) = inl same
posted-Evolves t t' (inr (is, e)) = inr (is, inl e)

voided-Evolves :
    (t t' : Transfer)
    → (t' ≡ t) ⊎ ((t.state ≡ pending) × (t' ≡ restore_state voided t))
    → Evolves t t'
voided-Evolves t t' (inl same) = inl same
voided-Evolves t t' (inr (is, e)) = inr (is, inr e)

-- Every step keeps a stored transfer, or takes it from pending to posted or voided.
pub Step-Evolves :
    (event : LedgerEvent) (l l' : Ledger) (id : TransferId) (t : Transfer)
    → Step event l l'
    → get id l.transfers ≡ some t
    → (t' : Transfer) × (get id l'.transfers ≡ some t') × Evolves t t'
Step-Evolves (LedgerEvent.account_created i ty fl sc ts) l l' id t s found =
    (t, ap (λ k. get id k.transfers) s.result ∙ found, inl refl)
Step-Evolves (LedgerEvent.account_closed i ts) l l' id t s found =
    (t, ap (λ k. get id k.transfers) s.result ∙ found, inl refl)
Step-Evolves (LedgerEvent.transfer_posted u) l l' id t s found = (
  t,
  ap (λ k. get id k.transfers) s.result ∙ after_insert id u.id u t l.transfers s.fresh found,
  inl refl,
)
Step-Evolves (LedgerEvent.transfer_pending_created u) l l' id t s found = (
  t,
  ap (λ k. get id k.transfers) s.result ∙ after_insert id u.id u t l.transfers s.fresh found,
  inl refl,
)
Step-Evolves (LedgerEvent.transfer_pending_posted p q n ts) l l' id t s found =
    let (t', at_id, how) =
      after_settling id p posted s.hold t l.transfers s.found_hold s.is_pending found in
    (
      t',
      ap (λ k. get id k.transfers) s.result
          ∙ after_insert id q _ t' _
              (unchanged_absent q p (restore_state posted) l.transfers s.fresh) at_id,
      posted-Evolves t t' how,
    )
Step-Evolves (LedgerEvent.transfer_pending_voided p n ts) l l' id t (s, same) found =
    let (t', at_id, how) =
      after_settling id p voided s.hold t l.transfers s.found_hold s.is_pending found in
    (t', ap (λ k. get id k.transfers) s.result ∙ at_id, voided-Evolves t t' how)

-- A transfer that is not pending stays as it is through a step.
Step-terminal :
    (event : LedgerEvent) (l l' : Ledger) (id : TransferId) (t : Transfer)
    → Step event l l'
    → t.state ≢ pending
    → get id l.transfers ≡ some t
    → get id l'.transfers ≡ some t
Step-terminal event l l' id t s other found =
    let (t', at_id, how) = Step-Evolves event l l' id t s found in
    elim how [ inl same ↦ at_id ∙ ap some same | inr (is, e) ↦ absurd (other is) ]

apply_events-terminal :
    (events : List LedgerEvent) (l l' : Ledger) (id : TransferId) (t : Transfer)
    → t.state ≢ pending
    → get id l.transfers ≡ some t
    → apply_events events l ≡ done tt l'
    → get id l'.transfers ≡ some t
unfolding apply_events
apply_events-terminal [] l l' id t other found h =
    subst (λ k. get id k.transfers ≡ some t) (ap after h) found
apply_events-terminal (event ∷ events) l l' id t other found h =
    elim (Outcome-cases (apply_event event l)) [
      | inl (u, m, e) ↦
          apply_events-terminal events m l' id t other
            (Step-terminal event l m id t (apply_event-done event l m e) other found)
            (sym (apply_events-cons event events l m e) ∙ h)
      | inr (err_, m, e) ↦
          let never : done tt l' ≡ fail err_ m =
            sym h ∙ apply_events-fail event events l m err_ e in
          cc
    ]

-- Once a transfer is posted or voided, no call of any public method, failing or not, removes it or
-- changes any of its fields.
pub Call-terminal :
    (l l' : Ledger) (id : TransferId) (t : Transfer)
    → Call l l'
    → get id l.transfers ≡ some t
    → t.state ≢ pending
    → get id l'.transfers ≡ some t
Call-terminal l l' id t c found other =
    let a = Call-Advances l l' c in apply_events-terminal a.events l l' id t other found a.applies
