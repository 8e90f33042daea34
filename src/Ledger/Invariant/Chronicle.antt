-- ===== src/Ledger/Invariant/Chronicle.antt =====
-- The order of the journal of ledger.rs in time.
use trust_ledger.Common.{List, [], ◌∷◌, ◌≡◌, ◌≤◌, ap, sym, subst, ◌∙◌, inl, inr}
use trust_ledger.Vocabulary.{Scale, Timestamp}
use trust_ledger.Journal.{LedgerEvent}
use trust_ledger.Ledger.Batch.Atomic.{apply_events-cons, apply_events-fail}
use trust_ledger.Ledger.Batch.Commit.{apply_event-done}
use trust_ledger.Ledger.Events.{apply_event, apply_events}
use trust_ledger.Ledger.Invariant.Reachable.{Reachable, journal_applies}
use trust_ledger.Ledger.State.{Ledger, new_ledger, done, fail, after, Outcome-cases}
use trust_ledger.Ledger.Step.{Step}

-- When an event happened.
abbrev pub timestamp_of : LedgerEvent → Timestamp
timestamp_of (LedgerEvent.account_created id account_type flags scale timestamp) = timestamp
timestamp_of (LedgerEvent.account_closed id timestamp) = timestamp
timestamp_of (LedgerEvent.transfer_posted t) = t.timestamp
timestamp_of (LedgerEvent.transfer_pending_created t) = t.timestamp
timestamp_of (LedgerEvent.transfer_pending_posted p q n timestamp) = timestamp
timestamp_of (LedgerEvent.transfer_pending_voided p n timestamp) = timestamp

-- No event is older than the one before it, from `first` to `last`.
abbrev pub InOrder : Timestamp → List LedgerEvent → Timestamp → Type 0
InOrder first [] last = first ≡ last
InOrder first (event ∷ events) last =
    (first ≤ timestamp_of event) × InOrder (timestamp_of event) events last

-- A step happens no earlier than the last one, and becomes the last one.
pub Step-timestamp :
    (event : LedgerEvent) (l l' : Ledger)
    → Step event l l'
    → (l.last_timestamp ≤ timestamp_of event) × (l'.last_timestamp ≡ timestamp_of event)
Step-timestamp (LedgerEvent.account_created id account_type flags scale timestamp) l l' s =
    (s.timely, ap (λ k. k.last_timestamp) s.result)
Step-timestamp (LedgerEvent.account_closed id timestamp) l l' s =
    (s.timely, ap (λ k. k.last_timestamp) s.result)
Step-timestamp (LedgerEvent.transfer_posted t) l l' s =
    (s.timely, ap (λ k. k.last_timestamp) s.result)
Step-timestamp (LedgerEvent.transfer_pending_created t) l l' s =
    (s.timely, ap (λ k. k.last_timestamp) s.result)
Step-timestamp (LedgerEvent.transfer_pending_posted p q n timestamp) l l' s =
    (s.timely, ap (λ k. k.last_timestamp) s.result)
Step-timestamp (LedgerEvent.transfer_pending_voided p n timestamp) l l' (s, same) =
    (s.timely, ap (λ k. k.last_timestamp) s.result)

apply_events-InOrder :
    (events : List LedgerEvent) (l l' : Ledger)
    → apply_events events l ≡ done tt l'
    → InOrder l.last_timestamp events l'.last_timestamp
unfolding apply_events
apply_events-InOrder [] l l' h = ap (λ o. (after o).last_timestamp) h
apply_events-InOrder (event ∷ events) l l' h = elim (Outcome-cases (apply_event event l)) [
  | inl (u, m, e) ↦
      let (timely, now) = Step-timestamp event l m (apply_event-done event l m e) in
      (
        timely,
        subst (λ t. InOrder t events l'.last_timestamp) now
            (apply_events-InOrder events m l' (sym (apply_events-cons event events l m e) ∙ h)),
      )
  | inr (err_, m, e) ↦
      let never : done tt l' ≡ fail err_ m = sym h ∙ apply_events-fail event events l m err_ e in cc
]

-- The journal of every reachable ledger is in order of time: no event is older than the one before
-- it, and the last timestamp of the ledger is that of the last event, or 0 if there is none.
pub Reachable-InOrder :
    (scale : Scale) (l : Ledger) → Reachable scale l → InOrder 0 l.journal l.last_timestamp
Reachable-InOrder scale l r =
    apply_events-InOrder l.journal (new_ledger scale) l (journal_applies scale l r)
