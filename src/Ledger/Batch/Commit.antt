-- ===== src/Ledger/Batch/Commit.antt =====
-- `commit_events`, `apply_batch`, `prepare_batch` and `prepare_transactions` of ledger.rs: batches
-- are atomic, preparing leaves no trace, and what was prepared commits.
use mathlib.Core.List
use trust_ledger.Common.{
  ◌≡◌, List, [], ap, append-nil, arith, refl, subst, sym, ◌++◌, ◌∙◌, ◌∷◌, drop, drop-append_length,
  inl, inr, length, ℕ,
}
use trust_ledger.Journal.{LedgerEvent, BatchOp}
use trust_ledger.Ledger.Batch.{commit_events, run_with_undo, apply_batch, prepare_batch}
use trust_ledger.Ledger.Batch.Atomic.{
  Progress, Undoable, run-Ends, rollback-Progress, apply_events-cons, apply_events-fail, Ends,
}
use trust_ledger.Ledger.Events.{apply_event, apply_batch_op, apply_events}
use trust_ledger.Ledger.Rollback.{UndoOp, revert_all, pre_images, op_pre_images, rollback}
use trust_ledger.Ledger.Rollback.Reverts.{
  reverts, transfer_before_found, post_before_found, void_before_found, flags_before_found,
}
use trust_ledger.Ledger.State.{Ledger, Outcome, done, fail, after, Outcome-cases}
use trust_ledger.Ledger.Step.Events.{apply_event-Step, op_of, apply_batch_op-OpStep, Step-journal}
use trust_ledger.Ledger.Step.Writes.{applied, refused}
use trust_ledger.LedgerError.{ok}
use trust_ledger.Ledger.Step.{Step}
use trust_ledger.Transfer.{Transfer}
use trust_ledger.Vocabulary.{Timestamp}

-- A captured and applied event is one that its pre-images revert.
event_sound :
    (event : LedgerEvent) (l : Ledger) (pre : List UndoOp)
    → pre_images event l ≡ ok pre
    → Undoable (λ e. e) event l pre (apply_event event l)
event_sound event l pre h = elim (apply_event-Step event l) [
  | refused e failed ↦ subst (Undoable (λ x. x) event l pre) (sym failed) refl
  | applied l' stepped s ↦
      subst (Undoable (λ x. x) event l pre) (sym stepped)
        (event, refl, (Step-journal event l l' s).0, stepped, reverts event l l' pre h s)
]

-- The pre-images of an operation are those of its event.
pre_images-op_of :
    (event : LedgerEvent) (l : Ledger) (pre : List UndoOp)
    → op_pre_images (op_of event) l ≡ ok pre
    → pre_images event l ≡ ok pre
unfolding op_pre_images pre_images
pre_images-op_of (LedgerEvent.account_created id account_type flags scale timestamp) l pre h =
    ground arith
pre_images-op_of (LedgerEvent.account_closed id timestamp) l pre h = h
pre_images-op_of (LedgerEvent.transfer_posted t) l pre h = h
pre_images-op_of (LedgerEvent.transfer_pending_created t) l pre h = h
pre_images-op_of (LedgerEvent.transfer_pending_posted p q n timestamp) l pre h = h
pre_images-op_of (LedgerEvent.transfer_pending_voided p n timestamp) l pre h = h

pub op_sound :
    (op : BatchOp) (l : Ledger) (pre : List UndoOp)
    → op_pre_images op l ≡ ok pre
    → Undoable op_of op l pre (apply_batch_op op l)
op_sound op l pre h = elim (apply_batch_op-OpStep op l) [
  | refused e failed ↦ subst (Undoable op_of op l pre) (sym failed) refl
  | applied l' stepped s ↦ subst (Undoable op_of op l pre) (sym stepped) (
    s.event,
    s.records_op,
    (Step-journal s.event l l' s.step).0,
    s.again ∙ stepped,
    reverts s.event l l' pre
        (pre_images-op_of s.event l pre
          (subst (λ x. op_pre_images x l ≡ ok pre) (sym s.records_op) h))
        s.step,
  )
]

pub Progress-start : (l : Ledger) → Progress l [] [] l
unfolding apply_events revert_all
Progress-start l = record { recorded = sym (append-nil l.journal); replayed = refl; undone = refl }

map_same : (xs : List LedgerEvent) → List.map (λ x. x) xs ≡ xs
map_same [] = refl
map_same (x ∷ xs) = ap (λ ys. x ∷ ys) (map_same xs)

-- How a committed batch ends.
abbrev pub Committed : List LedgerEvent → Ledger → Outcome (Unit {0}) → Type 0
Committed events l (fail e l') = l' ≡ l
Committed events l (done u l') =
    (apply_events events l ≡ done tt l') × (l'.journal ≡ l.journal ++ events)

apply_with_undo-Committed :
    (events : List LedgerEvent) (l : Ledger) (o : Outcome (List UndoOp))
    → Ends (λ e. e) l [] events o
    → Committed events l (elim o [ done undo l' ↦ done tt l' | fail e l' ↦ fail e l' ])
apply_with_undo-Committed events l (fail e l') h = h
apply_with_undo-Committed events l (done undo l') (more, labels, p) =
    let same : more ≡ events = sym (map_same more) ∙ labels in
    (
      subst (λ es. apply_events es l ≡ done tt l') same p.replayed,
      subst (λ es. l'.journal ≡ l.journal ++ es) same p.recorded,
    )

-- A batch of events is committed whole, as one application of each event in order with the events
-- appended to the journal, or it fails and leaves the ledger exactly as it was.
pub commit_events-Committed :
    (events : List LedgerEvent) (l : Ledger) → Committed events l (commit_events events l)
unfolding commit_events
commit_events-Committed events l =
    apply_with_undo-Committed events l _
      (run-Ends pre_images apply_event (λ e. e) event_sound l events [] [] l (Progress-start l))

-- `apply_batch` is the commit of its transfers' events.
pub apply_batch-Committed :
    (transfers : List Transfer) (l : Ledger)
    → Committed
        (List.map (λ t. LedgerEvent.transfer_posted t) transfers)
        l
        (apply_batch transfers l)
unfolding apply_batch
apply_batch-Committed transfers l =
    commit_events-Committed (List.map (λ t. LedgerEvent.transfer_posted t) transfers) l

-- What can be applied can be captured first.
captured :
    (event : LedgerEvent) (l l' : Ledger)
    → Step event l l'
    → (pre : List UndoOp) × (pre_images event l ≡ ok pre)
unfolding pre_images
captured (LedgerEvent.account_created id account_type flags scale timestamp) l l' s = (_, refl)
captured (LedgerEvent.account_closed id timestamp) l l' s =
    (_, flags_before_found id l s.account s.found)
captured (LedgerEvent.transfer_posted t) l l' s =
    (_, transfer_before_found t l s.debtor s.creditor s.found_debtor s.found_creditor)
captured (LedgerEvent.transfer_pending_created t) l l' s =
    (_, transfer_before_found t l s.debtor s.creditor s.found_debtor s.found_creditor)
captured (LedgerEvent.transfer_pending_posted p q n timestamp) l l' s = (
  _,
  post_before_found p q l s.hold s.debtor s.creditor s.found_hold s.found_debtor s.found_creditor,
)
captured (LedgerEvent.transfer_pending_voided p n timestamp) l l' (s, same) = (
  _,
  void_before_found p l s.hold s.debtor s.creditor s.found_hold s.found_debtor s.found_creditor,
)

-- An event that is applied takes its step.
pub apply_event-done :
    (event : LedgerEvent) (l l' : Ledger) → apply_event event l ≡ done tt l' → Step event l l'
apply_event-done event l l' h = elim (apply_event-Step event l) [
  | applied k stepped s ↦
      let same : k ≡ l' = ap after (sym stepped ∙ h) in subst (Step event l) same s
  | refused e failed ↦ let never : done tt l' ≡ fail e l = sym h ∙ failed in cc
]

-- The loop of a commit goes through wherever the plain loop does.
commits_run :
    (events : List LedgerEvent) (undo : List UndoOp) (n : ℕ) (ts : Timestamp) (l m : Ledger)
    → apply_events events l ≡ done tt m
    → (undo' : List UndoOp) × (run_with_undo pre_images apply_event events undo n ts l
        ≡ done undo' m)
unfolding apply_events run_with_undo
commits_run [] undo n ts l m h = (undo, ap (λ k. done undo (after k)) h)
commits_run (event ∷ events) undo n ts l m h = elim (Outcome-cases (apply_event event l)) [
  | inr (e, k, f) ↦
      let never : done tt m ≡ fail e k = sym h ∙ apply_events-fail event events l k e f in cc
  | inl (u, k, stepped) ↦
      let (pre, found) = captured event l k (apply_event-done event l k stepped) in
      let (undo', rest) =
        commits_run events (undo ++ pre) n ts k m
          (sym (apply_events-cons event events l k stepped) ∙ h) in
      (undo', rw (found, run_with_undo) (rw (stepped, run_with_undo) rest))
]

-- Events that apply one after another are committed as a batch, with the same final ledger.
pub commit_events-apply_events :
    (events : List LedgerEvent) (l m : Ledger)
    → apply_events events l ≡ done tt m
    → commit_events events l ≡ done tt m
unfolding commit_events
commit_events-apply_events events l m h =
    let (undo, run) = commits_run events [] (length l.journal) l.last_timestamp l m h in
    rw (run, commit_events) refl

-- How a prepared batch ends: in every case with the ledger it was called on. What it returns has
-- one event for each operation, and commits.
abbrev pub Speculated : List BatchOp → Ledger → Outcome (List LedgerEvent) → Type 0
Speculated ops l (fail e l') = l' ≡ l
Speculated ops l (done events l') =
    (l' ≡ l)
    × (List.map op_of events ≡ ops)
    × (m : Ledger) × (commit_events events l ≡ done tt m)
    × (m.journal ≡ l.journal ++ events)

run_with_undo-Speculated :
    (ops : List BatchOp) (l : Ledger) (o : Outcome (List UndoOp))
    → Ends op_of l [] ops o
    → Speculated ops l (elim o [
      | done undo l' ↦
          done
            (drop (length l.journal) l'.journal)
            (rollback undo (length l.journal) l.last_timestamp l')
      | fail e l' ↦ fail e l'
    ])
run_with_undo-Speculated ops l (fail e l') h = h
run_with_undo-Speculated ops l (done undo l') (more, labels, p) =
    let produced : drop (length l.journal) l'.journal ≡ more =
      ap (drop (length l.journal)) p.recorded ∙ drop-append_length l.journal more in
    (
      rollback-Progress l undo more l' p,
      ap (List.map op_of) produced ∙ labels,
      l',
      ap (λ es. commit_events es l) produced ∙ commit_events-apply_events more l l' p.replayed,
      p.recorded ∙ ap (λ es. l.journal ++ es) (sym produced),
    )

-- `prepare_batch` leaves the ledger exactly as it was, whether it fails or not; the events that it
-- returns are one for each operation in order, and committing them to that ledger succeeds and
-- appends them to the journal.
pub prepare_batch-Speculated :
    (ops : List BatchOp) (l : Ledger) → Speculated ops l (prepare_batch ops l)
unfolding prepare_batch
prepare_batch-Speculated ops l =
    run_with_undo-Speculated ops l _
      (run-Ends op_pre_images apply_batch_op op_of op_sound l ops [] [] l (Progress-start l))
