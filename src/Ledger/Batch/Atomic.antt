-- ===== src/Ledger/Batch/Atomic.antt =====
-- The loop of `apply_with_undo`, `prepare_batch` and `prepare_transactions`: a failure restores
-- the ledger that the batch began with, and a success leaves an undo log that would.
use mathlib.Core.List
use trust_ledger.Common.{
  ◌≡◌, List, [], ap, arith, length, refl, take-append_length, ◌++◌, ◌∙◌, ◌∷◌, append-nil,
  append_assoc, ap₂, inl, inr, subst, sym,
}
use trust_ledger.Journal.{LedgerEvent}
use trust_ledger.Ledger.Events.{apply_events, apply_event}
use trust_ledger.Ledger.Rollback.{UndoOp, remove_account, revert, revert_all, rollback}
use trust_ledger.Ledger.Rollback.Reverts.{kept}
use trust_ledger.Ledger.State.{Ledger, done, Outcome, fail, Method, Outcome-cases}
use trust_ledger.Ledger.Batch.{run_with_undo}
use trust_ledger.LedgerError.{LedgerError, Result, ok, Result-cases}

-- Reverting reads and writes the accounts and the transfers alone.
revert-kept : (op : UndoOp) (l k : Ledger) → revert op (kept l k) ≡ kept (revert op l) k
unfolding revert
revert-kept (remove_account id) l k = refl
revert-kept _ l k = refl

pub revert_all-kept :
    (undo : List UndoOp) (l k : Ledger) → revert_all undo (kept l k) ≡ kept (revert_all undo l) k
unfolding revert_all
revert_all-kept [] l k = refl
revert_all-kept (op ∷ undo) l k =
    ap (revert op) (revert_all-kept undo l k) ∙ revert-kept op (revert_all undo l) k

pub revert_all-append :
    (xs ys : List UndoOp) (l : Ledger) → revert_all (xs ++ ys) l ≡ revert_all xs (revert_all ys l)
unfolding revert_all
revert_all-append [] ys l = refl
revert_all-append (x ∷ xs) ys l = ap (revert x) (revert_all-append xs ys l)

-- A batch that began at `b` has reached `l` by applying `events`, and `undo` leads back.
pub record Progress (b : Ledger) (undo : List UndoOp) (events : List LedgerEvent) (l : Ledger)
    : Type 0 where
  pub recorded : l.journal ≡ b.journal ++ events
  pub replayed : apply_events events b ≡ done tt l
  pub undone : revert_all undo l ≡ kept b l

-- Rolling back a batch in progress restores the ledger that it began with.
pub rollback-Progress :
    (b : Ledger) (undo : List UndoOp) (events : List LedgerEvent) (l : Ledger)
    → Progress b undo events l
    → rollback undo (length b.journal) b.last_timestamp l ≡ b
unfolding rollback
rollback-Progress b undo events l p =
    rw p.undone
      (rw p.recorded (ap (λ j. record b { journal = j }) (take-append_length b.journal events)))

-- The first event of a run that succeeds.
pub apply_events-cons :
    (x : LedgerEvent) (xs : List LedgerEvent) (l m : Ledger)
    → apply_event x l ≡ done tt m
    → apply_events (x ∷ xs) l ≡ apply_events xs m
unfolding apply_events
apply_events-cons x xs l m h = rw (h, apply_events) refl

-- A run that fails at once, and one that goes on.
pub apply_events-fail :
    (x : LedgerEvent) (xs : List LedgerEvent) (l m : Ledger) (e : LedgerError)
    → apply_event x l ≡ fail e m
    → apply_events (x ∷ xs) l ≡ fail e m
unfolding apply_events
apply_events-fail x xs l m e h = rw (h, apply_events) refl

pub apply_events-append :
    (xs ys : List LedgerEvent) (l m : Ledger)
    → apply_events xs l ≡ done tt m
    → apply_events (xs ++ ys) l ≡ apply_events ys m
unfolding apply_events
apply_events-append [] ys l m h = ground arith
apply_events-append (x ∷ xs) ys l m h = elim (Outcome-cases (apply_event x l)) [
  | inl (u, k, e) ↦
      apply_events-cons x (xs ++ ys) l k e
      ∙ apply_events-append xs ys k m (sym (apply_events-cons x xs l k e) ∙ h)
  | inr (e, k, f) ↦ let never : done tt m ≡ fail e k = sym h ∙ apply_events-fail x xs l k e f in cc
]

-- What one step of the loop has done, by how it ended: nothing, or one event that `pre` reverts.
abbrev pub Undoable :
    {X : Type 0} (label : LedgerEvent → X) (x : X) (l : Ledger) (pre : List UndoOp)
    → Outcome (Unit {0})
    → Type 0
Undoable label x l pre (fail e l') = l' ≡ l
Undoable label x l pre (done u l') =
    (event : LedgerEvent) × (label event ≡ x)
    × (l'.journal ≡ l.journal ++ event ∷ [])
    × (apply_event event l ≡ done tt l')
    × (revert_all pre l' ≡ kept l l')

-- One more step of a batch in progress.
extend :
    (b : Ledger) (undo pre : List UndoOp) (events : List LedgerEvent) (event : LedgerEvent)
    (l l' : Ledger)
    → Progress b undo events l
    → l'.journal ≡ l.journal ++ event ∷ []
    → apply_event event l ≡ done tt l'
    → revert_all pre l' ≡ kept l l'
    → Progress b (undo ++ pre) (events ++ event ∷ []) l'
extend b undo pre events event l l' p journal applies reverts_it = record {
  recorded =
      journal ∙ ap (λ j. j ++ event ∷ []) p.recorded ∙ append_assoc b.journal events (event ∷ []);
  replayed =
      apply_events-append events (event ∷ []) b l p.replayed
      ∙ apply_events-cons event [] l l' applies
      ∙ (unfold apply_events in refl);
  undone =
      revert_all-append undo pre l'
      ∙ ap (revert_all undo) reverts_it
      ∙ revert_all-kept undo l l'
      ∙ ap (λ k. kept k l') p.undone;
}

-- How the loop ends that a batch from `b` runs over `xs`: back at `b`, or with an event for each.
abbrev pub Ends :
    {X : Type 0} (label : LedgerEvent → X)
    → Ledger
    → List LedgerEvent
    → List X
    → Outcome (List UndoOp)
    → Type 0
Ends label b events xs (fail e l) = l ≡ b
Ends label b events xs (done undo l) =
    (more : List LedgerEvent) × (List.map label more ≡ xs) × Progress b undo (events ++ more) l

module _ {X : Type 0} (before : X → Ledger → Result (List UndoOp)) (step : X → Method (Unit {0}))
    (label : LedgerEvent → X)
    (sound : (x : X) (l : Ledger) (pre : List UndoOp)
      → before x l ≡ ok pre
      → Undoable label x l pre (step x l)) where
  Ends-cons :
      (b : Ledger) (events : List LedgerEvent) (event : LedgerEvent) (x : X) (xs : List X)
      (o : Outcome (List UndoOp))
      → label event ≡ x
      → Ends label b (events ++ event ∷ []) xs o
      → Ends label b events (x ∷ xs) o
  Ends-cons b events event x xs (fail e l) h s = s
  Ends-cons b events event x xs (done undo l) h (more, labels, p) = (
    event ∷ more,
    ap₂ (λ y ys. y ∷ ys) h labels,
    subst (λ es. Progress b undo es l) (append_assoc events (event ∷ []) more) p,
  )

  -- From a batch in progress the loop fails with the ledger that the batch began with, or it
  -- succeeds with one event for each item.
  pub run-Ends :
      (b : Ledger) (xs : List X) (undo : List UndoOp) (events : List LedgerEvent) (l : Ledger)
      → Progress b undo events l
      → Ends label b events xs
          (run_with_undo before step xs undo (length b.journal) b.last_timestamp l)
  unfolding run_with_undo
  run-Ends b [] undo events l p =
      ([], refl, subst (λ es. Progress b undo es l) (sym (append-nil events)) p)
  run-Ends b (x ∷ xs) undo events l p = elim (Result-cases (before x l)) [
    | inr (e, refused_it) ↦ rw (refused_it, run_with_undo) (rollback-Progress b undo events l p)
    | inl (pre, captured) ↦ elim (Outcome-cases (step x l)) [
      | inr (e, l', failed) ↦
          let same : l' ≡ l = subst (Undoable label x l pre) failed (sound x l pre captured) in
          rw (captured, run_with_undo)
            (rw (failed, run_with_undo) (rw same (rollback-Progress b undo events l p)))
      | inl (u, l', stepped) ↦
          let (event, labelled, journal, applies, reverts_it) =
            subst (Undoable label x l pre) stepped (sound x l pre captured) in
          rw (captured, run_with_undo)
            (rw (stepped, run_with_undo)
              (Ends-cons b events event x xs _ labelled (
                run-Ends b xs (undo ++ pre) (events ++ event ∷ []) l'
                  (extend b undo pre events event l l' p journal applies reverts_it))))
    ]
  ]
