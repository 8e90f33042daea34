-- ===== src/Ledger/Step/Events.antt =====
-- Journal events and runs of them: `apply_event`, `apply_batch_op` and the loop of `replay` in
-- ledger.rs, against the steps of the specification.
use trust_ledger.Common.{
  ◌≡◌, refl, sym, subst, inl, inr, some, arith, [], ◌∷◌, ==-refl, ap, ◌++◌, ◌∙◌,
}
use trust_ledger.SortedMap.{get}
use trust_ledger.Vocabulary.{TransferId, Amount, Timestamp}
use trust_ledger.LedgerError.{ok, Result-cases}
use trust_ledger.Transfer.{Transfer}
use trust_ledger.Journal.{LedgerEvent, BatchOp}
use trust_ledger.Ledger.State.{Ledger, Outcome, ◌>>=◌}
use trust_ledger.Ledger.Checks.{get_transfer}
use trust_ledger.Ledger.Operations.{void_pending}
use trust_ledger.Ledger.Events.{check_voided_amount, apply_event, apply_batch_op}
use trust_ledger.Ledger.Step.{Step, Releases}
use trust_ledger.Ledger.Step.Writes.{Refines, applied, refused, read_err, read_ok}
use trust_ledger.Ledger.Step.Transfers.{
  create_account-Creates, close_account-Closes, create_transfer-Posts, create_pending-Reserves,
}
use trust_ledger.Ledger.Step.Holds.{post_pending-Captures, void_pending-Releases}

-- A void event that passes its check names the amount of the hold that is released.
voided_amount :
    (pending_id : TransferId) (amount : Amount) (l : Ledger) (hold : Transfer)
    → check_voided_amount pending_id amount l ≡ ok tt
    → get pending_id l.transfers ≡ some hold
    → hold.amount ≡ amount
unfolding check_voided_amount get_transfer
voided_amount pending_id amount l hold h found = ground arith

-- A call that refines one specification refines another that it implies.
Refines-map :
    (l : Ledger) (S T : Ledger → Type 0) (o : Outcome (Unit {0}))
    → ((l' : Ledger) → S l' → T l')
    → Refines l S o
    → Refines l T o
Refines-map l S T o f (applied l' e s) = applied l' e (f l' s)
Refines-map l S T o f (refused e h) = refused e h

-- Every journal event is applied as the step that it records, or is refused with an error and
-- leaves the ledger exactly as it was: no failing call has written anything.
pub apply_event-Step :
    (event : LedgerEvent) (l : Ledger) → Refines l (Step event l) (apply_event event l)
unfolding apply_event
apply_event-Step (LedgerEvent.account_created id account_type flags scale timestamp) l =
    create_account-Creates id account_type flags scale timestamp l
apply_event-Step (LedgerEvent.account_closed id timestamp) l = close_account-Closes id timestamp l
apply_event-Step (LedgerEvent.transfer_posted t) l = create_transfer-Posts t l
apply_event-Step (LedgerEvent.transfer_pending_created t) l = create_pending-Reserves t l
apply_event-Step (LedgerEvent.transfer_pending_posted pending_id post_transfer_id amount timestamp)
      l =
    post_pending-Captures pending_id post_transfer_id amount timestamp l
apply_event-Step (LedgerEvent.transfer_pending_voided pending_id amount timestamp) l =
    elim (Result-cases (check_voided_amount pending_id amount l)) [
      | inr (e, failed) ↦ refused e (
          read_err (check_voided_amount pending_id amount) (λ _. void_pending pending_id timestamp)
            l failed)
      | inl (u, passed) ↦
          subst
            (Refines l (Step (LedgerEvent.transfer_pending_voided pending_id amount timestamp) l))
            (sym (
              read_ok (check_voided_amount pending_id amount)
                (λ _. void_pending pending_id timestamp) l passed))
            (Refines-map l (Releases pending_id timestamp l)
              (Step (LedgerEvent.transfer_pending_voided pending_id amount timestamp) l) _
              (λ l' r. (r, voided_amount pending_id amount l r.hold passed r.found_hold))
              (void_pending-Releases pending_id timestamp l))
    ]

-- The operation that a journal event records.
abbrev pub op_of : LedgerEvent → BatchOp
op_of (LedgerEvent.account_created id account_type flags scale timestamp) =
    BatchOp.create_account id account_type flags scale timestamp
op_of (LedgerEvent.account_closed id timestamp) = BatchOp.close_account id timestamp
op_of (LedgerEvent.transfer_posted t) = BatchOp.transfer t
op_of (LedgerEvent.transfer_pending_created t) = BatchOp.pending_transfer t
op_of (LedgerEvent.transfer_pending_posted pending_id post_transfer_id amount timestamp) =
    BatchOp.post_pending pending_id post_transfer_id amount timestamp
op_of (LedgerEvent.transfer_pending_voided pending_id amount timestamp) =
    BatchOp.void_pending pending_id timestamp

-- What a batch operation does: the step of an event that records it, and that applies again.
pub record OpStep (op : BatchOp) (l l' : Ledger) : Type 0 where
  pub event : LedgerEvent
  pub records_op : op_of event ≡ op
  pub step : Step event l l'
  pub again : apply_event event l ≡ apply_batch_op op l

-- A void event of the hold's own amount passes its check.
voided_again :
    (pending_id : TransferId) (timestamp : Timestamp) (l l' : Ledger)
    (r : Releases pending_id timestamp l l')
    → apply_event (LedgerEvent.transfer_pending_voided pending_id r.hold.amount timestamp) l
      ≡ void_pending pending_id timestamp l
unfolding apply_event check_voided_amount get_transfer
voided_again pending_id timestamp l l' r =
    rw (r.found_hold, ◌>>=◌, check_voided_amount) (rw (==-refl r.hold.amount))

-- Every batch operation is applied as the step of an event that applies again with the same
-- outcome, or is refused with an error and leaves the ledger as it was.
pub apply_batch_op-OpStep :
    (op : BatchOp) (l : Ledger) → Refines l (OpStep op l) (apply_batch_op op l)
unfolding apply_batch_op apply_event
apply_batch_op-OpStep (BatchOp.create_account id account_type flags scale timestamp) l =
    Refines-map l _ _ _
      (λ l' s. record {
        event = LedgerEvent.account_created id account_type flags scale timestamp;
        records_op = refl;
        step = s;
        again = refl;
      })
      (create_account-Creates id account_type flags scale timestamp l)
apply_batch_op-OpStep (BatchOp.transfer t) l =
    Refines-map l _ _ _
      (λ l' s. record {
        event = LedgerEvent.transfer_posted t;
        records_op = refl;
        step = s;
        again = refl;
      })
      (create_transfer-Posts t l)
apply_batch_op-OpStep (BatchOp.pending_transfer t) l =
    Refines-map l _ _ _
      (λ l' s. record {
        event = LedgerEvent.transfer_pending_created t;
        records_op = refl;
        step = s;
        again = refl;
      })
      (create_pending-Reserves t l)
apply_batch_op-OpStep (BatchOp.post_pending pending_id post_transfer_id amount timestamp) l =
    Refines-map l _ _ _
      (λ l' s. record {
        event = LedgerEvent.transfer_pending_posted pending_id post_transfer_id amount timestamp;
        records_op = refl;
        step = s;
        again = refl;
      })
      (post_pending-Captures pending_id post_transfer_id amount timestamp l)
apply_batch_op-OpStep (BatchOp.void_pending pending_id timestamp) l =
    Refines-map l _ _ _
      (λ l' s. record {
        event = LedgerEvent.transfer_pending_voided pending_id s.hold.amount timestamp;
        records_op = refl;
        step = (s, refl);
        again = voided_again pending_id timestamp l l' s;
      })
      (void_pending-Releases pending_id timestamp l)
apply_batch_op-OpStep (BatchOp.close_account id timestamp) l =
    Refines-map l _ _ _
      (λ l' s. record {
        event = LedgerEvent.account_closed id timestamp;
        records_op = refl;
        step = s;
        again = refl;
      })
      (close_account-Closes id timestamp l)

-- A step adds its event to the journal, and keeps the scale.
pub Step-journal :
    (event : LedgerEvent) (l l' : Ledger)
    → Step event l l'
    → (l'.journal ≡ l.journal ++ event ∷ []) × (l'.scale ≡ l.scale)
Step-journal (LedgerEvent.account_created id account_type flags scale timestamp) l l' s =
    (ap (λ k. k.journal) s.result, ap (λ k. k.scale) s.result)
Step-journal (LedgerEvent.account_closed id timestamp) l l' s =
    (ap (λ k. k.journal) s.result, ap (λ k. k.scale) s.result)
Step-journal (LedgerEvent.transfer_posted t) l l' s =
    (ap (λ k. k.journal) s.result, ap (λ k. k.scale) s.result)
Step-journal (LedgerEvent.transfer_pending_created t) l l' s =
    (ap (λ k. k.journal) s.result, ap (λ k. k.scale) s.result)
Step-journal (LedgerEvent.transfer_pending_posted pending_id post_transfer_id amount timestamp) l l'
      s =
    (ap (λ k. k.journal) s.result, ap (λ k. k.scale) s.result)
Step-journal (LedgerEvent.transfer_pending_voided pending_id amount timestamp) l l' (r, same) = (
  ap (λ k. k.journal) r.result
      ∙ ap (λ n. l.journal ++ LedgerEvent.transfer_pending_voided pending_id n timestamp ∷ []) same,
  ap (λ k. k.scale) r.result,
)
