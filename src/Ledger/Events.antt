-- ===== src/Ledger/Events.antt =====
-- `apply_event`, `apply_batch_op` and `replay` of ledger.rs.
use trust_ledger.Common.{List, [], ◌∷◌, not, ◌==◌}
use trust_ledger.Vocabulary.{TransferId, Amount, Scale}
use trust_ledger.LedgerError as Errors
use trust_ledger.LedgerError.{Result, ok, err, fail_if, journal_voided_amount_mismatch}
use trust_ledger.Journal.{LedgerEvent, BatchOp}
use trust_ledger.Ledger.State.{Ledger, Outcome, done, fail, Method, ◌>>◌, read, new_ledger}
use trust_ledger.Ledger.Checks.{get_transfer}
use trust_ledger.Ledger.Operations.{
  create_account, close_account, create_transfer, create_pending, post_pending, void_pending,
}

-- The amount that a void event claims is compared with the hold.
unfoldable pub check_voided_amount : TransferId → Amount → Ledger → Result (Unit {0})
check_voided_amount pending_id amount l = Errors.◌>>=◌ (get_transfer pending_id l) λ hold.
    fail_if (not (hold.amount == amount))
      (journal_voided_amount_mismatch pending_id hold.amount amount)

unfoldable pub apply_event : LedgerEvent → Method (Unit {0})
apply_event (LedgerEvent.account_created id account_type flags scale timestamp) =
    create_account id account_type flags scale timestamp
apply_event (LedgerEvent.account_closed id timestamp) = close_account id timestamp
apply_event (LedgerEvent.transfer_posted transfer) = create_transfer transfer
apply_event (LedgerEvent.transfer_pending_created transfer) = create_pending transfer
apply_event (LedgerEvent.transfer_pending_posted pending_id post_transfer_id amount timestamp) =
    post_pending pending_id post_transfer_id amount timestamp
apply_event (LedgerEvent.transfer_pending_voided pending_id amount timestamp) = do
  read (check_voided_amount pending_id amount)
  void_pending pending_id timestamp

unfoldable pub apply_batch_op : BatchOp → Method (Unit {0})
apply_batch_op (BatchOp.create_account id account_type flags scale timestamp) =
    create_account id account_type flags scale timestamp
apply_batch_op (BatchOp.transfer t) = create_transfer t
apply_batch_op (BatchOp.pending_transfer t) = create_pending t
apply_batch_op (BatchOp.post_pending pending_id post_transfer_id amount timestamp) =
    post_pending pending_id post_transfer_id amount timestamp
apply_batch_op (BatchOp.void_pending pending_id timestamp) = void_pending pending_id timestamp
apply_batch_op (BatchOp.close_account id timestamp) = close_account id timestamp

-- The loop of `replay`: the first error ends it.
unfoldable pub apply_events : List LedgerEvent → Method (Unit {0})
apply_events [] l = done tt l
apply_events (event ∷ events) l = elim (apply_event event l) [
  | done u l' ↦ apply_events events l'
  | fail e l' ↦ fail e l'
]

-- A failed replay returns the error alone.
abbrev pub finished : Outcome (Unit {0}) → Result Ledger
finished (done u l) = ok l
finished (fail e l) = err e

unfoldable pub replay : Scale → List LedgerEvent → Result Ledger
unfolding apply_events
replay scale events = finished (apply_events events (new_ledger scale))
