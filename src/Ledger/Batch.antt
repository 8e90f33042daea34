-- ===== src/Ledger/Batch.antt =====
-- Atomic application and speculative preparation of ledger.rs. The loops of `apply_with_undo`,
-- of `prepare_batch` and inside `prepare_transactions` are one loop over the events or the
-- operations, with the pre-images and the step as parameters.
pub mod Atomic
pub mod Commit
pub mod Transactions
use trust_ledger.Common.{ℕ, List, [], ◌∷◌, ◌++◌, length, drop}
use mathlib.Core.List
use trust_ledger.Vocabulary.{Timestamp}
use trust_ledger.LedgerError.{Result, ok, err}
use trust_ledger.Transfer.{Transfer}
use trust_ledger.Journal.{LedgerEvent, BatchOp}
use trust_ledger.Ledger.State.{Ledger, Outcome, done, fail, Method}
use trust_ledger.Ledger.Events.{apply_event, apply_batch_op}
use trust_ledger.Ledger.Rollback.{UndoOp, rollback, pre_images, op_pre_images}

module _ {X : Type 0} (before : X → Ledger → Result (List UndoOp))
    (step : X → Method (Unit {0})) where
  -- The first failure rolls back what was applied so far.
  unfoldable pub run_with_undo : List X → List UndoOp → ℕ → Timestamp → Method (List UndoOp)
  run_with_undo [] undo base_journal_len base_timestamp l = done undo l
  run_with_undo (x ∷ xs) undo base_journal_len base_timestamp l = elim (before x l) [
    | err e ↦ fail e (rollback undo base_journal_len base_timestamp l)
    | ok pre ↦ elim (step x l) [
      | fail e l' ↦ fail e (rollback undo base_journal_len base_timestamp l')
      | done u l' ↦ run_with_undo xs (undo ++ pre) base_journal_len base_timestamp l'
    ]
  ]

unfoldable pub apply_with_undo : List LedgerEvent → ℕ → Timestamp → Method (List UndoOp)
apply_with_undo events base_journal_len base_timestamp =
    run_with_undo pre_images apply_event events [] base_journal_len base_timestamp

unfoldable pub commit_events : List LedgerEvent → Method (Unit {0})
unfolding apply_with_undo
commit_events events l = elim (apply_with_undo events (length l.journal) l.last_timestamp l) [
  | done undo l' ↦ done tt l'
  | fail e l' ↦ fail e l'
]

unfoldable pub apply_batch : List Transfer → Method (Unit {0})
unfolding commit_events
apply_batch transfers = commit_events (List.map (λ t. LedgerEvent.transfer_posted t) transfers)

unfoldable pub prepare_batch : List BatchOp → Method (List LedgerEvent)
prepare_batch ops l =
    elim (run_with_undo op_pre_images apply_batch_op ops [] (length l.journal) l.last_timestamp l) [
      | done undo l' ↦
          done (drop (length l.journal) l'.journal)
            (rollback undo (length l.journal) l.last_timestamp l')
      | fail e l' ↦ fail e l'
    ]

unfoldable pub prepare_transfers : List Transfer → Method (List LedgerEvent)
unfolding prepare_batch
prepare_transfers transfers = prepare_batch (List.map (λ t. BatchOp.transfer t) transfers)

-- What the loop of `prepare_transactions` has collected.
pub record Prepared : Type 0 where
  pub results : List (Result (List LedgerEvent))
  pub undo : List UndoOp
  pub ledger : Ledger

abbrev pub with_result : Result (List LedgerEvent) → Prepared → Prepared
with_result r p = record p { results = r ∷ p.results }

-- The loop over the transactions; each one succeeds, or is rolled back to where it began.
unfoldable pub prepare_loop : List (List BatchOp) → List UndoOp → Ledger → Prepared
prepare_loop [] all_undo l = record { results = []; undo = all_undo; ledger = l }
prepare_loop (tx ∷ txs) all_undo l =
    elim (run_with_undo op_pre_images apply_batch_op tx [] (length l.journal) l.last_timestamp l) [
      | fail e l' ↦ with_result (err e) (prepare_loop txs all_undo l')
      | done undo l' ↦
          with_result (ok (drop (length l.journal) l'.journal))
            (prepare_loop txs (all_undo ++ undo) l')
    ]

unfoldable pub prepare_transactions :
    List (List BatchOp) → Ledger → List (Result (List LedgerEvent)) × Ledger
unfolding prepare_loop
prepare_transactions txs l =
    let p = prepare_loop txs [] l in
    (p.results, rollback p.undo (length l.journal) l.last_timestamp p.ledger)

unfoldable pub prepare_batch_results :
    List BatchOp → Ledger → List (Result (List LedgerEvent)) × Ledger
unfolding prepare_transactions
prepare_batch_results ops = prepare_transactions (List.map (λ op. op ∷ []) ops)
