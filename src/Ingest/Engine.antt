-- ===== src/Ingest/Engine.antt =====
-- The single-writer engine: crates/ingest/src/engine.rs. Which commands make up a batch is decided by
-- time, so a run is given by its batches. The answers are collected with their channels, in the
-- order in which they are sent; metrics are left out.
use trust_ledger.Common.{ℕ, ◌%◌, List, [], ◌∷◌, length}
use mathlib.Core.List
use trust_ledger.LedgerError.{Result}
use trust_ledger.Vocabulary.{AccountId, TransferId}
use trust_ledger.Account.{Account}
use trust_ledger.Transfer.{Transfer}
use trust_ledger.Journal.{LedgerEvent, BatchOp}
use trust_ledger.Ledger.State.{Ledger}
use trust_ledger.Ledger.Checks
use trust_ledger.Wal.Bytes.{u32_mod}
use trust_ledger.Wal.Log.{Wal}
use trust_ledger.Ingest.{
  IngestError, ledger, IngestResult, ok, err, from_ledger, map_result, TargetEntity, account,
  transfer, IngestOp, target, Marks, Clock, into_batch_op, MutationResult, IngestCommand, mutate,
  apply_batch,
}

pub data Responder (Channel : Type 0) : Type 0 where
  single : TargetEntity → Channel → Responder Channel
  batch : ℕ → Channel → Responder Channel

pub data QueryCommand (Channel : Type 0) : Type 0 where
  get_account : AccountId → Channel → QueryCommand Channel
  get_transfer : TransferId → Channel → QueryCommand Channel

-- What is sent on a channel.
pub data Answer : Type 0 where
  mutation : IngestResult MutationResult → Answer
  count : IngestResult ℕ → Answer
  account_found : IngestResult Account → Answer
  transfer_found : IngestResult Transfer → Answer

pub record Engine : Type 0 where
  pub ledger : Ledger
  pub wal : Wal

-- What the loop over the commands collects.
pub record Gathered (Channel : Type 0) : Type 0 where
  pub transactions : List (List BatchOp × Responder Channel)
  pub early_errors : List (Responder Channel × IngestError)
  pub queries : List (QueryCommand Channel)

-- The operations of a batch, up to the first that is refused.
unfoldable pub into_batch_ops : Clock → List IngestOp → Marks → IngestResult (List BatchOp) × Marks
into_batch_ops now [] marks = (ok [], marks)
into_batch_ops now (op ∷ ops) marks =
    let converted = into_batch_op now op marks in
    elim converted.0 [
      | err e ↦ (err e, converted.1)
      | ok batch_op ↦
          let rest = into_batch_ops now ops converted.1 in
          (map_result (λ batch_ops. batch_op ∷ batch_ops) rest.0, rest.1)
    ]

-- The loop over the results of `prepare_transactions`: what goes on, and the refusals.
pub record Sorted (Channel : Type 0) : Type 0 where
  pub successes : List (Responder Channel × List LedgerEvent)
  pub refusals : List (Channel × Answer)

-- What a batch comes to.
pub record Processed (Channel : Type 0) : Type 0 where
  pub result : IngestResult (Unit {0})
  pub engine : Engine
  pub answers : List (Channel × Answer)

module _ {Channel : Type 0} where
  abbrev pub respond_err : IngestError → Responder Channel → Channel × Answer
  respond_err e (single of respond_to) = (respond_to, mutation (err e))
  respond_err e (batch n respond_to) = (respond_to, count (err e))

  abbrev pub respond_ok : Ledger → Responder Channel → Channel × Answer
  respond_ok l (single (account id) respond_to) = (
    respond_to,
    mutation (map_result MutationResult.account (from_ledger (Checks.get_account id l))),
  )
  respond_ok l (single (transfer id) respond_to) = (
    respond_to,
    mutation (map_result MutationResult.transfer (from_ledger (Checks.get_transfer id l))),
  )
  respond_ok l (batch n respond_to) = (respond_to, count (ok n))

  abbrev pub answer_query : Ledger → QueryCommand Channel → Channel × Answer
  answer_query l (get_account id respond_to) =
      (respond_to, account_found (from_ledger (Checks.get_account id l)))
  answer_query l (get_transfer id respond_to) =
      (respond_to, transfer_found (from_ledger (Checks.get_transfer id l)))

  abbrev pub gathered_none : Gathered Channel
  gathered_none = record { transactions = []; early_errors = []; queries = [] }

  -- A command whose operations were converted, or not.
  abbrev pub with_transaction :
      Responder Channel → IngestResult (List BatchOp) → Gathered Channel → Gathered Channel
  with_transaction responder (ok ops) g = record {
    transactions = (ops, responder) ∷ g.transactions;
    early_errors = g.early_errors;
    queries = g.queries;
  }
  with_transaction responder (err e) g = record {
    transactions = g.transactions;
    early_errors = (responder, e) ∷ g.early_errors;
    queries = g.queries;
  }

  abbrev pub with_query : QueryCommand Channel → Gathered Channel → Gathered Channel
  with_query query g = record {
    transactions = g.transactions;
    early_errors = g.early_errors;
    queries = query ∷ g.queries;
  }

  -- The loop over the commands.
  unfoldable pub gather : Clock → List (IngestCommand Channel) → Marks → Gathered Channel
  unfolding into_batch_ops
  gather now [] marks = gathered_none
  gather now (mutate op respond_to ∷ commands) marks =
      let converted = into_batch_op now op marks in
      with_transaction (single (target op) respond_to)
        (map_result (λ batch_op. batch_op ∷ []) converted.0) (gather now commands converted.1)
  gather now (apply_batch ops respond_to ∷ commands) marks =
      let converted = into_batch_ops now ops marks in
      with_transaction (batch (length ops % u32_mod) respond_to) converted.0
        (gather now commands converted.1)
  gather now (IngestCommand.get_account id respond_to ∷ commands) marks =
      with_query (get_account id respond_to) (gather now commands marks)
  gather now (IngestCommand.get_transfer id respond_to ∷ commands) marks =
      with_query (get_transfer id respond_to) (gather now commands marks)

  unfoldable pub sort_results :
      List (List BatchOp × Responder Channel) → List (Result (List LedgerEvent)) → Sorted Channel
  sort_results [] results = record { successes = []; refusals = [] }
  sort_results (tx ∷ txs) [] = record { successes = []; refusals = [] }
  sort_results (tx ∷ txs) (Result.ok events ∷ results) =
      let rest = sort_results txs results in
      record { successes = (tx.1, events) ∷ rest.successes; refusals = rest.refusals }
  sort_results (tx ∷ txs) (Result.err e ∷ results) =
      let rest = sort_results txs results in
      record { successes = rest.successes; refusals = respond_err (ledger e) tx.1 ∷ rest.refusals }

  abbrev pub responders : Sorted Channel → List (Responder Channel)
  responders s = List.map (λ success. success.0) s.successes

  abbrev pub all_events : Sorted Channel → List LedgerEvent
  all_events s = List.flatten (List.map (λ success. success.1) s.successes)
