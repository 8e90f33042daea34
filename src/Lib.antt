-- ===== src/Lib.antt =====
-- TrustLedger, a double-entry ledger: its core (crates/ledger-core/src), its write-ahead log
-- (crates/wal/src), the engine in front of both (crates/ingest/src), the replicated state machine
-- on the ledger (crates/raft/src), the payments of its demo application (apps/demo/src), and the
-- settlement of its batches on a chain (crates/solana-settle/src, crates/merkle/src).
--
-- The program keeps accounts, transfers and an append-only journal of events in one in-memory
-- `Ledger`. Six mutations (create_account, close_account, create_transfer, create_pending,
-- post_pending, void_pending) validate, write, advance the clock and append one event. Above
-- them, `commit_events` and `apply_batch` apply a batch or roll it back, `prepare_batch`,
-- `prepare_transfers`, `prepare_batch_results` and `prepare_transactions` try operations out and
-- roll them back in order to learn their events, `replay` rebuilds a ledger from a journal, and
-- `verify_invariants` checks a ledger. The state machine applies each committed request by
-- `prepare_batch` and `commit_events`, and its snapshots carry the journal, which `replay` reads
-- back. The demo application opens its accounts by `create_account` and `create_transfer`. The
-- write-ahead log (crates/wal/src) frames batches with checksums, appends them to a file, and on
-- opening keeps the records in front of the first broken frame. The ingest engine
-- (crates/ingest/src) prepares a batch of transactions on the ledger, appends the events of those
-- that succeed to the log, commits them to the ledger and answers the clients. The
-- settlement program (crates/solana-settle/src) keeps the root of the latest settled batch on a
-- chain and verifies inclusion proofs (crates/merkle/src) against it.
--
-- Which file models which part:
--   Common, SortedMap, Int: names and lemmas that the rest shares; `BTreeMap` as the list of
--     its entries in key order, with get, contains_key, insert, update (get_mut) and remove.
--   Vocabulary, LedgerError, Journal: id.rs, error.rs, journal.rs, and the enums and flags of
--     account.rs and transfer.rs.
--   Amount, Account, Transfer: amount.rs, account.rs and transfer.rs.
--   Ledger.State: the struct `Ledger`, and methods with `&mut self` as functions from a ledger
--     to an outcome that carries the ledger they leave behind, whether they fail or not.
--   Ledger.Checks, Ledger.Operations: the six mutations, the reads and validations first, then
--     the writes in the order of the source, each with its own lookup and error.
--   Ledger.Events: apply_event, apply_batch_op and replay.
--   Ledger.Rollback, Ledger.Batch: the undo log, rollback and the batch methods.
--   Ledger.Verify: verify_invariants and verify_structure.
--   Ledger.Step: the specification, which does not mention the code: for each journal event the
--     conditions under which it may happen and the ledger that results. Its child modules relate
--     the methods to it in both directions.
--   Ledger.Invariant: the invariants that steps keep, and the ledgers that any sequence of public
--     calls leads to, failing calls included.
--   Raft: requests, the state machine and its snapshots of crates/raft/src/types.rs and
--     state_machine.rs. What openraft and the serializer define are parameters.
--   Payment: the payments of apps/demo/src/payment.rs and the set-up of their accounts.
--   Wal.Bytes, Wal.Record: the frames of crates/wal/src/record.rs, and the checksum as a parameter.
--   Wal.File, Wal.Log, Wal.Append, Wal.Stream: crates/wal/src/wal.rs. The system calls of one
--     operation turn out as a record `Disk` says, partial writes included.
--   Wal.Snapshot: crates/wal/src/snapshot.rs.
--   Wal.Committed and the other modules of Wal: what a log file holds, and the proofs.
--   Codec: crates/ledger-core/src/codec.rs, with the serialization as a parameter.
--   Ingest, Ingest.Engine, Ingest.Process: the commands and the engine of crates/ingest/src/queue.rs
--     and engine.rs, on the ledger and the log. Ingest.Logged and Ingest.Durable are the proofs.
--   Merkle and the modules below it: inclusion proofs of crates/merkle/src/proof.rs, on the hashes of hash.rs.
--   Settle, Settle.History: the settlement program of crates/solana-settle/src.
--   Idempotency, Idempotency.Once: apps/demo/src/idempotency.rs.
--   Webhook, Webhook.Signature, Webhook.Dedup: apps/demo/src/webhook.rs, with the crate hmac as a
--     parameter.
--   Reconciliation, Reconciliation.Totals, Reconciliation.Audit: apps/demo/src/reconciliation.rs.
--   Raft.Storage, Raft.Storage.Kept: the log in memory of crates/raft/src/storage.rs.
--   Tests: a small bank, runs of the methods on it, and the theorems at its ledgers.
--
-- How the model is to be read:
--   - The newtypes over u128, u64 and u8 are natural numbers. All arithmetic of the source on
--     amounts is checked, so an overflow is written as the test whether the result is below
--     2 ^ 128, and a subtraction below zero is an error.
--   - It is the release build: `check_after_mutation`, which runs `verify_invariants` after each
--     mutation of a debug build, is not called.
--   - A failing call keeps what was written before the failure; that nothing was is a theorem.
--   - The loops of apply_with_undo, prepare_batch and prepare_transactions over one batch are
--     the same code over events or operations, and are one function with the two differences
--     (pre-images and step) as parameters.
--   - Recursion is over lists, except in the search for a mountain, which has a round for each bit
--     of a word, and in three loops of the log, which have fuel: reading a payload has a round
--     for each of its bytes, opening has one for each byte of the file and one for the end, and
--     reading back has one for each record and one for the end. Each round of the first two
--     takes at least one byte, and each of the third one record.
--   - The identifier of a customer's or merchant's account is a sum that is not checked in the source;
--     where it overflows, the process aborts, which is a result of its own.
--   - Taking transfers apart and cloning them is not modelled, since values are immutable here.
--
-- Not modelled: text formats and parsing (id.rs, Amount::format_with_scale, Display), metrics, the
-- gRPC server of crates/ingest, the mountain range of crates/merkle, the client and the
-- instruction builders of crates/solana-settle, the crate observability, the consensus of raft,
-- the rest of apps/demo, and the simulator.
pub mod Common
pub mod SortedMap
pub mod Int
pub mod Vocabulary
pub mod LedgerError
pub mod Amount
pub mod Account
pub mod Transfer
pub mod Journal
pub mod Ledger
pub mod Raft
pub mod Payment
pub mod Wal
pub mod Codec
pub mod Merkle
pub mod Settle
pub mod Idempotency
pub mod Webhook
pub mod Reconciliation
pub mod Ingest
mod Tests
