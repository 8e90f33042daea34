-- ===== src/Tests/Ingest.antt =====
-- The theorem about the engine at a concrete run, with a serialization of its own.
use Prim.Native.String.{String}
use trust_ledger.Common.{
  ℕ, ◌≡◌, ◌⊎◌, inl, inr, refl, subst, Bool, true, false, List, [], ◌∷◌, ◌++◌, some, arith,
  if◌then◌else◌, ◌==◌,
}
use trust_ledger.LedgerError.{Result}
use trust_ledger.Vocabulary.{AccountType, AccountFlags, asset, liability, equity, revenue, expense}
use trust_ledger.Journal.{
  LedgerEvent, account_created, account_closed, transfer_posted, transfer_pending_created,
  transfer_pending_posted, transfer_pending_voided,
}
use trust_ledger.Ledger.Events.{replay}
use trust_ledger.Wal.Bytes.{Bytes}
use trust_ledger.Wal.File.{Disk, working}
use trust_ledger.Wal.Record.{WalResult}
use trust_ledger.Wal.Log.{default}
use trust_ledger.Wal.Committed.{records}
use trust_ledger.Wal.Stream.{read_records}
use trust_ledger.Codec.{Postcard}
use trust_ledger.Ingest.{IngestCommand, mutate, apply_batch, get_account, Clock, create_account}
use trust_ledger.Ingest.Engine.{Engine}
use trust_ledger.Ingest.Process.{Texts, run}
use trust_ledger.Ingest.Logged.{Logs}
use trust_ledger.Ingest.Durable.{new_engine, run-replay}
use trust_ledger.Tests.Log.{sums, full}

abbrev no_flags : AccountFlags
no_flags = record {
  debits_must_not_exceed_credits = false;
  credits_must_not_exceed_debits = false;
  is_closed = false;
}

abbrev bit : Bool → ℕ
bit false = 0
bit true = 1

abbrev is_set : ℕ → Bool
is_set n = n == 1

is_set-bit : (b : Bool) → is_set (bit b) ≡ b
is_set-bit true = refl
is_set-bit false = refl

abbrev type_byte : AccountType → ℕ
type_byte asset = 0
type_byte liability = 1
type_byte equity = 2
type_byte revenue = 3
type_byte expense = 4

abbrev type_of : ℕ → AccountType
type_of n =
    if n == 0
    then asset
    else if n == 1
    then liability
    else if n == 2
    then equity
    else if n == 3
    then revenue
    else expense

type_of-type_byte : (t : AccountType) → type_of (type_byte t) ≡ t
type_of-type_byte asset = refl
type_of-type_byte liability = refl
type_of-type_byte equity = refl
type_of-type_byte revenue = refl
type_of-type_byte expense = refl

-- A serialization of the batches that create one account.
abbrev event_bytes : LedgerEvent → String ⊎ Bytes
event_bytes (account_created id account_type flags scale timestamp) = inr (
    id
    ∷ type_byte account_type
    ∷ bit flags.debits_must_not_exceed_credits
    ∷ bit flags.credits_must_not_exceed_debits
    ∷ bit flags.is_closed
    ∷ scale
    ∷ timestamp
    ∷ [])
event_bytes event = inl "not supported"

abbrev to_allocvec : List LedgerEvent → String ⊎ Bytes
to_allocvec [] = inl "not supported"
to_allocvec (event ∷ []) = event_bytes event
to_allocvec (event ∷ other ∷ events) = inl "not supported"

abbrev take_from_bytes : Bytes → String ⊎ (List LedgerEvent × Bytes)
take_from_bytes (id ∷ t ∷ a ∷ b ∷ c ∷ scale ∷ timestamp ∷ rest) =
    let flags : AccountFlags = record {
      debits_must_not_exceed_credits = is_set a;
      credits_must_not_exceed_debits = is_set b;
      is_closed = is_set c;
    } in
    inr (account_created id (type_of t) flags scale timestamp ∷ [], rest)
take_from_bytes bytes = inl "too short"

unwrap :
    {bytes : Bytes} (wrapped : Bytes)
    → ◌≡◌ {A = String ⊎ Bytes} (inr wrapped) (inr bytes)
    → wrapped ≡ bytes
unwrap wrapped h = cc

event_reads_back :
    (event : LedgerEvent) (bytes rest : Bytes)
    → event_bytes event ≡ inr bytes
    → take_from_bytes (bytes ++ rest) ≡ inr (event ∷ [], rest)
event_reads_back (account_created id account_type flags scale timestamp) bytes rest h =
    subst
      (λ bs.
        take_from_bytes (bs ++ rest)
        ≡ inr (account_created id account_type flags scale timestamp ∷ [], rest))
      (unwrap _ h)
      (rw
        (
          type_of-type_byte account_type,
          is_set-bit flags.debits_must_not_exceed_credits,
          is_set-bit flags.credits_must_not_exceed_debits,
          is_set-bit flags.is_closed,
        )
        refl)
event_reads_back (account_closed id timestamp) bytes rest h = cc
event_reads_back (transfer_posted t) bytes rest h = cc
event_reads_back (transfer_pending_created t) bytes rest h = cc
event_reads_back (transfer_pending_posted pending_id id amount timestamp) bytes rest h = cc
event_reads_back (transfer_pending_voided id amount timestamp) bytes rest h = cc

reads_back :
    (events : List LedgerEvent) (bytes rest : Bytes)
    → to_allocvec events ≡ inr bytes
    → take_from_bytes (bytes ++ rest) ≡ inr (events, rest)
reads_back [] bytes rest h = cc
reads_back (event ∷ []) bytes rest h = event_reads_back event bytes rest h
reads_back (event ∷ other ∷ events) bytes rest h = cc

abbrev flat : Postcard
flat = record {
  to_allocvec = to_allocvec;
  take_from_bytes = take_from_bytes;
  reads_back = reads_back;
}

abbrev silent : Texts
silent = record { wal_text = λ e. ""; codec_text = λ e. ""; leftover_text = λ bytes. "" }

abbrev clock : Clock
clock n = 5

-- Two accounts, of which the second is there already, and a question; then an append that fails.
abbrev batches : List (Clock × Disk × List (IngestCommand ℕ))
batches =
    (
      clock,
      working,
      mutate (create_account 1 asset no_flags 2 0) 10
          ∷ mutate (create_account 1 asset no_flags 2 0) 11
          ∷ IngestCommand.get_account 1 12
          ∷ [],
    )
    ∷ (clock, full, mutate (create_account 2 asset no_flags 2 0) 13 ∷ [])
    ∷ []

abbrev arrived : Engine
arrived = (run sums flat silent batches (new_engine sums default 2)).engine

arrived_end : arrived.wal.committed_end ≡ 29
unfolding run trust_ledger.Ingest.Process.process_batch trust_ledger.Ingest.Engine.gather
    trust_ledger.Ingest.Engine.into_batch_ops trust_ledger.Ingest.into_batch_op
    trust_ledger.Ingest.Process.transact trust_ledger.Ingest.Engine.sort_results
    trust_ledger.Ingest.Process.persist trust_ledger.Ingest.Process.encode_batches
    trust_ledger.Ledger.Batch.prepare_transactions trust_ledger.Ledger.Batch.prepare_loop
    trust_ledger.Ledger.Batch.run_with_undo trust_ledger.Ledger.Batch.commit_events
    trust_ledger.Ledger.Batch.apply_with_undo trust_ledger.Ledger.Events.apply_event
    trust_ledger.Ledger.Events.apply_batch_op trust_ledger.Ledger.Rollback.pre_images
    trust_ledger.Ledger.Rollback.op_pre_images trust_ledger.Ledger.Rollback.rollback
    trust_ledger.Ledger.Rollback.revert_all trust_ledger.Ledger.Rollback.revert
    trust_ledger.Ledger.Operations.create_account trust_ledger.Ledger.Checks.check_create_account
    trust_ledger.Ledger.Checks.check_timestamp trust_ledger.SortedMap.get
    trust_ledger.SortedMap.insert trust_ledger.SortedMap.remove trust_ledger.Wal.Append.append_batch
    trust_ledger.Wal.Append.validate trust_ledger.Wal.Append.encode_all
    trust_ledger.Wal.Record.encode_append trust_ledger.Wal.Record.encode_frame_append
    trust_ledger.Wal.Record.header trust_ledger.Wal.Bytes.to_le_bytes
    trust_ledger.Wal.Committed.frames trust_ledger.Wal.Committed.frames_len
    trust_ledger.Ledger.Checks.get_account mathlib.Core.List.flatten
arrived_end = refl

run-replay_example :
    (payloads : List Bytes) × (events : List LedgerEvent) × (read_records sums arrived.wal
      ≡ some (WalResult.ok (records 0 payloads), arrived.wal))
    × Logs flat silent payloads events
    × (replay 2 events ≡ Result.ok arrived.ledger)
run-replay_example =
    run-replay sums flat silent 2 batches default ((refl, refl), ((refl, refl), tt)) (omega arith)
      (omega (arith, arrived_end))
