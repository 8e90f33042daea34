-- ===== src/Ingest/Process.antt =====
-- `process_batch` and `run` of crates/ingest/src/engine.rs.
use Prim.Native.String.{String}
use trust_ledger.Common.{ℕ, List, [], ◌∷◌, ◌++◌}
use mathlib.Core.List
use trust_ledger.Journal.{LedgerEvent, BatchOp}
use trust_ledger.Ledger.State.{Ledger, Outcome, done, fail}
use trust_ledger.Ledger.Batch.{prepare_transactions, commit_events}
use trust_ledger.Wal.Bytes.{Bytes, Checksum}
use trust_ledger.Wal.File.{Disk}
use trust_ledger.Wal.Record.{WalError, WalResult}
use trust_ledger.Wal.Log.{Wal}
use trust_ledger.Wal.Append.{append_batch}
use trust_ledger.Codec.{CodecError, CodecResult, Postcard, encode_events}
use trust_ledger.Ingest.{ledger, wal, codec, IngestResult, ok, err, Clock, IngestCommand}
use trust_ledger.Ingest.Engine.{
  Responder, QueryCommand, Answer, Engine, respond_err, respond_ok, answer_query, gather, Sorted,
  sort_results, Processed, responders, all_events,
}

-- The text of the errors of the log and of the codec, and what the codec needs.
pub record Texts : Type 0 where
  pub wal_text : WalError → String
  pub codec_text : CodecError → String
  pub leftover_text : Bytes → String

module _ (postcard : Postcard) (texts : Texts) where
  -- The loop that encodes the batches of events; the first error ends it.
  unfoldable pub encode_batches : List (List LedgerEvent) → CodecResult (List Bytes)
  encode_batches [] = CodecResult.ok []
  encode_batches (events ∷ rest) = elim (encode_events postcard texts.leftover_text events) [
    | CodecResult.err e ↦ CodecResult.err e
    | CodecResult.ok payload ↦ elim (encode_batches rest) [
      | CodecResult.err e ↦ CodecResult.err e
      | CodecResult.ok payloads ↦ CodecResult.ok (payload ∷ payloads)
    ]
  ]

module _ {Channel : Type 0} (checksum : Checksum) (postcard : Postcard) (texts : Texts) where
  -- The part behind the append: the events are committed and the clients are told.
  abbrev pub committed : Sorted Channel → Wal → Outcome (Unit {0}) → Processed Channel
  committed s wal' (fail e l) = record {
    result = err (ledger e);
    engine = record { ledger = l; wal = wal' };
    answers = List.map (respond_err (ledger e)) (responders s);
  }
  committed s wal' (done u l) = record {
    result = ok tt;
    engine = record { ledger = l; wal = wal' };
    answers = List.map (respond_ok l) (responders s);
  }

  -- The append and what is behind it; a failed append ends the engine.
  abbrev pub appended : Sorted Channel → Ledger → WalResult (ℕ × ℕ) × Wal → Processed Channel
  appended s l (WalResult.err e, wal') = record {
    result = err (wal (texts.wal_text e));
    engine = record { ledger = l; wal = wal' };
    answers = List.map (respond_err (wal (texts.wal_text e))) (responders s);
  }
  appended s l (WalResult.ok range, wal') = committed s wal' (commit_events (all_events s) l)

  -- What is done with the transactions that succeeded, if there are any.
  unfoldable pub persist : Disk → Sorted Channel → Ledger → Wal → Processed Channel
  persist disk s l w = elim s.successes [
    | [] ↦ record { result = ok tt; engine = record { ledger = l; wal = w }; answers = [] }
    | success ∷ successes ↦ elim (encode_batches postcard texts (List.map (λ r. r.1) s.successes)) [
      | CodecResult.err e ↦ record {
        result = err (codec (texts.codec_text e));
        engine = record { ledger = l; wal = w };
        answers = [];
      }
      | CodecResult.ok payloads ↦ appended s l (append_batch checksum disk payloads w)
    ]
  ]

  -- The part between the refusals of the loop over the commands and the queries.
  unfoldable pub transact :
      Disk → List (List BatchOp × Responder Channel) → Engine → Processed Channel
  transact disk [] engine = record { result = ok tt; engine = engine; answers = [] }
  transact disk (tx ∷ txs) engine =
      let prepared = prepare_transactions (List.map (λ t. t.0) (tx ∷ txs)) engine.ledger in
      let s = sort_results (tx ∷ txs) prepared.0 in
      let p = persist disk s prepared.1 engine.wal in
      record { result = p.result; engine = p.engine; answers = s.refusals ++ p.answers }

  -- Queries are answered behind everything else, unless an error ended the batch.
  abbrev pub behind :
      List (Channel × Answer)
      → List (QueryCommand Channel)
      → Engine
      → List (Channel × Answer)
      → IngestResult (Unit {0})
      → Processed Channel
  behind early queries engine answers (err e) = record {
    result = err e;
    engine = engine;
    answers = early ++ answers;
  }
  behind early queries engine answers (ok u) = record {
    result = ok u;
    engine = engine;
    answers = early ++ (answers ++ List.map (answer_query engine.ledger) queries);
  }

  abbrev pub with_queries :
      List (Channel × Answer) → List (QueryCommand Channel) → Processed Channel → Processed Channel
  with_queries early queries p = behind early queries p.engine p.answers p.result

  -- `process_batch`; an empty batch comes to nothing in each of its parts.
  unfoldable pub process_batch :
      Clock → Disk → List (IngestCommand Channel) → Engine → Processed Channel
  process_batch now disk commands engine =
      let g =
        gather now commands (record { watermark = engine.ledger.last_timestamp; readings = 0 }) in
      let early = List.map (λ failed. respond_err failed.1 failed.0) g.early_errors in
      with_queries early g.queries (transact disk g.transactions engine)

  -- `run` over the batches that time makes of the queue, each with the clock and the device it meets;
  -- the first error ends it.
  unfoldable pub run :
      List (Clock × Disk × List (IngestCommand Channel)) → Engine → Processed Channel
  run [] engine = record { result = ok tt; engine = engine; answers = [] }
  run ((now, disk, commands) ∷ batches) engine =
      let p = process_batch now disk commands engine in
      let rest = run batches p.engine in
      elim p.result [
        | err e ↦ p
        | ok u ↦ record {
          result = rest.result;
          engine = rest.engine;
          answers = p.answers ++ rest.answers;
        }
      ]
