-- ===== src/Ingest/Durable.antt =====
-- The log and the ledger stay in step (crates/ingest/src/engine.rs with crates/wal/src/wal.rs and
-- crates/ledger-core/src/ledger.rs): what is logged is what is committed.
use mathlib.Core.List
use trust_ledger.Common.{
  ℕ, ◌<◌, ◌≡◌, ◌⊎◌, refl, sym, ap, ◌∙◌, true, List, [], ◌∷◌, ◌++◌, inl, inr, subst, some, arith,
}
use trust_ledger.Vocabulary.{Scale}
use trust_ledger.LedgerError.{Result}
use trust_ledger.Journal.{LedgerEvent, BatchOp}
use trust_ledger.Ledger.State.{Ledger, done, after, new_ledger}
use trust_ledger.Ledger.Events.{replay}
use trust_ledger.Ledger.Batch.{commit_events, prepare_transactions}
use trust_ledger.Ledger.Batch.Transactions.{successes, prepare_transactions-Isolated}
use trust_ledger.Ledger.Invariant.Reachable.{Reachable, start, call, Reachable-replay}
use trust_ledger.Ledger.Invariant.Reachable.{commit}
use trust_ledger.Wal.Bytes.{Bytes, Checksum, u32_mod, u64_mod}
use trust_ledger.Wal.File.{Disk}
use trust_ledger.Wal.Record.{WalResult}
use trust_ledger.Wal.Committed.{IsCommitted, opened, records, fits_nil}
use trust_ledger.Wal.Log.{Wal, WalOptions}
use trust_ledger.Wal.Appended.{Outcome, append_batch-Outcome}
use trust_ledger.Wal.Replay.{read_records-committed}
use trust_ledger.Wal.Stream.{read_records}
use trust_ledger.Codec.{Postcard}
use trust_ledger.Ingest.{IngestCommand, IngestError, Clock, IngestResult}
use trust_ledger.Ingest.Engine.{
  QueryCommand, respond_err, Answer, Responder, Engine, Sorted, sort_results, all_events, gather,
}
use trust_ledger.Ingest.Process.{Texts, persist, appended, transact, behind, process_batch, run}
use trust_ledger.Ingest.Logged.{
  append_batch-options, all_events-successes, Logs, logs_nil, Logs-append, encode_batches-cases,
}

-- An engine on a new ledger and an empty log.
abbrev pub new_engine : Checksum → WalOptions → Scale → Engine
new_engine checksum options scale = record {
  ledger = new_ledger scale;
  wal = opened checksum options [];
}

-- Events that commit to a ledger, and to what.
record Commits (l : Ledger) (events : List LedgerEvent) : Type 0 where
  committed_ledger : Ledger
  commits : commit_events events l ≡ done tt committed_ledger
  recorded : committed_ledger.journal ≡ l.journal ++ events

module _ (checksum : Checksum) (postcard : Postcard) (texts : Texts) (scale : Scale) where
  -- The log decodes to the journal of the ledger, which public calls lead to.
  pub record InStep (engine : Engine) : Type 0 where
    pub payloads : List Bytes
    pub is_committed : IsCommitted checksum payloads engine.wal
    pub logged : Logs postcard texts payloads engine.ledger.journal
    pub reachable : Reachable scale engine.ledger
    pub small : engine.wal.options.max_record_payload_len < u32_mod

  new_engine-InStep :
      (options : WalOptions)
      → options.max_record_payload_len < u32_mod
      → InStep (new_engine checksum options scale)
  new_engine-InStep options small = record {
    payloads = [];
    is_committed = record {
      content = refl;
      cursor = refl;
      committed_end = refl;
      next_seq = refl;
      fits = fits_nil;
    };
    logged = logs_nil;
    reachable = start;
    small = small;
  }

-- The calls that take back a failed write succeed in each batch.
abbrev pub Recovers :
    {Channel : Type 0} → List (Clock × Disk × List (IngestCommand Channel)) → Type 0
Recovers [] = Unit {0}
Recovers ((now, disk, commands) ∷ batches) =
    ((disk.set_len_ok ≡ true) × (disk.seek_ok ≡ true)) × Recovers batches

IngestResult-cases :
    {A : Type 0} (r : IngestResult A)
    → ((e : IngestError) × (r ≡ IngestResult.err e)) ⊎ ((a : A) × (r ≡ IngestResult.ok a))
IngestResult-cases (IngestResult.err e) = inl (e, refl)
IngestResult-cases (IngestResult.ok a) = inr (a, refl)

module _ {Channel : Type 0} (checksum : Checksum) (postcard : Postcard) (texts : Texts)
    (scale : Scale) where
  -- Whatever comes of an append, the log and the ledger are in step behind it.
  appended-InStep :
      (s : Sorted Channel) (l : Ledger) (w : Wal) (ps qs : List Bytes) (r : WalResult (ℕ × ℕ) × Wal)
      → Outcome checksum ps qs w r
      → r.1.options ≡ w.options
      → Commits l (all_events s)
      → Logs postcard texts ps l.journal
      → Logs postcard texts qs (all_events s)
      → Reachable scale l
      → w.options.max_record_payload_len < u32_mod
      → InStep checksum postcard texts scale (appended checksum postcard texts s l r).engine
  appended-InStep s l w ps qs (result, w') (inl (e, c)) o commits logs more reached h =
      let kept = commits.committed_ledger in
      rw (e, commits.commits)
        (record {
          payloads = ps ++ qs;
          is_committed = c;
          logged =
              subst (Logs postcard texts (ps ++ qs)) (sym commits.recorded)
                (Logs-append postcard texts logs more);
          reachable =
              subst (λ o. Reachable scale (after o)) commits.commits
                (call reached (commit (all_events s)));
          small = subst (λ options. options.max_record_payload_len < u32_mod) (sym o) h;
        })
  appended-InStep s l w ps qs (result, w') (inr (error, e, c)) o commits logs more reached h =
      rw e (record {
        payloads = ps;
        is_committed = c;
        logged = logs;
        reachable = reached;
        small = subst (λ options. options.max_record_payload_len < u32_mod) (sym o) h;
      })

  -- Nor does writing out the transactions that succeeded bring them out of step.
  persist-InStep :
      (disk : Disk) (s : Sorted Channel) (l : Ledger) (w : Wal)
      → disk.set_len_ok ≡ true
      → disk.seek_ok ≡ true
      → InStep checksum postcard texts scale (record { ledger = l; wal = w })
      → Commits l (all_events s)
      → InStep checksum postcard texts scale (persist checksum postcard texts disk s l w).engine
  unfolding persist
  persist-InStep disk s l w hl hs i commits = persisting s.successes s.refusals commits
    where
      persisting :
          (successes : List (Responder Channel × List LedgerEvent))
          (refusals : List (Channel × Answer))
          → let s' : Sorted Channel = record { successes = successes; refusals = refusals } in
            Commits l (all_events s')
            → InStep checksum postcard texts scale
                (persist checksum postcard texts disk s' l w).engine
      persisting [] refusals commits = i
      persisting (one ∷ more) refusals commits =
          let batches = List.map (λ r. r.1) (one ∷ more) in
          elim (encode_batches-cases postcard texts batches) [
            | inl (e, failed) ↦ rw (failed, persist) i
            | inr (payloads, encoded, logs) ↦
                rw (encoded, persist)
                  (appended-InStep (record { successes = one ∷ more; refusals = refusals }) l w
                    i.payloads payloads _
                    (append_batch-Outcome checksum disk i.payloads payloads w i.is_committed i.small
                      hl hs)
                    (append_batch-options checksum disk payloads w i.small) commits i.logged logs
                    i.reachable i.small)
          ]

  behind-engine :
      (early : List (Channel × Answer)) (queries : List (QueryCommand Channel)) (engine : Engine)
      (answers : List (Channel × Answer)) (result : IngestResult (Unit {0}))
      → (behind checksum postcard texts early queries engine answers result).engine ≡ engine
  behind-engine early queries engine answers (IngestResult.err e) = refl
  behind-engine early queries engine answers (IngestResult.ok u) = refl

  transact-InStep :
      (disk : Disk) (txs : List (List BatchOp × Responder Channel)) (engine : Engine)
      → disk.set_len_ok ≡ true
      → disk.seek_ok ≡ true
      → InStep checksum postcard texts scale engine
      → InStep checksum postcard texts scale
          (transact checksum postcard texts disk txs engine).engine
  unfolding transact
  transact-InStep disk [] engine hl hs i = i
  transact-InStep disk (tx ∷ txs) engine hl hs i =
      let ops = List.map (λ t. t.0) (tx ∷ txs) in
      let isolated = prepare_transactions-Isolated ops engine.ledger in
      let prepared = prepare_transactions ops engine.ledger in
      let s = sort_results (tx ∷ txs) prepared.0 in
      let same : all_events s ≡ successes prepared.0 =
        all_events-successes (tx ∷ txs) prepared.0 isolated.answered in
      let commits : Commits engine.ledger (all_events s) = record {
        committed_ledger = isolated.committed;
        commits = ap (λ events. commit_events events engine.ledger) same ∙ isolated.commits;
        recorded = isolated.recorded ∙ ap (λ events. engine.ledger.journal ++ events) (sym same);
      } in
      subst
        (λ l.
          InStep checksum postcard texts scale
            (persist checksum postcard texts disk s l engine.wal).engine)
        (sym isolated.untouched) (persist-InStep disk s engine.ledger engine.wal hl hs i commits)

  -- A batch of commands leaves the log and the ledger in step, whatever it holds and wherever an
  -- append fails, where a failed write can be taken back.
  pub process_batch-InStep :
      (now : Clock) (disk : Disk) (commands : List (IngestCommand Channel)) (engine : Engine)
      → disk.set_len_ok ≡ true
      → disk.seek_ok ≡ true
      → InStep checksum postcard texts scale engine
      → InStep checksum postcard texts scale
          (process_batch checksum postcard texts now disk commands engine).engine
  unfolding process_batch
  process_batch-InStep now disk commands engine hl hs i =
      let g =
        gather now commands (record { watermark = engine.ledger.last_timestamp; readings = 0 }) in
      rw
        (behind-engine (List.map (λ failed. respond_err failed.1 failed.0) g.early_errors) g.queries
          _ _ (transact checksum postcard texts disk g.transactions engine).result)
        (transact-InStep disk g.transactions engine hl hs i)

  -- So does a run of the engine over any batches.
  run-InStep :
      (batches : List (Clock × Disk × List (IngestCommand Channel))) (engine : Engine)
      → Recovers batches
      → InStep checksum postcard texts scale engine
      → InStep checksum postcard texts scale (run checksum postcard texts batches engine).engine
  unfolding run
  run-InStep [] engine h i = i
  run-InStep ((now, disk, commands) ∷ batches) engine ((hl, hs), h) i =
      let p = process_batch checksum postcard texts now disk commands engine in
      let one = process_batch-InStep now disk commands engine hl hs i in
      elim (IngestResult-cases p.result) [
        | inl (e, failed) ↦ rw (failed, run) one
        | inr (u, ran) ↦ rw (ran, run) (run-InStep batches p.engine h one)
      ]

  -- A run from a new ledger and an empty log, over any batches, with refusals, failing appends and
  -- an error that ends it: reading the log back, decoding its payloads and replaying the events
  -- rebuilds exactly the ledger at which the run has arrived. Failed writes have to be taken back,
  -- and the log has to stay below 2 ^ 64 bytes.
  pub run-replay :
      (batches : List (Clock × Disk × List (IngestCommand Channel))) (options : WalOptions)
      → Recovers batches
      → options.max_record_payload_len < u32_mod
      → let engine =
          (run checksum postcard texts batches (new_engine checksum options scale)).engine in
        engine.wal.committed_end < u64_mod
        → (payloads : List Bytes) × (events : List LedgerEvent) × (read_records checksum engine.wal
            ≡ some (WalResult.ok (records 0 payloads), engine.wal))
          × Logs postcard texts payloads events
          × (replay scale events ≡ Result.ok engine.ledger)
  run-replay batches options h small last =
      let engine =
        (run checksum postcard texts batches (new_engine checksum options scale)).engine in
      let i =
        run-InStep batches (new_engine checksum options scale) h
          (new_engine-InStep checksum postcard texts scale options small) in
      (
        i.payloads,
        engine.ledger.journal,
        read_records-committed checksum i.payloads engine.wal i.is_committed
            (omega (arith, i.is_committed.committed_end)),
        i.logged,
        Reachable-replay scale engine.ledger i.reachable,
      )
