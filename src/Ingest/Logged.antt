-- ===== src/Ingest/Logged.antt =====
-- What the payloads of a log say, and what a batch of transactions logs (crates/ingest/src/engine.rs).
use mathlib.Core.List
use trust_ledger.Common.{
  ℕ, ◌<◌, ◌≡◌, ◌⊎◌, refl, sym, ap, ◌∙◌, List, [], ◌∷◌, ◌++◌, inl, inr, subst, append_assoc, some,
  none, Option,
}
use trust_ledger.LedgerError.{Result}
use trust_ledger.Journal.{LedgerEvent, BatchOp}
use trust_ledger.Ledger.Batch.Transactions.{successes, Answers}
use trust_ledger.Wal.Bytes.{Bytes, Checksum, u32_mod}
use trust_ledger.Wal.File.{Disk, File}
use trust_ledger.Wal.Record.{WalError}
use trust_ledger.Wal.Log.{Wal}
use trust_ledger.Wal.Append.{append_batch, settle}
use trust_ledger.Wal.Appended.{append_batch-cases, commit_batch}
use trust_ledger.Codec.{
  CodecError, CodecResult, Postcard, encode_events, decode_events, decode_events-encode_events,
}
use trust_ledger.Ingest.Engine.{Responder, sort_results, all_events}
use trust_ledger.Ingest.Process.{Texts, encode_batches}

settle-options :
    (disk : Disk) (w : Wal) (next len : ℕ) (r : Option WalError × File)
    → (settle disk w next len r).1.options ≡ w.options
settle-options disk w next len (some e, file) = refl
settle-options disk w next len (none, file) = refl

commit_batch-options :
    (checksum : Checksum) (disk : Disk) (qs : List Bytes) (w : Wal)
    → (commit_batch checksum disk qs w).1.options ≡ w.options
commit_batch-options checksum disk [] w = refl
commit_batch-options checksum disk (q ∷ qs) w = settle-options disk w _ _ _

-- An append does not change the options.
pub append_batch-options :
    (checksum : Checksum) (disk : Disk) (qs : List Bytes) (w : Wal)
    → w.options.max_record_payload_len < u32_mod
    → (append_batch checksum disk qs w).1.options ≡ w.options
append_batch-options checksum disk qs w h = elim (append_batch-cases checksum disk qs w h) [
  | inl (e, refused) ↦ ap (λ r. r.1.options) refused
  | inr (f, accepted) ↦ ap (λ r. r.1.options) accepted ∙ commit_batch-options checksum disk qs w
]

-- The events of the transactions that go on are those of the results that succeeded.
pub all_events-successes :
    {Channel : Type 0} (txs : List (List BatchOp × Responder Channel))
    (results : List (Result (List LedgerEvent)))
    → Answers (List.map (λ t. t.0) txs) results
    → all_events (sort_results txs results) ≡ successes results
unfolding sort_results List.flatten
all_events-successes [] [] h = refl
all_events-successes [] (r ∷ results) h = elim h [ ]
all_events-successes (tx ∷ txs) [] h = elim h [ ]
all_events-successes (tx ∷ txs) (Result.ok events ∷ results) (labels, h) =
    ap (λ es. events ++ es) (all_events-successes txs results h)
all_events-successes (tx ∷ txs) (Result.err e ∷ results) h = all_events-successes txs results h

-- What encoding gives: an error, or payloads.
CodecResult-cases :
    {A : Type 0} (r : CodecResult A)
    → ((e : CodecError) × (r ≡ CodecResult.err e)) ⊎ ((a : A) × (r ≡ CodecResult.ok a))
CodecResult-cases (CodecResult.err e) = inl (e, refl)
CodecResult-cases (CodecResult.ok a) = inr (a, refl)

module _ (postcard : Postcard) (texts : Texts) where
  -- The payloads of a log decode, one after another, to these events.
  pub data Logs : List Bytes → List LedgerEvent → Type 0 where
    logs_nil : Logs [] []
    logs_cons :
        (payload : Bytes) (payloads : List Bytes) (events more : List LedgerEvent)
        → decode_events postcard texts.leftover_text payload ≡ CodecResult.ok events
        → Logs payloads more
        → Logs (payload ∷ payloads) (events ++ more)

  pub Logs-append :
      {ps qs : List Bytes} {events more : List LedgerEvent}
      → Logs ps events
      → Logs qs more
      → Logs (ps ++ qs) (events ++ more)
  Logs-append logs_nil k = k
  Logs-append {qs = qs} {more = more} (logs_cons p ps events rest d h) k =
      subst (Logs (p ∷ (ps ++ qs))) (sym (append_assoc events rest more))
        (logs_cons p (ps ++ qs) events (rest ++ more) d (Logs-append h k))

  -- Encoding fails, or the payloads decode to the batches.
  pub encode_batches-cases :
      (batches : List (List LedgerEvent))
      → ((e : CodecError) × (encode_batches postcard texts batches ≡ CodecResult.err e))
        ⊎ ((payloads : List Bytes) × (encode_batches postcard texts batches
              ≡ CodecResult.ok payloads)
            × Logs payloads (List.flatten batches))
  unfolding encode_batches List.flatten
  encode_batches-cases [] = inr ([], refl, logs_nil)
  encode_batches-cases (events ∷ rest) =
      let encoded = encode_events postcard texts.leftover_text events in
      elim (CodecResult-cases encoded) [
        | inl (e, failed) ↦ inl (e, rw (failed, encode_batches) refl)
        | inr (payload, one) ↦ elim (encode_batches-cases rest) [
          | inl (e, failed) ↦ inl (e, rw (one, encode_batches) (rw failed refl))
          | inr (payloads, more, logs) ↦ inr (
            payload ∷ payloads,
            rw (one, encode_batches) (rw more refl),
            logs_cons payload payloads events (List.flatten rest)
                (decode_events-encode_events postcard texts.leftover_text events payload one) logs,
          )
        ]
      ]
