-- ===== src/Wal/Replay.antt =====
-- Reading a log back (crates/wal/src/wal.rs).
use trust_ledger.Common.{
  ℕ, zero, suc, ◌+◌, ◌≤◌, ◌<◌, ◌≡◌, sym, ap, ◌∙◌, true, false, some, List, [], ◌∷◌, ◌++◌, length,
  ltb, ge→ltb, lt→ltb, arith, ==-refl, append_assoc, append-nil,
}
use trust_ledger.Wal.Bytes.{Bytes, Checksum, u64_mod}
use trust_ledger.Wal.Record.{Record, ok, next_record, frame, magic, version}
use trust_ledger.Wal.Record.RoundTrip.{next_record-frame}
use trust_ledger.Wal.Committed.{
  Fits, fits_cons, frames_len, frames, records, IsCommitted, length_le_frames_len,
}
use trust_ledger.Wal.Log.{Wal}
use trust_ledger.Wal.File.{seek}
use trust_ledger.Wal.Append.{with_file}
use trust_ledger.Wal.Stream.{
  RecordStream, stream_records, restore_cursor, moved, next, collect, read_records,
}

module _ (checksum : Checksum) where
  -- Record after record, the loop gives back the payloads with their numbers.
  collect-frames :
      (s : RecordStream) (fuel seq : ℕ) (payloads : List Bytes) (before : List Record)
      → Fits s.max_payload_len payloads
      → s.expected_next_seq ≡ seq + length payloads
      → seq + length payloads ≤ u64_mod
      → length payloads < fuel
      → collect checksum fuel before (moved s (frames checksum seq payloads) seq false)
        ≡ some (
          ok (before ++ records seq payloads),
          restore_cursor (moved s [] (seq + length payloads) true),
        )
  unfolding collect next frames records next_record
  collect-frames s zero seq payloads before f h hs hf = elim hf [ ]
  collect-frames s (suc fuel) seq [] before f h hs hf =
      let stops : ltb seq s.expected_next_seq ≡ false =
        ge→ltb seq s.expected_next_seq (omega arith) in
      rw (stops, append-nil before)
        (ap (λ n. some (ok before, restore_cursor (moved s [] n true))) (omega arith))
  collect-frames s (suc fuel) seq (p ∷ ps) before (fits_cons _ _ fit word f) h hs hf =
      let bytes = frame checksum magic version seq p in
      let rest = frames checksum (seq + 1) ps in
      let item : Record = record { seq = seq; payload = p } in
      let goes : ltb seq s.expected_next_seq ≡ true =
        lt→ltb seq s.expected_next_seq (omega arith) in
      let step =
        next_record-frame checksum seq s.max_payload_len true p rest (omega arith) fit word in
      let again =
        collect-frames s fuel (seq + 1) ps (before ++ (item ∷ [])) f (omega arith) (omega arith)
          (omega arith) in
      rw (goes, step, ==-refl seq)
        (again
          ∙ rw (append_assoc before (item ∷ []) (records (seq + 1) ps)) (
              ap
                (λ n. some (
                  ok (before ++ (item ∷ records (seq + 1) ps)),
                  restore_cursor (moved s [] n true),
                ))
                (omega arith)))

  -- Reading a log back gives exactly the payloads that were appended, numbered from 0 in their
  -- order, and leaves the log as it was.
  pub read_records-committed :
      (payloads : List Bytes) (wal : Wal)
      → IsCommitted checksum payloads wal
      → frames_len payloads < u64_mod
      → read_records checksum wal ≡ some (ok (records 0 payloads), wal)
  unfolding read_records
  read_records-committed payloads wal w h =
      let s = stream_records wal in
      let all : collect checksum (suc wal.next_seq) [] s
          ≡ some (ok (records 0 payloads), restore_cursor (moved s [] (0 + length payloads) true)) =
        ap (λ bytes. collect checksum (suc wal.next_seq) [] (moved s bytes 0 false)) w.content
        ∙ collect-frames s (suc wal.next_seq) 0 payloads [] w.fits (omega (arith, w.next_seq))
            (omega (arith, length_le_frames_len payloads)) (omega (arith, w.next_seq)) in
      rw (all, read_records)
        (ap (λ n. some (ok (records 0 payloads), with_file wal (seek n wal.file))) (sym w.cursor))
