-- ===== src/Wal/Stream.antt =====
-- `RecordStream` and `read_records` of crates/wal/src/wal.rs. The stream borrows the log, so it
-- carries the log's file: the cursor while records are read is not looked at before it is restored.
use trust_ledger.Common.{
  ℕ, zero, suc, ◌+◌, Bool, true, false, Option, none, some, List, [], ◌∷◌, ◌++◌, ltb, not, ◌==◌,
  if◌then◌else◌, length,
}
use trust_ledger.Wal.Bytes.{Bytes, Checksum}
use trust_ledger.Wal.File.{File, seek}
use trust_ledger.Wal.Record.{
  Record, ScanStep, found, end, broken, WalResult, ok, err, changed_while_open, next_record,
}
use trust_ledger.Wal.Log.{Wal}
use trust_ledger.Wal.Append.{with_file}

pub record RecordStream : Type 0 where
  pub reader : Bytes
  pub file : File
  pub max_payload_len : ℕ
  pub expected_next_seq : ℕ
  pub committed_end : ℕ
  pub current_seq : ℕ
  pub seek_restored : Bool
  pub finished : Bool

abbrev pub stream_records : Wal → RecordStream
stream_records wal = record {
  reader = wal.file.content;
  file = seek 0 wal.file;
  max_payload_len = wal.options.max_record_payload_len;
  expected_next_seq = wal.next_seq;
  committed_end = wal.committed_end;
  current_seq = 0;
  seek_restored = false;
  finished = false;
}

abbrev pub restore_cursor : RecordStream → RecordStream
restore_cursor s = if s.seek_restored then s else record {
  reader = s.reader;
  file = seek s.committed_end s.file;
  max_payload_len = s.max_payload_len;
  expected_next_seq = s.expected_next_seq;
  committed_end = s.committed_end;
  current_seq = s.current_seq;
  seek_restored = true;
  finished = s.finished;
}

-- Closing or dropping the stream gives the file back.
abbrev pub close : RecordStream → File
close s = (restore_cursor s).file

-- The stream behind a read.
abbrev pub moved : RecordStream → Bytes → ℕ → Bool → RecordStream
moved s reader current_seq finished = record {
  reader = reader;
  file = s.file;
  max_payload_len = s.max_payload_len;
  expected_next_seq = s.expected_next_seq;
  committed_end = s.committed_end;
  current_seq = current_seq;
  seek_restored = s.seek_restored;
  finished = finished;
}

-- What `next` answers to the frame it read: while records are expected, and behind the last.
abbrev pub take_record : RecordStream → ScanStep × Bytes → Option (WalResult Record) × RecordStream
take_record s (found seq len none, rest) =
    (some (err changed_while_open), moved s rest s.current_seq true)
take_record s (found seq len (some payload), rest) =
    if not (seq == s.current_seq)
    then (some (err changed_while_open), moved s rest s.current_seq true)
    else (
      some (ok (record { seq = seq; payload = payload })),
      moved s rest (s.current_seq + 1) false,
    )
take_record s (end, rest) = (some (err changed_while_open), moved s rest s.current_seq true)
take_record s (broken, rest) = (some (err changed_while_open), moved s rest s.current_seq true)

abbrev pub expect_end : RecordStream → ScanStep × Bytes → Option (WalResult Record) × RecordStream
expect_end s (found seq len payload, rest) =
    (some (err changed_while_open), moved s rest s.current_seq true)
expect_end s (end, rest) = (none, restore_cursor (moved s rest s.current_seq true))
expect_end s (broken, rest) = (some (err changed_while_open), moved s rest s.current_seq true)

-- One round of `read_records`: `again` is the next.
abbrev pub on_item :
    (List Record → RecordStream → Option (WalResult (List Record) × RecordStream))
    → List Record
    → Option (WalResult Record) × RecordStream
    → Option (WalResult (List Record) × RecordStream)
on_item again records (none, s) = some (ok records, s)
on_item again records (some (err e), s) = some (err e, s)
on_item again records (some (ok item), s) = again (records ++ (item ∷ [])) s

module _ (checksum : Checksum) where
  unfoldable pub next : RecordStream → Option (WalResult Record) × RecordStream
  next s =
      if s.finished
      then (none, s)
      else if ltb s.current_seq s.expected_next_seq
      then take_record s (next_record checksum s.max_payload_len true s.reader)
      else expect_end s (next_record checksum s.max_payload_len false s.reader)

  -- The loop of `read_records`; `none` says that the fuel was not enough.
  unfoldable pub collect :
      ℕ → List Record → RecordStream → Option (WalResult (List Record) × RecordStream)
  collect zero records s = none
  collect (suc fuel) records s = on_item (collect fuel) records (next s)

  -- A record for each number below the next, and one round for the end. The stream is dropped
  -- behind the loop, which restores the cursor.
  unfoldable pub read_records : Wal → Option (WalResult (List Record) × Wal)
  read_records wal = elim (collect (suc wal.next_seq) [] (stream_records wal)) [
    | none ↦ none
    | some r ↦ some (r.0, with_file wal (close r.1))
  ]

-- The length of the file, as the operating system tells it.
abbrev pub committed_len : Wal → ℕ
committed_len wal = length wal.file.content
