-- ===== src/Tests/Log.antt =====
-- The theorems about the write-ahead log at concrete files, with a sum of bytes for the checksum.
use trust_ledger.Common.{
  ℕ, ◌+◌, ◌%◌, ◌≡◌, refl, true, false, List, none, some, [], ◌∷◌, ◌++◌, take, arith,
}
use trust_ledger.Wal.Bytes.{Bytes, Checksum, u32_mod}
use trust_ledger.Wal.File.{Disk, working}
use trust_ledger.Wal.Record.{
  Record, WalResult, WalError, ok, err, frame, magic, version, next_record, found, broken, encode,
  decode_frame,
}
use trust_ledger.Wal.Record.RoundTrip.{next_record-frame}
use trust_ledger.Wal.Record.Torn.{next_record-torn}
use trust_ledger.Wal.Record.Decode.{decode_frame-encode}
use trust_ledger.Wal.Committed.{Fits, fits_nil, fits_cons, frames, opened, IsCommitted, records}
use trust_ledger.Wal.Log.{Wal, Recovery, default, open_log}
use trust_ledger.Wal.Append.{append_batch}
use trust_ledger.Wal.Appended.{Outcome, append_batch-Outcome}
use trust_ledger.Wal.Durable.{open_log-append_batch}
use trust_ledger.Wal.Reopen.{open_log-prefix}
use trust_ledger.Wal.Replay.{read_records-committed}
use trust_ledger.Wal.Terminate.{open_log-total}
use trust_ledger.Wal.Stream.{read_records}
use trust_ledger.Wal.Snapshot.{save}
use trust_ledger.Wal.Saved.{SavedOrKept, save-SavedOrKept}

abbrev pub sum : Bytes → ℕ
sum [] = 0
sum (b ∷ bytes) = b + sum bytes

pub sum-append : (a b : Bytes) → sum (a ++ b) ≡ sum a + sum b
sum-append [] b = omega arith
sum-append (n ∷ a) b = omega (arith, sum-append a b)

abbrev pub sums : Checksum
sums = record {
  crc32c = λ bytes. sum bytes % u32_mod;
  crc32c_append = λ crc bytes. (crc + sum bytes) % u32_mod;
  appends = λ a b. omega (arith, sum-append a b);
  bounded = λ a. omega arith;
}

abbrev hello : Bytes
hello = 104 ∷ 105 ∷ []

abbrev batches : List Bytes
batches = hello ∷ [] ∷ (7 ∷ []) ∷ []

batches-Fits : Fits 262144 batches
batches-Fits = fits_cons hello _ (omega arith) (omega arith) (
    fits_cons [] _ (omega arith) (omega arith)
      (fits_cons (7 ∷ []) [] (omega arith) (omega arith) fits_nil))

abbrev log : Wal
log = opened sums default batches

log-IsCommitted : IsCommitted sums batches log
log-IsCommitted = record {
  content = refl;
  cursor = refl;
  committed_end = refl;
  next_seq = refl;
  fits = batches-Fits;
}

-- A device on which a write stops after thirty bytes.
abbrev pub full : Disk
full = record {
  open_ok = true;
  lock_ok = true;
  metadata_ok = true;
  write_fails = some 30;
  sync_ok = true;
  set_len_ok = true;
  seek_ok = true;
}

-- A torn write of two records is taken back.
full_run : (append_batch sums full (hello ∷ hello ∷ []) log).1 ≡ log
unfolding append_batch trust_ledger.Wal.Append.validate trust_ledger.Wal.Append.encode_all
    trust_ledger.Wal.Record.encode_append trust_ledger.Wal.Record.encode_frame_append frames
    trust_ledger.Wal.Committed.frames_len trust_ledger.Wal.Record.header
    trust_ledger.Wal.Bytes.to_le_bytes
full_run = refl

next_record-frame_example :
    next_record sums 16 true (frame sums magic version 3 hello ++ (1 ∷ []))
    ≡ (found 3 2 (some hello), 1 ∷ [])
next_record-frame_example =
    next_record-frame sums 3 16 true hello (1 ∷ []) (omega arith) (omega arith) (omega arith)

next_record-torn_example :
    (rest : Bytes) × (next_record sums 16 true (take 20 (frame sums magic version 3 hello))
      ≡ (broken, rest))
next_record-torn_example =
    next_record-torn sums 3 16 20 true hello (omega arith) (omega arith) (omega arith) (omega arith)

decode_frame-encode_example :
    (bytes : Bytes) × (encode sums 3 hello 16 ≡ ok bytes) × (decode_frame sums bytes 16 ≡ ok (3, 2))
decode_frame-encode_example = decode_frame-encode sums 3 16 hello (omega arith) (omega arith)

open_log-prefix_example :
    open_log sums working default (take 45 (frames sums 0 batches))
    ≡ some (
      ok (
        opened sums default (hello ∷ []),
        record { next_seq = 1; truncated_bytes = 21; verified_records = 1 },
      ),
      frames sums 0 (hello ∷ []),
    )
unfolding trust_ledger.Wal.Committed.whole_frames trust_ledger.Wal.Committed.frames_len frames
    trust_ledger.Wal.Record.header trust_ledger.Wal.Bytes.to_le_bytes
open_log-prefix_example = open_log-prefix sums default 45 batches batches-Fits (omega arith)

append_batch-Outcome_example :
    Outcome sums batches (hello ∷ hello ∷ []) log (append_batch sums full (hello ∷ hello ∷ []) log)
append_batch-Outcome_example =
    append_batch-Outcome sums full batches (hello ∷ hello ∷ []) log log-IsCommitted (omega arith)
      refl refl

open_log-append_batch_example :
    (j : ℕ) × (recovery : Recovery) × (open_log sums working default
        (take 80 (append_batch sums full (hello ∷ hello ∷ []) log).1.file.content)
      ≡ some (
        ok (opened sums default (batches ++ take j (hello ∷ hello ∷ [])), recovery),
        frames sums 0 (batches ++ take j (hello ∷ hello ∷ [])),
      ))
unfolding trust_ledger.Wal.Committed.frames_len
open_log-append_batch_example =
    open_log-append_batch sums full batches (hello ∷ hello ∷ []) log 80 log-IsCommitted
      (omega arith) (omega arith) (omega arith)

open_log-total_example :
    (r : WalResult (Wal × Recovery) × Bytes) × (open_log sums full default (1 ∷ 2 ∷ []) ≡ some r)
open_log-total_example = open_log-total sums full default (1 ∷ 2 ∷ [])

read_records-committed_example : read_records sums log ≡ some (ok (records 0 batches), log)
unfolding trust_ledger.Wal.Committed.frames_len
read_records-committed_example =
    read_records-committed sums batches log log-IsCommitted (omega arith)

save-SavedOrKept_example :
    SavedOrKept sums 41 hello
      (record { stored = none; max_payload_len = 16 })
      (save sums
        (record { open_tmp_ok = true; write_tmp_ok = true; sync_tmp_ok = false; persist_ok = true })
        41
        hello
        (record { stored = none; max_payload_len = 16 }))
save-SavedOrKept_example =
    save-SavedOrKept sums
      (record { open_tmp_ok = true; write_tmp_ok = true; sync_tmp_ok = false; persist_ok = true })
      41 hello (record { stored = none; max_payload_len = 16 }) (omega arith) (omega arith)
