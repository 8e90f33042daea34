-- ===== src/Wal/Log.antt =====
-- The log: crates/wal/src/wal.rs. Seeking and reading do not fail while records are read. The
-- buffer `encode_buf` is cleared before each use, and the path occurs in messages only: neither is
-- a field. A sum beyond its integer's width ends the program (`overflow-checks`).
use trust_ledger.Common.{
  ℕ, zero, suc, ◌+◌, ◌-◌, Bool, true, false, Option, none, some, length, ltb, not, ◌&&◌, ◌==◌,
  if◌then◌else◌,
}
use trust_ledger.Wal.Bytes.{Bytes, Checksum}
use trust_ledger.Wal.File.{File, Disk, set_len, seek}
use trust_ledger.Wal.Record.{
  ScanStep, found, end, broken, WalResult, ok, err, io, locked, seq_mismatch, next_record,
  frame_len, default_max_payload_len,
}

-- Outcome of opening a log.
pub record Recovery : Type 0 where
  pub next_seq : ℕ
  pub truncated_bytes : ℕ
  pub verified_records : ℕ

pub record WalOptions : Type 0 where
  pub max_record_payload_len : ℕ
  pub sync_per_append : Bool

abbrev pub default : WalOptions
default = record { max_record_payload_len = default_max_payload_len; sync_per_append = true }

pub record Wal : Type 0 where
  pub file : File
  pub next_seq : ℕ
  pub committed_end : ℕ
  pub options : WalOptions

-- The variables of the loop in `open`.
pub record Scan : Type 0 where
  pub next_seq : ℕ
  pub verified_records : ℕ
  pub verified_end : ℕ

abbrev pub empty_scan : Scan
empty_scan = record { next_seq = 0; verified_records = 0; verified_end = 0 }

-- One round behind what was read: `again` is the next round.
abbrev pub on_step :
    (Scan → Bytes → Option (WalResult Scan)) → Scan → ScanStep × Bytes → Option (WalResult Scan)
on_step again s (found seq len payload, rest) =
    let s' : Scan = record {
      next_seq = s.next_seq + 1;
      verified_records = s.verified_records + 1;
      verified_end = s.verified_end + frame_len len;
    } in
    let next = again s' rest in
    if not (seq == s.next_seq)
    then some (err (seq_mismatch s.verified_end seq s.next_seq))
    else next
on_step again s (end, rest) = some (ok s)
on_step again s (broken, rest) = some (ok s)

-- The end of `open`, behind the loop.
unfoldable pub finish_open : Disk → WalOptions → Bytes → Scan → WalResult (Wal × Recovery) × Bytes
finish_open disk options content s =
    let truncated_bytes = length content - s.verified_end in
    let opened : File = record { content = content; cursor = 0 } in
    let cut : File = if ltb 0 truncated_bytes then set_len s.verified_end opened else opened in
    let file : File = seek s.verified_end cut in
    let wal : Wal = record {
      file = file;
      next_seq = s.next_seq;
      committed_end = s.verified_end;
      options = options;
    } in
    let recovery : Recovery = record {
      next_seq = s.next_seq;
      truncated_bytes = truncated_bytes;
      verified_records = s.verified_records;
    } in
    if not disk.metadata_ok
    then (err (io "metadata"), content)
    else if ltb 0 truncated_bytes && not disk.set_len_ok
    then (err (io "set_len"), content)
    else if ltb 0 truncated_bytes && not disk.sync_ok
    then (err (io "sync_all"), cut.content)
    else if not disk.seek_ok
    then (err (io "seek_end"), cut.content)
    else (ok (wal, recovery), cut.content)

module _ (checksum : Checksum) where
  -- The loop in `open`; `none` says that the fuel was not enough.
  unfoldable pub scan : ℕ → ℕ → Scan → Bytes → Option (WalResult Scan)
  scan max_payload_len zero s reader = none
  scan max_payload_len (suc fuel) s reader =
      on_step (scan max_payload_len fuel) s (next_record checksum max_payload_len false reader)

  -- What the loop found, with the fuel of one round for each byte and one for the end.
  unfoldable pub open_log : Disk → WalOptions → Bytes → Option (WalResult (Wal × Recovery) × Bytes)
  open_log disk options content =
      if not disk.open_ok
      then some (err (io "open"), content)
      else if not disk.lock_ok
      then some (err locked, content)
      else elim (scan options.max_record_payload_len (suc (length content)) empty_scan content) [
        | none ↦ none
        | some result ↦
            some
              (elim result [ err e ↦ (err e, content) | ok s ↦ finish_open disk options content s ])
      ]
