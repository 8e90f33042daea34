-- ===== src/Wal/Append.antt =====
-- `append_batch` and `append` of crates/wal/src/wal.rs.
use trust_ledger.Common.{
  ℕ, ◌+◌, Bool, Option, none, some, List, [], ◌∷◌, take, length, ltb, not, ◌&&◌, if◌then◌else◌,
}
use trust_ledger.Wal.Bytes.{Bytes, Checksum, u64_mod}
use trust_ledger.Wal.File.{File, Disk, set_len, seek, write_all}
use trust_ledger.Wal.Record.{
  WalError, WalResult, ok, err, io, payload_too_large, encode_append, frame_len,
}
use trust_ledger.Wal.Log.{Wal}

-- The loop that validates the payloads and adds up the lengths of their frames.
unfoldable pub validate : ℕ → ℕ → List Bytes → WalResult ℕ
validate max total_len [] = ok total_len
validate max total_len (payload ∷ payloads) =
    let len = length payload in
    let total = total_len + frame_len len in
    let rest = validate max total payloads in
    if ltb max len
    then err (payload_too_large len max)
    else if ltb total u64_mod
    then rest
    else err (payload_too_large 18446744073709551615 max)

-- What is done with the file when a call fails; whether that succeeds is not looked at.
abbrev pub roll_back : Disk → ℕ → File → File
roll_back disk committed_end file =
    let cut : File = if disk.set_len_ok then set_len committed_end file else file in
    if disk.seek_ok then seek committed_end cut else cut

abbrev pub with_file : Wal → File → Wal
with_file wal file = record {
  file = file;
  next_seq = wal.next_seq;
  committed_end = wal.committed_end;
  options = wal.options;
}

-- The file behind the calls that write and flush, and the name of the call that fails.
abbrev pub write : Disk → Bool → Bytes → File → Option WalError × File
write disk sync_per_append buf file = elim disk.write_fails [
  | some n ↦ (some (io "write_all"), write_all (take n buf) file)
  | none ↦
      if sync_per_append && not disk.sync_ok
      then (some (io "sync_data"), write_all buf file)
      else (none, write_all buf file)
]

-- The log behind those calls, with the range of sequence numbers by its two ends.
abbrev pub settle : Disk → Wal → ℕ → ℕ → Option WalError × File → WalResult (ℕ × ℕ) × Wal
settle disk wal cur_seq len (some e, file) =
    (err e, with_file wal (roll_back disk wal.committed_end file))
settle disk wal cur_seq len (none, file) =
    let wal' : Wal = record {
      file = file;
      next_seq = cur_seq;
      committed_end = wal.committed_end + len;
      options = wal.options;
    } in
    (ok (wal.next_seq, cur_seq), wal')

abbrev pub commit : Disk → Wal → ℕ × Bytes → WalResult (ℕ × ℕ) × Wal
commit disk wal (cur_seq, buf) =
    settle disk wal cur_seq (length buf) (write disk wal.options.sync_per_append buf wal.file)

-- The start of the range.
abbrev pub range_start : WalResult (ℕ × ℕ) × Wal → WalResult ℕ × Wal
range_start (err e, wal) = (err e, wal)
range_start (ok (start, last), wal) = (ok start, wal)

module _ (checksum : Checksum) where
  -- The loop that encodes the payloads into one buffer.
  unfoldable pub encode_all : ℕ → ℕ → List Bytes → Bytes → WalResult (ℕ × Bytes)
  encode_all max seq [] buf = ok (seq, buf)
  encode_all max seq (payload ∷ payloads) buf = elim (encode_append checksum seq payload max buf) [
    | err e ↦ err e
    | ok buf' ↦ encode_all max (seq + 1) payloads buf'
  ]

  unfoldable pub append_batch : Disk → List Bytes → Wal → WalResult (ℕ × ℕ) × Wal
  append_batch disk [] wal = (ok (wal.next_seq, wal.next_seq), wal)
  append_batch disk (payload ∷ payloads) wal =
      let max = wal.options.max_record_payload_len in
      elim (validate max 0 (payload ∷ payloads)) [
        | err e ↦ (err e, wal)
        | ok total_len ↦ elim (encode_all max wal.next_seq (payload ∷ payloads) []) [
          | err e ↦ (err e, wal)
          | ok encoded ↦ commit disk wal encoded
        ]
      ]

  unfoldable pub append : Disk → Bytes → Wal → WalResult ℕ × Wal
  append disk payload wal = range_start (append_batch disk (payload ∷ []) wal)
