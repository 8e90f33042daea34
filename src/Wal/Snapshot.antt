-- ===== src/Wal/Snapshot.antt =====
-- Checkpoint snapshots (crates/wal/src/snapshot.rs). The snapshot's file is the bytes at its path,
-- if there is one; a temporary file is dropped when its steps fail.
use trust_ledger.Common.{
  ℕ, ◌+◌, Bool, true, not, Option, none, some, take, drop, length, ltb, if◌then◌else◌, ◌*◌,
}
use trust_ledger.Wal.Bytes.{Bytes, Checksum}
use trust_ledger.Wal.Record.{
  WalResult, ok, err, io, payload_too_large, encode_frame, decode_frame_with, header_len, version,
}

-- The letters LTSN, as a little-endian number.
abbrev pub snap_magic : ℕ
snap_magic = b'L' + 256 * (b'T' + 256 * (b'S' + 256 * b'N'))

pub record Snapshot : Type 0 where
  pub last_seq : ℕ
  pub payload : Bytes

-- What is at the path, and the bound on payloads.
pub record SnapshotFile : Type 0 where
  pub stored : Option Bytes
  pub max_payload_len : ℕ

-- How the calls of `save` turn out, in their order.
pub record Saving : Type 0 where
  pub open_tmp_ok : Bool
  pub write_tmp_ok : Bool
  pub sync_tmp_ok : Bool
  pub persist_ok : Bool

abbrev pub saving : Saving
saving = record { open_tmp_ok = true; write_tmp_ok = true; sync_tmp_ok = true; persist_ok = true }

module _ (checksum : Checksum) where
  -- `save`. The flush of the directory behind the rename is not looked at.
  unfoldable pub save : Saving → ℕ → Bytes → SnapshotFile → WalResult (Unit {0}) × SnapshotFile
  save disk last_seq payload snapshot =
      let max = snapshot.max_payload_len in
      if ltb max (length payload)
      then (err (payload_too_large (length payload) max), snapshot)
      else if not disk.open_tmp_ok
      then (err (io "open_tmp"), snapshot)
      else elim (encode_frame checksum snap_magic version last_seq payload max) [
        | err e ↦ (err e, snapshot)
        | ok bytes ↦
            if not disk.write_tmp_ok
            then (err (io "write_tmp"), snapshot)
            else if not disk.sync_tmp_ok
            then (err (io "sync_tmp"), snapshot)
            else if not disk.persist_ok
            then (err (io "persist_snapshot"), snapshot)
            else (ok tt, record { stored = some bytes; max_payload_len = max })
      ]

  -- `load`, where the file can be read if it is there.
  unfoldable pub load : SnapshotFile → Option Snapshot
  load snapshot = elim snapshot.stored [
    | none ↦ none
    | some bytes ↦
        elim (decode_frame_with checksum snap_magic version bytes snapshot.max_payload_len) [
          | err e ↦ none
          | ok (last_seq, payload_len) ↦
              some
                (record { last_seq = last_seq; payload = take payload_len (drop header_len bytes) })
        ]
  ]
