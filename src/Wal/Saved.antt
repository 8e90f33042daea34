-- ===== src/Wal/Saved.antt =====
-- Saving and loading a snapshot (crates/wal/src/snapshot.rs).
use trust_ledger.Common.{
  ℕ, ◌≤◌, ◌<◌, ◌≡◌, ◌⊎◌, refl, ap, ◌∙◌, some, Bool-cases, inl, inr, ◌++◌, take, drop, length, ltb,
  ltb→ge, if_elim, ge→ltb, arith, not, append_assoc, take-append_length, drop_exact,
}
use trust_ledger.Wal.Bytes.{Bytes, Checksum, to_le_bytes, u32_mod, u64_mod}
use trust_ledger.Wal.Record.{
  frame, header, version, ok, err, io, payload_too_large, WalError, WalResult,
}
use trust_ledger.Wal.Record.Header.{length-header}
use trust_ledger.Wal.Record.RoundTrip.{covered}
use trust_ledger.Wal.Record.Decode.{decode_frame-frame, encode_frame_lem}
use trust_ledger.Wal.Snapshot.{SnapshotFile, Saving, saving, save, load, snap_magic}

module _ (checksum : Checksum) where
  open checksum use {crc32c}

  -- A frame with the snapshot's magic number is loaded.
  load-frame :
      (last_seq max : ℕ) (payload : Bytes)
      → last_seq < u64_mod
      → length payload < u32_mod
      → length payload ≤ max
      → load checksum (record {
        stored = some (frame checksum snap_magic version last_seq payload);
        max_payload_len = max;
      })
        ≡ some (record { last_seq = last_seq; payload = payload })
  unfolding load
  load-frame last_seq max payload hs hl hm =
      let h = header snap_magic version last_seq (length payload) in
      let trailer = to_le_bytes 4 (crc32c (covered checksum snap_magic version last_seq payload)) in
      let decoded =
        decode_frame-frame checksum snap_magic version last_seq max payload (omega arith) hs hl
          hm in
      let inside : take (length payload) (drop 18 ((h ++ payload) ++ trailer)) ≡ payload =
        ap (λ bytes. take (length payload) (drop 18 bytes)) (append_assoc h payload trailer)
        ∙ ap (take (length payload)) (
            drop_exact h (payload ++ trailer)
              (length-header snap_magic version last_seq (length payload)))
        ∙ take-append_length payload trailer in
      rw (decoded, load)
        (ap (λ bytes. some (record { last_seq = last_seq; payload = bytes })) inside)

  -- Saving a snapshot within the bounds succeeds, and loading then gives back what was saved,
  -- whatever was stored before.
  pub load-save :
      (last_seq : ℕ) (payload : Bytes) (snapshot : SnapshotFile)
      → last_seq < u64_mod
      → length payload < u32_mod
      → length payload ≤ snapshot.max_payload_len
      → let r = save checksum saving last_seq payload snapshot in
        (r.0 ≡ ok tt)
        × (load checksum r.1 ≡ some (record { last_seq = last_seq; payload = payload }))
  unfolding save
  load-save last_seq payload snapshot hs hl hm =
      let max = snapshot.max_payload_len in
      let encoded = encode_frame_lem checksum snap_magic version last_seq max payload hm in
      rw (ge→ltb max (length payload) hm, encoded, save)
        (refl, load-frame last_seq max payload hs hl hm)

  -- What a save may come to, from what was stored.
  abbrev pub SavedOrKept : ℕ → Bytes → SnapshotFile → WalResult (Unit {0}) × SnapshotFile → Type 0
  SavedOrKept last_seq payload snapshot r =
      ((r.0 ≡ ok tt)
        × (load checksum r.1 ≡ some (record { last_seq = last_seq; payload = payload })))
      ⊎ ((e : WalError) × (r ≡ (err e, snapshot)))

  -- However the calls of a save turn out, for a payload of fewer than 2^32 bytes, within the maximum or
  -- above it, and a sequence number of 64 bits, it succeeds and loading gives back what was saved, or
  -- it is refused and what was stored is still there.
  pub save-SavedOrKept :
      (disk : Saving) (last_seq : ℕ) (payload : Bytes) (snapshot : SnapshotFile)
      → last_seq < u64_mod
      → length payload < u32_mod
      → SavedOrKept last_seq payload snapshot (save checksum disk last_seq payload snapshot)
  unfolding save
  save-SavedOrKept disk last_seq payload snapshot hs hl =
      let max = snapshot.max_payload_len in
      let may = SavedOrKept last_seq payload snapshot in
      elim (Bool-cases (ltb max (length payload))) [
        | inl large ↦ rw large (inr (payload_too_large (length payload) max, refl))
        | inr fits ↦
            let hm = ltb→ge max (length payload) fits in
            let encoded = encode_frame_lem checksum snap_magic version last_seq max payload hm in
            rw (fits, encoded, save)
              (if_elim may _ _ (not disk.open_tmp_ok) (inr (io "open_tmp", refl)) (
                if_elim may _ _ (not disk.write_tmp_ok) (inr (io "write_tmp", refl)) (
                  if_elim may _ _ (not disk.sync_tmp_ok) (inr (io "sync_tmp", refl)) (
                    if_elim may _ _ (not disk.persist_ok) (inr (io "persist_snapshot", refl))
                      (inl (refl, load-frame last_seq max payload hs hl hm))))))
      ]
