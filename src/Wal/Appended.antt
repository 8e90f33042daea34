-- ===== src/Wal/Appended.antt =====
-- Appending to a log (crates/wal/src/wal.rs): what is written, and that a batch is either there as a
-- whole or not at all.
use trust_ledger.Common.{
  ℕ, ◌+◌, ◌<◌, ◌≡◌, ◌⊎◌, refl, sym, ap, ◌∙◌, true, List, [], ◌∷◌, ◌++◌, take, length, inl, inr,
  arith, append-nil, append_assoc, length-append,
}
use trust_ledger.Wal.Bytes.{Bytes, Checksum, u32_mod}
use trust_ledger.Wal.File.{Disk}
use trust_ledger.Wal.Record.{frame, magic, version, ok, err, WalError, WalResult}
use trust_ledger.Wal.Record.Decode.{encode_append_lem}
use trust_ledger.Wal.Committed.{
  Fits, fits_nil, fits_cons, frames, length-frames, frames-append, frames_len-append, Fits-append,
  IsCommitted,
}
use trust_ledger.Wal.Log.{Wal}
use trust_ledger.Wal.Append.{encode_all, commit, append_batch, roll_back, with_file}
use trust_ledger.Wal.Written.{validate-cases, roll_back-end, appended, write-cases}

module _ (checksum : Checksum) where
  -- The buffer holds one frame for each payload.
  pub encode_all-Fits :
      {max : ℕ} (seq : ℕ) {payloads : List Bytes} (buf : Bytes)
      → Fits max payloads
      → encode_all checksum max seq payloads buf
        ≡ ok (seq + length payloads, buf ++ frames checksum seq payloads)
  unfolding encode_all frames
  encode_all-Fits seq buf fits_nil = rw (append-nil buf) (ap (λ n. ok (n, buf)) (omega arith))
  encode_all-Fits {max} seq buf (fits_cons p ps fit word f) =
      let bytes = frame checksum magic version seq p in
      rw (encode_append_lem checksum seq max p buf fit, encode_all)
        (encode_all-Fits (seq + 1) (buf ++ bytes) f
          ∙ rw (append_assoc buf bytes (frames checksum (seq + 1) ps))
              (ap (λ n. ok (n, buf ++ frames checksum seq (p ∷ ps))) (omega arith)))

  -- A log after its file holds the frames of these payloads and the cursor is behind them.
  pub committed_file :
      (ps : List Bytes) (wal : Wal)
      → IsCommitted checksum ps wal
      → wal.file.cursor ≡ length wal.file.content
  committed_file ps wal w =
      w.cursor ∙ w.committed_end ∙ sym (ap length w.content ∙ length-frames checksum 0 ps)

  -- The frames of a batch behind those that are there.
  pub frames-batch :
      (ps qs : List Bytes) (wal : Wal)
      → IsCommitted checksum ps wal
      → wal.file.content ++ frames checksum wal.next_seq qs ≡ frames checksum 0 (ps ++ qs)
  frames-batch ps qs wal w =
      let from : wal.next_seq ≡ 0 + length ps = omega (arith, w.next_seq) in
      ap (λ bytes. bytes ++ frames checksum wal.next_seq qs) w.content
      ∙ ap (λ n. frames checksum 0 ps ++ frames checksum n qs) from
      ∙ sym (frames-append checksum 0 ps qs)

  -- The log behind calls that do not fail holds the new frames.
  commit-good :
      (ps qs : List Bytes) (wal : Wal)
      → IsCommitted checksum ps wal
      → Fits wal.options.max_record_payload_len qs
      → IsCommitted checksum (ps ++ qs) (record {
        file = appended wal.file (frames checksum wal.next_seq qs);
        next_seq = wal.next_seq + length qs;
        committed_end = wal.committed_end + length (frames checksum wal.next_seq qs);
        options = wal.options;
      })
  commit-good ps qs wal w f = record {
    content = frames-batch ps qs wal w;
    cursor = omega (arith, w.cursor);
    committed_end =
        omega
          (arith, w.committed_end, length-frames checksum wal.next_seq qs, frames_len-append ps qs);
    next_seq = omega (arith, w.next_seq, length-append ps qs);
    fits = Fits-append w.fits f;
  }

  -- The log behind calls that fail is the log before them.
  commit-failed :
      (disk : Disk) (ps : List Bytes) (bytes : Bytes) (wal : Wal)
      → IsCommitted checksum ps wal
      → disk.set_len_ok ≡ true
      → disk.seek_ok ≡ true
      → IsCommitted checksum ps
          (with_file wal (roll_back disk wal.committed_end (appended wal.file bytes)))
  commit-failed disk ps bytes wal w hl hs =
      let back =
        roll_back-end disk wal.committed_end wal.file bytes hl hs
          (sym w.cursor ∙ committed_file ps wal w) in
      record {
        content = ap (λ file. file.content) back ∙ w.content;
        cursor = ap (λ file. file.cursor) back;
        committed_end = w.committed_end;
        next_seq = w.next_seq;
        fits = w.fits;
      }

  -- What comes of a batch: it is there as a whole, or nothing of it is.
  abbrev pub Outcome : List Bytes → List Bytes → Wal → WalResult (ℕ × ℕ) × Wal → Type 0
  Outcome ps qs wal (result, wal') =
      ((result ≡ ok (wal.next_seq, wal.next_seq + length qs))
        × IsCommitted checksum (ps ++ qs) wal')
      ⊎ ((e : WalError) × (result ≡ err e) × IsCommitted checksum ps wal')

  commit-Outcome :
      (disk : Disk) (ps qs : List Bytes) (wal : Wal)
      → IsCommitted checksum ps wal
      → Fits wal.options.max_record_payload_len qs
      → disk.set_len_ok ≡ true
      → disk.seek_ok ≡ true
      → Outcome ps qs wal
          (commit disk wal (wal.next_seq + length qs, frames checksum wal.next_seq qs))
  commit-Outcome disk ps qs wal w f hl hs =
      let buf = frames checksum wal.next_seq qs in
      let sync = wal.options.sync_per_append in
      elim (write-cases disk sync buf wal.file (committed_file ps wal w)) [
        | inl written ↦ rw written (inl (refl, commit-good ps qs wal w f))
        | inr (e, n, failed) ↦
            rw failed (inr (e, refl, commit-failed disk ps (take n buf) wal w hl hs))
      ]

  -- A batch is refused before anything is touched, or all of it is encoded and written; an empty
  -- one is accepted and not written.
  abbrev pub commit_batch : Disk → List Bytes → Wal → WalResult (ℕ × ℕ) × Wal
  commit_batch disk [] wal = (ok (wal.next_seq, wal.next_seq), wal)
  commit_batch disk (q ∷ qs) wal =
      commit disk wal (wal.next_seq + length (q ∷ qs), frames checksum wal.next_seq (q ∷ qs))

  pub append_batch-cases :
      (disk : Disk) (qs : List Bytes) (wal : Wal)
      → wal.options.max_record_payload_len < u32_mod
      → ((e : WalError) × (append_batch checksum disk qs wal ≡ (err e, wal)))
        ⊎ (Fits wal.options.max_record_payload_len qs
            × (append_batch checksum disk qs wal ≡ commit_batch disk qs wal))
  unfolding append_batch
  append_batch-cases disk [] wal h = inr (fits_nil, refl)
  append_batch-cases disk (q ∷ qs) wal h =
      let max = wal.options.max_record_payload_len in
      elim (validate-cases max 0 (q ∷ qs) h) [
        | inl (e, refused) ↦ inl (e, rw (refused, append_batch) refl)
        | inr (n, accepted, f) ↦
            inr (f, rw (accepted, append_batch, encode_all-Fits wal.next_seq [] f) refl)
      ]

  commit-or-nothing :
      (disk : Disk) (ps qs : List Bytes) (wal : Wal)
      → IsCommitted checksum ps wal
      → Fits wal.options.max_record_payload_len qs
      → disk.set_len_ok ≡ true
      → disk.seek_ok ≡ true
      → Outcome ps qs wal (commit_batch disk qs wal)
  commit-or-nothing disk ps [] wal w f hl hs =
      inl (ap (λ n. ok (wal.next_seq, n)) (omega arith), rw (append-nil ps) w)
  commit-or-nothing disk ps (q ∷ qs) wal w f hl hs = commit-Outcome disk ps (q ∷ qs) wal w f hl hs

  -- A batch that is appended to a log whose maximum for a payload is below 2^32, whatever its payloads
  -- and wherever a call fails, is there as a whole with the numbers that were given, or it is refused
  -- and the log is as before; the calls that take back a failed write have to succeed.
  pub append_batch-Outcome :
      (disk : Disk) (ps qs : List Bytes) (wal : Wal)
      → IsCommitted checksum ps wal
      → wal.options.max_record_payload_len < u32_mod
      → disk.set_len_ok ≡ true
      → disk.seek_ok ≡ true
      → Outcome ps qs wal (append_batch checksum disk qs wal)
  append_batch-Outcome disk ps qs wal w h hl hs = elim (append_batch-cases disk qs wal h) [
    | inl (e, refused) ↦ rw refused (inr (e, refl, w))
    | inr (f, accepted) ↦ rw accepted (commit-or-nothing disk ps qs wal w f hl hs)
  ]
