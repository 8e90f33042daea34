-- ===== src/Wal/Durable.antt =====
-- What is acknowledged survives a crash (crates/wal/src/wal.rs): appending composed with opening what
-- the crash left of the file.
use trust_ledger.Common.{
  ℕ, ◌+◌, ◌-◌, ◌≤◌, ◌<◌, ◌≡◌, ◌⊎◌, refl, sym, ap, ◌∙◌, some, List, [], ◌∷◌, ◌++◌, take, length,
  Bool-cases, inl, inr, arith, take_twice, take-append_ge, take_all, take-length, subst, ge→ltb,
  append-nil, min,
}
use trust_ledger.Wal.Bytes.{Bytes, Checksum, u32_mod, u64_mod}
use trust_ledger.Wal.File.{File, Disk, working, set_len}
use trust_ledger.Wal.Record.{ok, frame_len}
use trust_ledger.Wal.Committed.{
  Fits, fits_nil, frames_len, whole_frames, frames, length-frames, frames_len-append, Fits-append,
  IsCommitted, opened,
}
use trust_ledger.Wal.Log.{Wal, WalOptions, Recovery, open_log}
use trust_ledger.Wal.Append.{append_batch, roll_back}
use trust_ledger.Wal.Written.{set_len-appended, write-cases, appended}
use trust_ledger.Wal.Appended.{append_batch-cases, committed_file, frames-batch, commit_batch}
use trust_ledger.Wal.Reopen.{open_log-prefix}

-- The whole frames among the first bytes begin with those that lie within them.
whole_frames-append :
    (k : ℕ) (ps qs : List Bytes)
    → frames_len ps ≤ k
    → take (whole_frames k (ps ++ qs)) (ps ++ qs)
      ≡ ps ++ take (whole_frames (k - frames_len ps) qs) qs
unfolding whole_frames frames_len
whole_frames-append k [] qs h = ap (λ n. take (whole_frames n qs) qs) (omega arith)
whole_frames-append k (p ∷ ps) qs h =
    let len = frame_len (length p) in
    rw (ge→ltb k len (omega arith)) (
      ap (λ xs. p ∷ xs)
        (whole_frames-append (k - len) ps qs (omega arith)
          ∙ ap (λ n. ps ++ take (whole_frames n qs) qs) (omega arith)))

-- Taking back what a failed call wrote leaves the file as it was, or does not touch it.
roll_back-content :
    (disk : Disk) (n : ℕ) (file : File) (bytes : Bytes)
    → n ≡ length file.content
    → ((roll_back disk n (appended file bytes)).content ≡ file.content)
      ⊎ ((roll_back disk n (appended file bytes)).content ≡ file.content ++ bytes)
roll_back-content disk n file bytes h =
    let cut : (set_len n (appended file bytes)).content ≡ file.content =
      set_len-appended n file bytes h in
    elim (Bool-cases disk.set_len_ok) [
      | inl shortens ↦ elim (Bool-cases disk.seek_ok) [
        | inl seeks ↦ inl (rw (shortens, seeks) cut)
        | inr stays ↦ inl (rw (shortens, stays) cut)
      ]
      | inr keeps ↦ elim (Bool-cases disk.seek_ok) [
        | inl seeks ↦ inr (rw (keeps, seeks) refl)
        | inr stays ↦ inr (rw (keeps, stays) refl)
      ]
    ]

module _ (checksum : Checksum) where
  -- Some of the first bytes of the frames, those of the payloads that were there included.
  abbrev Holds : List Bytes → List Bytes → Bytes → Type 0
  Holds ps qs content =
      (m : ℕ) × (content ≡ take m (frames checksum 0 (ps ++ qs))) × (frames_len ps ≤ m)

  appended-Holds :
      (n : ℕ) (ps qs : List Bytes) (wal : Wal)
      → IsCommitted checksum ps wal
      → Holds ps qs (wal.file.content ++ take n (frames checksum wal.next_seq qs))
  appended-Holds n ps qs wal w =
      let buf = frames checksum wal.next_seq qs in
      let size : length wal.file.content ≡ frames_len ps =
        ap length w.content ∙ length-frames checksum 0 ps in
      let beyond : take n buf ≡ take (frames_len ps + n - length wal.file.content) buf =
        ap (λ k. take k buf) (omega arith) in
      (
        frames_len ps + n,
        ap (λ bytes. wal.file.content ++ bytes) beyond
            ∙ sym (take-append_ge (frames_len ps + n) wal.file.content buf (omega arith))
            ∙ ap (take (frames_len ps + n)) (frames-batch checksum ps qs wal w),
        omega arith,
      )

  -- Nothing but the payloads that were there.
  same-Holds :
      (ps qs : List Bytes) (wal : Wal) → IsCommitted checksum ps wal → Holds ps qs wal.file.content
  same-Holds ps qs wal w =
      subst (Holds ps qs) (append-nil wal.file.content) (appended-Holds 0 ps qs wal w)

  write-Holds :
      (disk : Disk) (ps qs : List Bytes) (wal : Wal)
      → IsCommitted checksum ps wal
      → Holds ps qs (commit_batch checksum disk qs wal).1.file.content
  write-Holds disk ps [] wal w = same-Holds ps [] wal w
  write-Holds disk ps (q ∷ qs) wal w =
      let buf = frames checksum wal.next_seq (q ∷ qs) in
      elim (write-cases disk wal.options.sync_per_append buf wal.file
        (committed_file checksum ps wal w)) [
          | inl written ↦ rw written (
              subst (λ bytes. Holds ps (q ∷ qs) (wal.file.content ++ bytes)) (take-length buf)
                (appended-Holds (length buf) ps (q ∷ qs) wal w))
          | inr (e, n, failed) ↦
              rw failed
                (elim (roll_back-content disk wal.committed_end wal.file (take n buf)
                  (sym w.cursor ∙ committed_file checksum ps wal w)) [
                    | inl same ↦ rw same (same-Holds ps (q ∷ qs) wal w)
                    | inr more ↦ rw more (appended-Holds n ps (q ∷ qs) wal w)
                  ])
        ]

  -- Opening a first part of such a file that reaches behind the payloads that were there.
  open_log-Holds :
      (options : WalOptions) (ps qs : List Bytes) (content : Bytes) (k : ℕ)
      → Holds ps qs content
      → Fits options.max_record_payload_len (ps ++ qs)
      → frames_len (ps ++ qs) < u64_mod
      → frames_len ps ≤ k
      → (j : ℕ) × (recovery : Recovery) × (open_log checksum working options (take k content)
          ≡ some (
            ok (opened checksum options (ps ++ take j qs), recovery),
            frames checksum 0 (ps ++ take j qs),
          ))
  open_log-Holds options ps qs content k (m, e, hm) f hq hk =
      let n = min k m in
      let all = frames checksum 0 (ps ++ qs) in
      let part : take k content ≡ take n all = ap (take k) e ∙ take_twice k m all in
      let j = whole_frames (n - frames_len ps) qs in
      let kept : take (whole_frames n (ps ++ qs)) (ps ++ qs) ≡ ps ++ take j qs =
        whole_frames-append n ps qs (omega arith) in
      let recovery : Recovery = record {
        next_seq = length (ps ++ take j qs);
        truncated_bytes = length (take n all) - frames_len (ps ++ take j qs);
        verified_records = length (ps ++ take j qs);
      } in
      (j, recovery, rw (part, ← kept) (open_log-prefix checksum options n (ps ++ qs) f hq))

  -- The payloads of a log, and the acknowledged ones among them, are found again by opening any
  -- first part of its file that reaches behind them, wherever appending the next batch failed and
  -- however much of it a crash left.
  pub open_log-append_batch :
      (disk : Disk) (ps qs : List Bytes) (wal : Wal) (k : ℕ)
      → IsCommitted checksum ps wal
      → wal.options.max_record_payload_len < u32_mod
      → frames_len (ps ++ qs) < u64_mod
      → frames_len ps ≤ k
      → (j : ℕ) × (recovery : Recovery) × (open_log checksum working wal.options
            (take k (append_batch checksum disk qs wal).1.file.content)
          ≡ some (
            ok (opened checksum wal.options (ps ++ take j qs), recovery),
            frames checksum 0 (ps ++ take j qs),
          ))
  unfolding frames_len
  open_log-append_batch disk ps qs wal k w h hq hk =
      elim (append_batch-cases checksum disk qs wal h) [
        | inl (error, refused) ↦
            let (j, recovery, e) =
              open_log-Holds wal.options ps [] wal.file.content k (same-Holds ps [] wal w)
                (Fits-append w.fits fits_nil)
                (omega (arith, frames_len-append ps [], frames_len-append ps qs)) hk in
            let nothing : take {A = Bytes} j [] ≡ [] = take_all j [] (omega arith) in
            (0, recovery, rw refused (rw nothing at e))
        | inr (f, accepted) ↦ rw accepted (
            open_log-Holds wal.options ps qs (commit_batch checksum disk qs wal).1.file.content k
              (write-Holds disk ps qs wal w) (Fits-append w.fits f) hq hk)
      ]
