-- ===== src/Wal/Reopen.antt =====
-- Opening a log (crates/wal/src/wal.rs): what is left of the file, and that the loop ends.
use trust_ledger.Common.{
  ℕ, suc, ◌-◌, ◌≤◌, ◌<◌, ◌≡◌, refl, ap, ◌∙◌, some, List, ◌++◌, take, length, ltb, ltb→ge,
  Bool-cases, inl, inr, arith, take-take, take_all, replicate, append-nil, length-take,
}
use trust_ledger.Wal.Bytes.{Bytes, Checksum, u64_mod}
use trust_ledger.Wal.File.{working}
use trust_ledger.Wal.Record.{ok}
use trust_ledger.Wal.Committed.{
  Fits, frames_len, whole_frames, frames, length-frames, opened, take-frames, length_le_frames_len,
  whole_frames_le, take-frames_len_le,
}
use trust_ledger.Wal.Recover.{scan-prefix, scanned-start}
use trust_ledger.Wal.Log.{WalOptions, Scan, scan, empty_scan, open_log, finish_open}

-- The end of `open` cuts the file behind the last frame.
pub finish_open-working :
    (options : WalOptions) (content : Bytes) (s : Scan)
    → s.verified_end ≤ length content
    → finish_open working options content s ≡ (
      ok (
        record {
          file = record { content = take s.verified_end content; cursor = s.verified_end };
          next_seq = s.next_seq;
          committed_end = s.verified_end;
          options = options;
        },
        record {
          next_seq = s.next_seq;
          truncated_bytes = length content - s.verified_end;
          verified_records = s.verified_records;
        },
      ),
      take s.verified_end content,
    )
unfolding finish_open
finish_open-working options content s h =
    let last = s.verified_end in
    let filled : take last content ++ replicate (last - length content) 0 ≡ take last content =
      let none_left : last - length content ≡ 0 = omega arith in
      ap (λ n. take last content ++ replicate n 0) none_left ∙ append-nil _ in
    elim (Bool-cases (ltb 0 (length content - last))) [
      | inl more ↦ rw (more, filled) refl
      | inr nothing ↦
          let whole : take last content ≡ content =
            take_all last content (omega (arith, ltb→ge 0 (length content - last) nothing)) in
          rw (nothing, whole) refl
    ]

module _ (checksum : Checksum) where
  -- Opening what a crash left of a log keeps the whole frames, and cuts off the rest.
  pub open_log-prefix :
      (options : WalOptions) (k : ℕ) (payloads : List Bytes)
      → Fits options.max_record_payload_len payloads
      → frames_len payloads < u64_mod
      → let content = take k (frames checksum 0 payloads) in
        let kept = take (whole_frames k payloads) payloads in
        open_log checksum working options content
        ≡ some (
          ok (
            opened checksum options kept,
            record {
              next_seq = length kept;
              truncated_bytes = length content - frames_len kept;
              verified_records = length kept;
            },
          ),
          frames checksum 0 kept,
        )
  unfolding open_log
  open_log-prefix options k payloads f h =
      let content = take k (frames checksum 0 payloads) in
      let kept = take (whole_frames k payloads) payloads in
      let loop =
        scan-prefix checksum options.max_record_payload_len (suc (length content)) k 0 0 0 payloads
          f (omega (arith, length_le_frames_len payloads)) (omega arith) in
      let inside : frames_len kept ≤ length content = omega (
        arith,
        length-take k (frames checksum 0 payloads),
        length-frames checksum 0 payloads,
        whole_frames_le k payloads,
        take-frames_len_le (whole_frames k payloads) payloads,
      ) in
      let cut : take (frames_len kept) content ≡ frames checksum 0 kept =
        take-take (frames_len kept) k _ (whole_frames_le k payloads)
        ∙ take-frames checksum 0 (whole_frames k payloads) payloads in
      let s : Scan = record {
        next_seq = length kept;
        verified_records = length kept;
        verified_end = frames_len kept;
      } in
      let found : scan checksum options.max_record_payload_len (suc (length content)) empty_scan
            content
          ≡ some (ok s) =
        loop ∙ ap (λ s. some (ok s)) (scanned-start kept) in
      rw (found, finish_open-working options content s inside, cut) refl
