-- ===== src/Wal/Record/Torn.antt =====
-- A frame that is cut off (crates/wal/src/record.rs).
use trust_ledger.Common.{
  zero, suc, ◌==◌, if◌then◌else◌, ℕ, ◌+◌, ◌-◌, ◌≤◌, ◌<◌, ◌≡◌, refl, ap, ◌∙◌, Bool, some, [], ◌++◌,
  take, drop, length, arith, length-take, take-append_ge, ltb, ne→==, lt→ltb, ltb→lt, ltb→ge,
  append_assoc, take-append_length, drop-append_length, length-append, Bool-cases, inl, inr,
}
use trust_ledger.Wal.Bytes.{Bytes, to_le_bytes, length-to_le_bytes, Checksum, u32_mod, u64_mod}
use trust_ledger.Wal.Record.Header.{length-header}
use trust_ledger.Wal.Record.RoundTrip.{
  covered, length-frame, read_payload-some, read_payload-none, next_record-header,
}
use trust_ledger.Wal.Record.{
  frame, frame_len, header, magic, version, read_payload, read_body, next_record, broken, end,
}

module _ (checksum : Checksum) where
  open checksum use {crc32c}

  -- A payload or a trailer that is cut off is noticed behind the header.
  read_body-cut :
      (seq k : ℕ) (fetch : Bool) (payload : Bytes)
      → let all = covered checksum magic version seq payload in
        k < length payload + 4
        → (rest : Bytes) × (read_body checksum fetch
              (header magic version seq (length payload))
              (take k (payload ++ to_le_bytes 4 (crc32c all)))
              (seq, length payload)
            ≡ (broken, rest))
  unfolding read_body
  read_body-cut seq k fetch payload h =
      let n = length payload in
      let head = header magic version seq n in
      let all = covered checksum magic version seq payload in
      let trailer = to_le_bytes 4 (crc32c all) in
      let reader = take k (payload ++ trailer) in
      let four = length-to_le_bytes 4 (crc32c all) in
      let size : length reader ≡ k =
        omega (arith, length-take k (payload ++ trailer), length-append payload trailer, four) in
      elim (Bool-cases (ltb k n)) [
        | inl short ↦
            let nothing =
              read_payload-none checksum n n (crc32c head) [] reader (omega arith)
                (omega (arith, ltb→lt k n short)) in
            ([], rw (nothing, read_body) refl)
        | inr full ↦
            let tail = take (k - n) trailer in
            let parts : reader ≡ payload ++ tail =
              take-append_ge k payload trailer (ltb→ge k n full) in
            let read =
              read_payload-some checksum n n head [] reader (omega arith)
                (omega (arith, ltb→ge k n full)) in
            let tail_short : length tail ≡ k - n =
              omega (arith, length-take (k - n) trailer, four) in
            let read_all : read_payload checksum n n (crc32c head) [] reader
                ≡ some (crc32c all, payload, tail) =
              rw (read, parts, take-append_length payload tail, drop-append_length payload tail)
                refl in
            let short : length (take 4 tail) ≡ k - n =
              omega (arith, length-take 4 tail, ltb→ge k n full) in
            (
              drop 4 tail,
              rw (read_all, read_body, short, lt→ltb (k - n) 4 (omega (arith, ltb→ge k n full)))
                  refl,
            )
      ]

  -- A proper part of a frame is reported as broken.
  pub next_record-cut :
      (seq max_payload_len k : ℕ) (fetch : Bool) (payload : Bytes)
      → seq < u64_mod
      → length payload ≤ max_payload_len
      → length payload < u32_mod
      → 0 < k
      → k < frame_len (length payload)
      → (rest : Bytes) × (next_record checksum max_payload_len fetch
            (take k (frame checksum magic version seq payload))
          ≡ (broken, rest))
  unfolding next_record
  next_record-cut seq max_payload_len k fetch payload hs hm hl h0 hk =
      let n = length payload in
      let h = header magic version seq n in
      let bytes = frame checksum magic version seq payload in
      let eighteen = length-header magic version seq n in
      let size : length (take k bytes) ≡ k =
        omega (arith, length-take k bytes, length-frame checksum magic version seq payload) in
      elim (Bool-cases (ltb k 18)) [
        | inl short ↦
            let got : length (take 18 (take k bytes)) ≡ k =
              omega (arith, length-take 18 (take k bytes), ltb→lt k 18 short) in
            (drop 18 (take k bytes), rw (got, ne→== k 0 (omega arith), short) refl)
        | inr full ↦
            let behind =
              payload ++ to_le_bytes 4 (crc32c (covered checksum magic version seq payload)) in
            let parts : take k bytes ≡ h ++ take (k - 18) behind =
              ap (take k) (append_assoc h payload _)
              ∙ take-append_ge k h behind (omega (arith, ltb→ge k 18 full))
              ∙ ap (λ j. h ++ take (k - j) behind) eighteen in
            let (rest, cut) =
              read_body-cut seq (k - 18) fetch payload (omega (arith, ltb→ge k 18 full)) in
            (
              rest,
              ap (next_record checksum max_payload_len fetch) parts
                  ∙ next_record-header checksum seq max_payload_len n fetch (take (k - 18) behind)
                      hs hm hl
                  ∙ cut,
            )
      ]

  -- Where the reader holds the first bytes of a frame of a payload within the maximum and of fewer
  -- than 2^32 bytes, but not all of them, none at all is reported as the end, and any others as broken.
  pub next_record-torn :
      (seq max_payload_len k : ℕ) (fetch : Bool) (payload : Bytes)
      → seq < u64_mod
      → length payload ≤ max_payload_len
      → length payload < u32_mod
      → k < frame_len (length payload)
      → (rest : Bytes) × (next_record checksum max_payload_len fetch
            (take k (frame checksum magic version seq payload))
          ≡ (if k == 0 then end else broken, rest))
  unfolding next_record
  next_record-torn seq max_payload_len zero fetch payload hs hm hl hk = ([], refl)
  next_record-torn seq max_payload_len (suc k) fetch payload hs hm hl hk =
      let (rest, cut) =
        next_record-cut seq max_payload_len (suc k) fetch payload hs hm hl (omega arith) hk in
      (rest, rw (ne→== (suc k) 0 (omega arith)) cut)
