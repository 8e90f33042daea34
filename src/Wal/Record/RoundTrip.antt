-- ===== src/Wal/Record/RoundTrip.antt =====
-- What is framed is read back, and a frame that is cut off is not (crates/wal/src/record.rs).
use trust_ledger.Common.{
  ℕ, zero, suc, ◌-◌, ◌≤◌, ◌<◌, ◌≡◌, refl, ap, ◌∙◌, Bool, false, none, some, [], ◌++◌, take, drop,
  length, arith, min, length-take, length-drop, take_exact, drop_exact, take_all, take-append-take,
  drop-drop, append_assoc, append-nil, ◌==◌, if◌then◌else◌, ==→ne, ==-refl, length-append,
  take-append_length, drop-append_length, Bool-cases, inl, inr,
}
use trust_ledger.Wal.Bytes.{
  Bytes, to_le_bytes, from_le_bytes, length-to_le_bytes, Checksum, u32_mod, u64_mod,
  from_le_bytes-to_le_bytes,
}
use trust_ledger.Wal.Record.Header.{length-header, read_header_lem}
use trust_ledger.Wal.Record.{
  read_payload, read_body, chunk_len, next_record, frame, header, check_trailer, magic, version,
  found, frame_len,
}

module _ (checksum : Checksum) where
  open checksum use {crc32c, crc32c_append, appends, bounded}

  -- Chunk by chunk, the loop reads the payload and its checksum, whatever was covered before.
  pub read_payload-some :
      (fuel n : ℕ) (seen payload reader : Bytes)
      → n ≤ fuel
      → n ≤ length reader
      → read_payload checksum fuel n (crc32c seen) payload reader
        ≡ some (crc32c (seen ++ take n reader), payload ++ take n reader, drop n reader)
  unfolding read_payload
  read_payload-some fuel zero seen payload reader h k =
      rw (append-nil seen, append-nil payload) refl
  read_payload-some zero (suc n) seen payload reader h k = elim h [ ]
  read_payload-some (suc fuel) (suc n) seen payload reader h k =
      let w = min (suc n) chunk_len in
      let got : length (take w reader) ≡ w = omega (arith, length-take w reader) in
      let some_got : (w == 0) ≡ false = ground arith in
      let again =
        read_payload-some fuel (suc n - w) (seen ++ take w reader) (payload ++ take w reader)
          (drop w reader) (omega arith) (omega (arith, length-drop w reader)) in
      let joined : (xs : Bytes)
          → (xs ++ take w reader) ++ take (suc n - w) (drop w reader) ≡ xs ++ take (suc n) reader =
        λ (xs : Bytes).
          append_assoc xs _ _
          ∙ ap (λ ys. xs ++ ys) (take-append-take w (suc n) reader (omega arith)) in
      rw (got, some_got, appends seen (take w reader))
        (again ∙ rw (joined seen, joined payload, drop-drop w (suc n) reader (omega arith)) refl)

  -- A reader that ends inside the payload is noticed.
  pub read_payload-none :
      (fuel n crc : ℕ) (payload reader : Bytes)
      → n ≤ fuel
      → length reader < n
      → read_payload checksum fuel n crc payload reader ≡ none
  unfolding read_payload
  read_payload-none fuel zero crc payload reader h k = elim k [ ]
  read_payload-none zero (suc n) crc payload reader h k = elim h [ ]
  read_payload-none (suc fuel) (suc n) crc payload reader h k =
      let w = min (suc n) chunk_len in
      let got = length (take w reader) in
      elim (Bool-cases (got == 0)) [
        | inl nothing ↦ rw nothing refl
        | inr something ↦ rw something (
            read_payload-none fuel (suc n - got) (crc32c_append crc (take w reader))
              (payload ++ take w reader) (drop w reader) (omega (arith, ==→ne got 0 something))
              (omega (arith, ==→ne got 0 something, length-drop w reader, length-take w reader)))
      ]

  -- The part of a frame that its checksum covers, and the frame as three parts and what follows.
  abbrev pub covered : ℕ → ℕ → ℕ → Bytes → Bytes
  covered m v seq payload = header m v seq (length payload) ++ payload

  pub frame_parts :
      (m v seq : ℕ) (payload rest : Bytes)
      → frame checksum m v seq payload ++ rest
        ≡ header m v seq (length payload)
          ++ (payload ++ (to_le_bytes 4 (crc32c (covered m v seq payload)) ++ rest))
  frame_parts m v seq payload rest = simp append_assoc

  -- The trailer of a frame is its checksum.
  check_trailer_lem :
      (seq len : ℕ) (fetch : Bool) (all payload rest : Bytes)
      → check_trailer checksum seq len fetch
          (crc32c all, payload, to_le_bytes 4 (crc32c all) ++ rest)
        ≡ (found seq len (if fetch then some payload else none), rest)
  check_trailer_lem seq len fetch all payload rest =
      let trailer = to_le_bytes 4 (crc32c all) in
      let four = length-to_le_bytes 4 (crc32c all) in
      let head : take 4 (trailer ++ rest) ≡ trailer = take_exact trailer rest four in
      let tail : drop 4 (trailer ++ rest) ≡ rest = drop_exact trailer rest four in
      let value : from_le_bytes trailer ≡ crc32c all =
        from_le_bytes-to_le_bytes 4 (crc32c all) (bounded all) in
      let whole : take 4 trailer ≡ trailer = take_all 4 trailer (omega (arith, four)) in
      rw (head, tail, four, whole, value, ==-refl (crc32c all)) refl

  -- Behind a header, the payload and the trailer are read.
  read_body-frame :
      (seq : ℕ) (fetch : Bool) (payload rest : Bytes)
      → let all = covered magic version seq payload in
        read_body checksum fetch
          (header magic version seq (length payload))
          (payload ++ (to_le_bytes 4 (crc32c all) ++ rest))
          (seq, length payload)
        ≡ (found seq (length payload) (if fetch then some payload else none), rest)
  unfolding read_body
  read_body-frame seq fetch payload rest =
      let all = covered magic version seq payload in
      let tail = to_le_bytes 4 (crc32c all) ++ rest in
      let n = length payload in
      let read =
        read_payload-some n n (header magic version seq n) [] (payload ++ tail) (omega arith)
          (omega (arith, length-append payload tail)) in
      let all_read : read_payload checksum n n (crc32c (header magic version seq n)) []
            (payload ++ tail)
          ≡ some (crc32c all, payload, tail) =
        rw (read, take-append_length payload tail, drop-append_length payload tail) refl in
      rw (all_read, read_body) (check_trailer_lem seq n fetch all payload rest)

  -- A whole header that may be read leaves the rest to what stands behind it.
  pub next_record-header :
      (seq max_payload_len len : ℕ) (fetch : Bool) (behind : Bytes)
      → seq < u64_mod
      → len ≤ max_payload_len
      → len < u32_mod
      → next_record checksum max_payload_len fetch (header magic version seq len ++ behind)
        ≡ read_body checksum fetch (header magic version seq len) behind (seq, len)
  unfolding next_record
  next_record-header seq max_payload_len len fetch behind hs hm hl =
      let h = header magic version seq len in
      let eighteen = length-header magic version seq len in
      let head : take 18 (h ++ behind) ≡ h = take_exact h behind eighteen in
      let tail : drop 18 (h ++ behind) ≡ behind = drop_exact h behind eighteen in
      let fields = read_header_lem checksum max_payload_len seq len hs hl hm in
      rw (head, tail, eighteen, fields) (rw (head, tail) refl)

  -- Reading in front of a frame of a payload within the maximum and of fewer than 2^32 bytes, with a
  -- sequence number of 64 bits, finds the record, with its payload if it is wanted, and leaves what
  -- follows the frame.
  pub next_record-frame :
      (seq max_payload_len : ℕ) (fetch : Bool) (payload rest : Bytes)
      → seq < u64_mod
      → length payload ≤ max_payload_len
      → length payload < u32_mod
      → next_record checksum max_payload_len fetch
          (frame checksum magic version seq payload ++ rest)
        ≡ (found seq (length payload) (if fetch then some payload else none), rest)
  next_record-frame seq max_payload_len fetch payload rest hs hm hl =
      ap (next_record checksum max_payload_len fetch) (frame_parts magic version seq payload rest)
      ∙ next_record-header seq max_payload_len (length payload) fetch _ hs hm hl
      ∙ read_body-frame seq fetch payload rest

  -- The length of a frame.
  pub length-frame :
      (m v seq : ℕ) (payload : Bytes)
      → length (frame checksum m v seq payload) ≡ frame_len (length payload)
  length-frame m v seq payload = omega (
    arith,
    length-append (covered m v seq payload) (to_le_bytes 4 (crc32c (covered m v seq payload))),
    length-append (header m v seq (length payload)) payload,
    length-header m v seq (length payload),
    length-to_le_bytes 4 (crc32c (covered m v seq payload)),
  )
