-- ===== src/Wal/Record/Decode.antt =====
-- Encoding and decoding whole frames (crates/wal/src/record.rs).
use trust_ledger.Common.{
  Bool-cases, inl, inr, ltb, ltb→lt, ltb→ge, ne→==, ◌%◌, if◌then◌else◌, ℕ, ◌-◌, ◌≤◌, ◌<◌, ◌≡◌, refl,
  sym, ap, ◌∙◌, true, ◌++◌, take, drop, length, arith, take_exact, drop_exact, take_all,
  append_assoc, ◌==◌, ==-refl, ge→ltb, lt→ltb, length-append, subst,
}
use trust_ledger.Wal.Bytes.{
  Bytes, to_le_bytes, from_le_bytes, length-to_le_bytes, Checksum, u32_mod, u64_mod,
  from_le_bytes-to_le_bytes,
}
use trust_ledger.Wal.Record.Header.{
  header_magic, header_version, header_seq, header_len, truncated_len,
}
use trust_ledger.Wal.Record.RoundTrip.{covered, length-frame}
use trust_ledger.Wal.Record.{
  frame, frame_len, header, magic, version, decode_frame, decode_frame_with, encode, encode_into,
  encode_append, encode_frame, encode_frame_append, encode_frame_into, ok, err, payload_too_large,
  invalid_header, truncated_frame, trailer_len, read_u32_le, read_u64_le, read_u8, version_offset,
  len_offset, seq_offset, frame_overhead,
}

module _ (checksum : Checksum) where
  open checksum use {crc32c, bounded}

  -- What is encoded is appended as one frame.
  pub encode_append_lem :
      (seq max_payload_len : ℕ) (payload dest : Bytes)
      → length payload ≤ max_payload_len
      → encode_append checksum seq payload max_payload_len dest
        ≡ ok (dest ++ frame checksum magic version seq payload)
  unfolding encode_append encode_frame_append
  encode_append_lem seq max_payload_len payload dest h =
      rw (ge→ltb max_payload_len (length payload) h) refl

  pub encode_lem :
      (seq max_payload_len : ℕ) (payload : Bytes)
      → length payload ≤ max_payload_len
      → encode checksum seq payload max_payload_len ≡ ok (frame checksum magic version seq payload)
  unfolding encode encode_into encode_frame_into encode_frame_append
  encode_lem seq max_payload_len payload h = rw (ge→ltb max_payload_len (length payload) h) refl

  -- A payload above the maximum is refused, whatever stands in the buffer.
  pub encode-too_large :
      (seq max_payload_len : ℕ) (payload : Bytes)
      → max_payload_len < length payload
      → encode checksum seq payload max_payload_len
        ≡ err (payload_too_large (length payload) max_payload_len)
  unfolding encode encode_into encode_frame_into encode_frame_append
  encode-too_large seq max_payload_len payload h =
      rw (lt→ltb max_payload_len (length payload) h) refl

  -- Bytes that pass every test are accepted.
  decode_frame-ok :
      (m v : ℕ) (bytes : Bytes) (seq max_payload_len n : ℕ)
      → length bytes ≡ frame_len n
      → read_u32_le bytes 0 ≡ m
      → read_u8 bytes version_offset ≡ v
      → read_u64_le bytes seq_offset ≡ seq
      → read_u32_le bytes len_offset ≡ n
      → n ≤ max_payload_len
      → crc32c (take (length bytes - trailer_len) bytes)
        ≡ read_u32_le bytes (length bytes - trailer_len)
      → decode_frame_with checksum m v bytes max_payload_len ≡ ok (seq, n)
  unfolding decode_frame_with
  decode_frame-ok m v bytes seq max_payload_len n size is_magic is_version is_seq is_len hm is_crc =
      let long = ge→ltb (length bytes) frame_overhead (omega arith) in
      let exact : (length bytes == frame_len n) ≡ true =
        subst (λ k. (length bytes == k) ≡ true) size (==-refl (length bytes)) in
      rw
        (
          is_magic,
          is_version,
          is_seq,
          is_len,
          is_crc,
          long,
          ge→ltb max_payload_len n hm,
          exact,
          ==-refl m,
          ==-refl v,
          ==-refl (read_u32_le bytes (length bytes - trailer_len)),
        )
        refl

  -- A whole frame passes every test of the decoder.
  pub decode_frame-frame :
      (m v seq max_payload_len : ℕ) (payload : Bytes)
      → m < u32_mod
      → seq < u64_mod
      → length payload < u32_mod
      → length payload ≤ max_payload_len
      → decode_frame_with checksum m v (frame checksum m v seq payload) max_payload_len
        ≡ ok (seq, length payload)
  decode_frame-frame m v seq max_payload_len payload h hs hl hm =
      let n = length payload in
      let all = covered checksum m v seq payload in
      let trailer = to_le_bytes 4 (crc32c all) in
      let bytes = all ++ trailer in
      let parts = append_assoc (header m v seq n) payload trailer in
      let four = length-to_le_bytes 4 (crc32c all) in
      let room : length all ≡ length bytes - trailer_len =
        omega (arith, length-append all trailer, four) in
      let front : take (length bytes - trailer_len) bytes ≡ all = take_exact all trailer room in
      let back : take 4 (drop (length bytes - trailer_len) bytes) ≡ trailer =
        ap (take 4) (drop_exact all trailer room) ∙ take_all 4 trailer (omega (arith, four)) in
      decode_frame-ok m v bytes seq max_payload_len n (length-frame checksum m v seq payload)
        (rw parts (header_magic m v seq n (payload ++ trailer) h))
        (rw parts (header_version m v seq n (payload ++ trailer)))
        (rw parts (header_seq m v seq n (payload ++ trailer) hs))
        (rw parts (header_len m v seq n (payload ++ trailer) hl)) hm
        (ap crc32c front
          ∙ sym (ap from_le_bytes back ∙ from_le_bytes-to_le_bytes 4 (crc32c all) (bounded all)))

  -- Bytes whose header gives another length are refused.
  decode_frame-wrong_len :
      (bytes : Bytes) (max_payload_len n k : ℕ)
      → length bytes ≡ frame_len n
      → read_u32_le bytes 0 ≡ magic
      → read_u8 bytes version_offset ≡ version
      → read_u32_le bytes len_offset ≡ k
      → k ≤ max_payload_len
      → k < n
      → decode_frame_with checksum magic version bytes max_payload_len
        ≡ err (invalid_header 18 truncated_frame)
  unfolding decode_frame_with
  decode_frame-wrong_len bytes max_payload_len n k size is_magic is_version is_len hm differs =
      rw
        (
          is_magic,
          is_version,
          is_len,
          ge→ltb (length bytes) frame_overhead (omega arith),
          ge→ltb max_payload_len k hm,
          ne→== (length bytes) (frame_len k) (omega arith),
        )
        refl

  decode_frame-truncated :
      (seq max_payload_len : ℕ) (payload : Bytes)
      → u32_mod ≤ length payload
      → length payload ≤ max_payload_len
      → decode_frame_with checksum magic version
          (frame checksum magic version seq payload)
          max_payload_len
        ≡ err (invalid_header 18 truncated_frame)
  decode_frame-truncated seq max_payload_len payload large hm =
      let n = length payload in
      let trailer = to_le_bytes 4 (crc32c (covered checksum magic version seq payload)) in
      let parts = append_assoc (header magic version seq n) payload trailer in
      decode_frame-wrong_len (frame checksum magic version seq payload) max_payload_len n
        (n % u32_mod) (length-frame checksum magic version seq payload)
        (rw parts (header_magic magic version seq n (payload ++ trailer) (omega arith)))
        (rw parts (header_version magic version seq n (payload ++ trailer)))
        (rw parts (truncated_len magic version seq n (payload ++ trailer))) (omega arith)
        (omega arith)

  -- A payload within the maximum is encoded, and what is encoded under a sequence number of 64 bits is
  -- decoded to that number and the length of the payload, if that is below 2^32; a longer one, whose
  -- length does not fit the header, is refused as a truncated frame.
  pub decode_frame-encode :
      (seq max_payload_len : ℕ) (payload : Bytes)
      → seq < u64_mod
      → length payload ≤ max_payload_len
      → (bytes : Bytes) × (encode checksum seq payload max_payload_len ≡ ok bytes)
        × (decode_frame checksum bytes max_payload_len ≡ (
            if ltb (length payload) u32_mod
            then ok (seq, length payload)
            else err (invalid_header 18 truncated_frame)))
  unfolding decode_frame
  decode_frame-encode seq max_payload_len payload hs hm = (
    frame checksum magic version seq payload,
    encode_lem seq max_payload_len payload hm,
    elim (Bool-cases (ltb (length payload) u32_mod)) [
      | inl small ↦ rw small (
          decode_frame-frame magic version seq max_payload_len payload (omega arith) hs
            (ltb→lt (length payload) u32_mod small) hm)
      | inr large ↦ rw large (
          decode_frame-truncated seq max_payload_len payload (ltb→ge (length payload) u32_mod large)
            hm)
    ],
  )

  -- The same for a caller with a magic number of its own.
  pub encode_frame_lem :
      (m v seq max_payload_len : ℕ) (payload : Bytes)
      → length payload ≤ max_payload_len
      → encode_frame checksum m v seq payload max_payload_len ≡ ok (frame checksum m v seq payload)
  unfolding encode_frame encode_frame_into encode_frame_append
  encode_frame_lem m v seq max_payload_len payload h =
      rw (ge→ltb max_payload_len (length payload) h) refl
