-- ===== src/Wal/Record/Header.antt =====
-- The fields of a header (crates/wal/src/record.rs).
use trust_ledger.Common.{
  [], append-nil, subst, ℕ, ◌≤◌, ◌<◌, ◌≡◌, ◌%◌, refl, ◌∙◌, some, ◌++◌, length, arith, ge→ltb,
}
use trust_ledger.Wal.Bytes.{
  Bytes, to_le_bytes, from_le_bytes, u32_mod, u64_mod, from_le_bytes-to_le_bytes, Checksum,
}
use trust_ledger.Wal.Record.{
  header, read_header, read_u32_le, read_u64_le, read_u8, seq_offset, len_offset, version_offset,
  magic, version,
}

pub length-header : (m v seq len : ℕ) → length (header m v seq len) ≡ 18
unfolding header to_le_bytes
length-header m v seq len = refl

-- What is read at each offset of a header, whatever follows it.
module _ (m v seq len : ℕ) (rest : Bytes) where
  pub header_magic : m < u32_mod → read_u32_le (header m v seq len ++ rest) 0 ≡ m
  unfolding header to_le_bytes
  header_magic h = from_le_bytes-to_le_bytes 4 m h

  pub header_version : read_u8 (header m v seq len ++ rest) version_offset ≡ v
  unfolding header to_le_bytes from_le_bytes
  header_version = omega arith

  pub header_seq : seq < u64_mod → read_u64_le (header m v seq len ++ rest) seq_offset ≡ seq
  unfolding header to_le_bytes
  header_seq h = from_le_bytes-to_le_bytes 8 seq h

  -- The length is truncated to 32 bits.
  pub truncated_len : read_u32_le (header m v seq len ++ rest) len_offset ≡ len % u32_mod
  unfolding header to_le_bytes
  truncated_len = from_le_bytes-to_le_bytes 4 (len % u32_mod) (omega arith)

  pub header_len : len < u32_mod → read_u32_le (header m v seq len ++ rest) len_offset ≡ len
  header_len h = truncated_len ∙ omega arith

-- A header with a known magic number and version is read back.
pub read_header_lem :
    (checksum : Checksum) (max_payload_len seq len : ℕ)
    → seq < u64_mod
    → len < u32_mod
    → len ≤ max_payload_len
    → read_header checksum max_payload_len (header magic version seq len) ≡ some (seq, len)
unfolding read_header
read_header_lem checksum max_payload_len seq len hs hl hm =
    let h = header magic version seq len in
    let whole : h ++ [] ≡ h = append-nil h in
    let is_magic : read_u32_le h 0 ≡ magic =
      subst (λ bytes. read_u32_le bytes 0 ≡ magic) whole
        (header_magic magic version seq len [] (omega arith)) in
    let is_version : read_u8 h version_offset ≡ version =
      subst (λ bytes. read_u8 bytes version_offset ≡ version) whole
        (header_version magic version seq len []) in
    let is_seq : read_u64_le h seq_offset ≡ seq =
      subst (λ bytes. read_u64_le bytes seq_offset ≡ seq) whole
        (header_seq magic version seq len [] hs) in
    let is_len : read_u32_le h len_offset ≡ len =
      subst (λ bytes. read_u32_le bytes len_offset ≡ len) whole
        (header_len magic version seq len [] hl) in
    rw (is_magic, is_version, is_seq, is_len, ge→ltb max_payload_len len hm) refl
