-- ===== src/Wal/Record.antt =====
-- Record framing: crates/wal/src/record.rs and error.rs. A reader is the bytes that are left of it;
-- reading does not fail.
pub mod Header
pub mod RoundTrip
pub mod Decode
pub mod Torn
use trust_ledger.Common.{
  ℕ, zero, suc, ◌+◌, ◌-◌, ◌*◌, ◌%◌, Bool, true, false, Option, none, some, List, [], ◌∷◌, ◌++◌,
  take, drop, length, ltb, not, ◌==◌, if◌then◌else◌, min,
}
use Prim.Native.String.{String}
use trust_ledger.Wal.Bytes.{Bytes, to_le_bytes, from_le_bytes, u32_mod, Checksum}

pub data HeaderError : Type 0 where
  bad_magic : HeaderError
  unsupported_version : ℕ → HeaderError
  payload_too_large truncated_frame : HeaderError

-- The text of an operating system's error is left out.
pub data WalError : Type 0 where
  io : String → WalError
  locked : WalError
  payload_too_large : ℕ → ℕ → WalError
  invalid_header : ℕ → HeaderError → WalError
  seq_mismatch : ℕ → ℕ → ℕ → WalError
  checksum_mismatch : ℕ → WalError
  changed_while_open : WalError

pub data WalResult (A : Type 0) : Type 0 where
  ok : A → WalResult A
  err : WalError → WalResult A

-- The letters LETW, as a little-endian number.
abbrev pub magic : ℕ
magic = b'L' + 256 * (b'E' + 256 * (b'T' + 256 * b'W'))

abbrev pub version : ℕ
version = 1

abbrev pub header_len : ℕ
header_len = 18

abbrev pub trailer_len : ℕ
trailer_len = 4

abbrev pub frame_overhead : ℕ
frame_overhead = header_len + trailer_len

abbrev pub default_max_payload_len : ℕ
default_max_payload_len = 256 * 1024

abbrev pub seq_offset : ℕ
seq_offset = 6

abbrev pub len_offset : ℕ
len_offset = 14

abbrev pub version_offset : ℕ
version_offset = 4

-- The chunks in which a payload is read.
abbrev pub chunk_len : ℕ
chunk_len = 64 * 1024

pub record Record : Type 0 where
  pub seq : ℕ
  pub payload : Bytes

abbrev pub frame_len : ℕ → ℕ
frame_len payload_len = payload_len + frame_overhead

abbrev pub read_u32_le : Bytes → ℕ → ℕ
read_u32_le bytes offset = from_le_bytes (take 4 (drop offset bytes))

abbrev pub read_u64_le : Bytes → ℕ → ℕ
read_u64_le bytes offset = from_le_bytes (take 8 (drop offset bytes))

abbrev pub read_u8 : Bytes → ℕ → ℕ
read_u8 bytes offset = from_le_bytes (take 1 (drop offset bytes))

-- `read_upto`: what is read into a buffer of a length, and the reader afterwards.
abbrev pub read_upto : ℕ → Bytes → Bytes × Bytes
read_upto n reader = (take n reader, drop n reader)

pub data ScanStep : Type 0 where
  found : ℕ → ℕ → Option Bytes → ScanStep
  end broken : ScanStep

-- The header of a frame, as `encode_frame_append` lays it out.
unfoldable pub header : ℕ → ℕ → ℕ → ℕ → Bytes
header magic version seq len =
    to_le_bytes 4 magic ++ version ∷ 0 ∷ to_le_bytes 8 seq ++ to_le_bytes 4 (len % u32_mod)

module _ (checksum : Checksum) where
  open checksum use {crc32c, crc32c_append}

  -- The loop that reads the payload; `none` where the reader ends too early. Each round reads at
  -- least one byte, so the length left is fuel enough.
  unfoldable pub read_payload : ℕ → ℕ → ℕ → Bytes → Bytes → Option (ℕ × Bytes × Bytes)
  read_payload fuel zero crc payload reader = some (crc, payload, reader)
  read_payload zero (suc remaining) crc payload reader = none
  read_payload (suc fuel) (suc remaining) crc payload reader =
      let want = min (suc remaining) chunk_len in
      let bytes = take want reader in
      let got = length bytes in
      let rest =
        read_payload fuel (suc remaining - got) (crc32c_append crc bytes) (payload ++ bytes)
          (drop want reader) in
      if got == 0 then none else rest

  -- The end of `next_record`: the trailer.
  abbrev pub check_trailer : ℕ → ℕ → Bool → ℕ × Bytes × Bytes → ScanStep × Bytes
  check_trailer seq len fetch_payload (crc, payload, reader) =
      let trailer = take trailer_len reader in
      let rest = drop trailer_len reader in
      if ltb (length trailer) trailer_len
      then (broken, rest)
      else if not (crc == read_u32_le trailer 0)
      then (broken, rest)
      else (found seq len (if fetch_payload then some payload else none), rest)

  -- What a full header says, if it is that of a frame that may be read.
  unfoldable pub read_header : ℕ → Bytes → Option (ℕ × ℕ)
  read_header max_payload_len head =
      let len = read_u32_le head len_offset in
      if not (read_u32_le head 0 == magic)
      then none
      else if not (read_u8 head version_offset == version)
      then none
      else if ltb max_payload_len len
      then none
      else some (read_u64_le head seq_offset, len)

  -- The part of `next_record` behind the header.
  unfoldable pub read_body : Bool → Bytes → Bytes → ℕ × ℕ → ScanStep × Bytes
  read_body fetch_payload head reader (seq, len) =
      elim (read_payload len len (crc32c head) [] reader) [
        | none ↦ (broken, [])
        | some read ↦ check_trailer seq len fetch_payload read
      ]

  unfoldable pub next_record : ℕ → Bool → Bytes → ScanStep × Bytes
  next_record max_payload_len fetch_payload reader =
      let head = take header_len reader in
      let reader' = drop header_len reader in
      if length head == 0
      then (end, reader')
      else if ltb (length head) header_len
      then (broken, reader')
      else elim (read_header max_payload_len head) [
        | none ↦ (broken, reader')
        | some fields ↦ read_body fetch_payload head reader' fields
      ]

  -- One whole frame.
  abbrev pub frame : ℕ → ℕ → ℕ → Bytes → Bytes
  frame magic version seq payload =
      let covered = header magic version seq (length payload) ++ payload in
      covered ++ to_le_bytes 4 (crc32c covered)

  unfoldable pub encode_frame_append : ℕ → ℕ → ℕ → Bytes → ℕ → Bytes → WalResult Bytes
  encode_frame_append magic version seq payload max_payload_len dest =
      if ltb max_payload_len (length payload)
      then err (payload_too_large (length payload) max_payload_len)
      else ok (dest ++ frame magic version seq payload)

  unfoldable pub encode_append : ℕ → Bytes → ℕ → Bytes → WalResult Bytes
  unfolding encode_frame_append
  encode_append seq payload max_payload_len dest =
      encode_frame_append magic version seq payload max_payload_len dest

  -- The buffer is cleared first.
  unfoldable pub encode_frame_into : ℕ → ℕ → ℕ → Bytes → ℕ → Bytes → WalResult Bytes
  unfolding encode_frame_append
  encode_frame_into magic version seq payload max_payload_len dest =
      encode_frame_append magic version seq payload max_payload_len []

  unfoldable pub encode_frame : ℕ → ℕ → ℕ → Bytes → ℕ → WalResult Bytes
  unfolding encode_frame_into
  encode_frame magic version seq payload max_payload_len =
      encode_frame_into magic version seq payload max_payload_len []

  unfoldable pub encode_into : ℕ → Bytes → ℕ → Bytes → WalResult Bytes
  unfolding encode_frame_into
  encode_into seq payload max_payload_len dest =
      encode_frame_into magic version seq payload max_payload_len dest

  unfoldable pub encode : ℕ → Bytes → ℕ → WalResult Bytes
  unfolding encode_into
  encode seq payload max_payload_len = encode_into seq payload max_payload_len []

  unfoldable pub decode_frame_with : ℕ → ℕ → Bytes → ℕ → WalResult (ℕ × ℕ)
  decode_frame_with magic version bytes max_payload_len =
      let len = length bytes in
      let actual_version = read_u8 bytes version_offset in
      let payload_len = read_u32_le bytes len_offset in
      let covered = take (len - trailer_len) bytes in
      if ltb len frame_overhead
      then err (invalid_header 0 truncated_frame)
      else if not (read_u32_le bytes 0 == magic)
      then err (invalid_header header_len bad_magic)
      else if not (actual_version == version)
      then err (invalid_header header_len (unsupported_version actual_version))
      else if ltb max_payload_len payload_len
      then err (invalid_header header_len HeaderError.payload_too_large)
      else if not (len == frame_len payload_len)
      then err (invalid_header header_len truncated_frame)
      else if not (crc32c covered == read_u32_le bytes (len - trailer_len))
      then err (checksum_mismatch header_len)
      else ok (read_u64_le bytes seq_offset, payload_len)

  unfoldable pub decode_frame : Bytes → ℕ → WalResult (ℕ × ℕ)
  unfolding decode_frame_with
  decode_frame bytes max_payload_len = decode_frame_with magic version bytes max_payload_len
