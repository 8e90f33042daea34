-- ===== src/Codec.antt =====
-- Journal event batches as bytes: crates/ledger-core/src/codec.rs. What the crate postcard does is a
-- parameter; an error of it is its text.
use Prim.Native.String.{String}
use trust_ledger.Common.{◌≡◌, ◌⊎◌, inl, inr, List, [], ◌∷◌, ◌++◌, append-nil, ap, sym, refl, ◌∙◌}
use trust_ledger.Journal.{LedgerEvent}
use trust_ledger.Wal.Bytes.{Bytes}

pub data CodecError : Type 0 where
  encode : String → CodecError
  decode : String → CodecError

pub data CodecResult (A : Type 0) : Type 0 where
  ok : A → CodecResult A
  err : CodecError → CodecResult A

-- What is serialized is read back, and what follows it is left.
pub record Postcard : Type 0 where
  pub to_allocvec : List LedgerEvent → String ⊎ Bytes
  pub take_from_bytes : Bytes → String ⊎ (List LedgerEvent × Bytes)
  pub reads_back :
      (events : List LedgerEvent) (bytes rest : Bytes)
      → to_allocvec events ≡ inr bytes
      → take_from_bytes (bytes ++ rest) ≡ inr (events, rest)

-- `map_err(|err| CodecError::Encode(err.to_string()))`
abbrev pub map_encode : String ⊎ Bytes → CodecResult Bytes
map_encode (inl text) = err (encode text)
map_encode (inr bytes) = ok bytes

map_encode-ok : (r : String ⊎ Bytes) (bytes : Bytes) → map_encode r ≡ ok bytes → r ≡ inr bytes
map_encode-ok (inl text) bytes h = cc
map_encode-ok (inr bytes') bytes h = cc

module _ (postcard : Postcard) (leftover_text : Bytes → String) where
  abbrev pub encode_events : List LedgerEvent → CodecResult Bytes
  encode_events events = map_encode (postcard.to_allocvec events)

  -- Bytes that are left over are refused.
  abbrev pub whole_batch : List LedgerEvent × Bytes → CodecResult (List LedgerEvent)
  whole_batch (events, []) = ok events
  whole_batch (events, b ∷ remainder) = err (decode (leftover_text (b ∷ remainder)))

  abbrev pub decode_events : Bytes → CodecResult (List LedgerEvent)
  decode_events bytes = elim (postcard.take_from_bytes bytes) [
    | inl text ↦ err (decode text)
    | inr read ↦ whole_batch read
  ]

  -- A batch that was encoded is decoded.
  pub decode_events-encode_events :
      (events : List LedgerEvent) (bytes : Bytes)
      → encode_events events ≡ ok bytes
      → decode_events bytes ≡ ok events
  decode_events-encode_events events bytes h =
      let serialized = map_encode-ok (postcard.to_allocvec events) bytes h in
      let read : postcard.take_from_bytes bytes ≡ inr (events, []) =
        ap postcard.take_from_bytes (sym (append-nil bytes))
        ∙ postcard.reads_back events bytes [] serialized in
      rw (read, decode_events) refl
