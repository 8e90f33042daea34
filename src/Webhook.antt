-- ===== src/Webhook.antt =====
-- Webhook verification and replay protection: apps/demo/src/webhook.rs. Text is its bytes; an event's
-- identifier is only compared, so it is a number. The crate hmac is a parameter, and the lock of the
-- deduplicator is held throughout a call and is not poisoned.
pub mod Signature
pub mod Dedup
use trust_ledger.Common.{
  ℕ, suc, ◌+◌, ◌-◌, ◌*◌, ◌/◌, ◌%◌, ◌≡◌, ◌<◌, Bool, true, false, not, ◌&&◌, ◌||◌, ◌==◌, ltb,
  if◌then◌else◌, Option, none, some, List, [], ◌∷◌,
}
use trust_ledger.Wal.Bytes.{Bytes}

pub data WebhookError : Type 0 where
  invalid_signature : WebhookError
  expired_timestamp : ℕ → ℕ → WebhookError
  duplicate_event_id : ℕ → WebhookError
  missing_signature : WebhookError
  payload_error : Bytes → WebhookError

pub data Checked (A : Type 0) : Type 0 where
  ok : A → Checked A
  err : WebhookError → Checked A

-- Numbers that one byte writes.
pub data AreBytes : Bytes → Type 0 where
  bytes_nil : AreBytes []
  bytes_cons : (b : ℕ) (bytes : Bytes) → b < 256 → AreBytes bytes → AreBytes (b ∷ bytes)

-- HMAC-SHA256: the code of a payload under a secret, if the secret can be used, and the comparison of
-- a code with it in constant time.
pub record Hmac : Type 0 where
  pub finalize : Bytes → Bytes → Option Bytes
  pub verify_slice : Bytes → Bytes → Bytes → Bool
  pub are_bytes : (secret payload mac : Bytes) → finalize secret payload ≡ some mac → AreBytes mac
  pub accepts :
      (secret payload mac : Bytes)
      → finalize secret payload ≡ some mac
      → verify_slice secret payload mac ≡ true
  pub exact :
      (secret payload mac other : Bytes)
      → finalize secret payload ≡ some mac
      → verify_slice secret payload other ≡ true
      → other ≡ mac

abbrev pub in_range : ℕ → ℕ → ℕ → Bool
in_range first last b = not (ltb b first) && ltb b (last + 1)

unfoldable pub decode_nibble : ℕ → Option ℕ
decode_nibble b =
    if in_range b'0' b'9' b
    then some (b - b'0')
    else if in_range b'a' b'f' b
    then some (b - b'a' + 10)
    else if in_range b'A' b'F' b
    then some (b - b'A' + 10)
    else none

-- `decode_hex`, two characters at a time; an odd number of them is refused.
unfoldable pub decode_hex : Bytes → Option Bytes
decode_hex [] = some []
decode_hex (a ∷ []) = none
decode_hex (a ∷ b ∷ chars) = elim (decode_nibble a) [
  | none ↦ none
  | some hi ↦ elim (decode_nibble b) [
    | none ↦ none
    | some lo ↦ elim (decode_hex chars) [ none ↦ none | some bytes ↦ some ((hi * 16 + lo) ∷ bytes) ]
  ]
]

-- The digits that `{:02x}` writes.
unfoldable pub digit : ℕ → ℕ
digit n = if ltb n 10 then b'0' + n else b'a' + (n - 10)

abbrev pub write_hex : Bytes → Bytes
write_hex [] = []
write_hex (b ∷ bytes) = digit (b / 16) ∷ digit (b % 16) ∷ write_hex bytes

module _ (hmac : Hmac) where
  unfoldable pub compute_signature : Bytes → Bytes → Checked Bytes
  compute_signature secret payload = elim (hmac.finalize secret payload) [
    | none ↦ err invalid_signature
    | some mac ↦ ok (write_hex mac)
  ]

  unfoldable pub verify_signature : Bytes → Bytes → Bytes → Checked (Unit {0})
  verify_signature secret payload signature_hex = elim (hmac.finalize secret payload) [
    | none ↦ err invalid_signature
    | some mac ↦ elim (decode_hex signature_hex) [
      | none ↦ err invalid_signature
      | some signature_bytes ↦
          if hmac.verify_slice secret payload signature_bytes then ok tt else err invalid_signature
    ]
  ]

-- `u64::abs_diff`
abbrev pub abs_diff : ℕ → ℕ → ℕ
abs_diff a b = (a - b) + (b - a)

unfoldable pub verify_freshness : ℕ → ℕ → ℕ → Checked (Unit {0})
verify_freshness event_time current_time max_allowed_seconds =
    let age = abs_diff current_time event_time in
    if ltb max_allowed_seconds age then err (expired_timestamp age max_allowed_seconds) else ok tt

-- The identifiers that were seen.
abbrev pub WebhookDeduplicator : Type 0
WebhookDeduplicator = List ℕ

abbrev pub contains : ℕ → WebhookDeduplicator → Bool
contains event_id [] = false
contains event_id (seen ∷ events) = (event_id == seen) || contains event_id events

unfoldable pub check_and_record : ℕ → WebhookDeduplicator → Checked (Unit {0}) × WebhookDeduplicator
check_and_record event_id set =
    if contains event_id set
    then (err (duplicate_event_id event_id), set)
    else (ok tt, event_id ∷ set)
