-- ===== src/Webhook/Signature.antt =====
-- The signatures that are accepted (apps/demo/src/webhook.rs).
use trust_ledger.Common.{
  ℕ, ◌+◌, ◌-◌, ◌/◌, ◌%◌, ◌↔◌, ◌≡◌, ◌<◌, refl, sym, ap, ◌∙◌, none, some, Option, [], ◌∷◌, ltb,
  ltb→lt, ltb→ge, lt→ltb, ge→ltb, Bool-cases, inl, inr, arith,
}
use trust_ledger.Wal.Bytes.{Bytes}
use trust_ledger.Webhook.{
  Checked, ok, invalid_signature, AreBytes, bytes_cons, Hmac, decode_nibble, decode_hex, digit,
  write_hex, compute_signature, verify_signature,
}

decode_nibble-digit : (n : ℕ) → n < 16 → decode_nibble (digit n) ≡ some n
unfolding decode_nibble digit
decode_nibble-digit n h = elim (Bool-cases (ltb n 10)) [
  | inl small ↦
      let less = ltb→lt n 10 small in
      rw (small, ge→ltb (48 + n) 48 (omega arith), lt→ltb (48 + n) 58 (omega arith))
        (ap some (omega arith))
  | inr large ↦
      let least = ltb→ge n 10 large in
      rw
        (
          large,
          ge→ltb (97 + (n - 10)) 48 (omega arith),
          ge→ltb (97 + (n - 10)) 58 (omega arith),
          ge→ltb (97 + (n - 10)) 97 (omega arith),
          lt→ltb (97 + (n - 10)) 103 (omega arith),
        )
        (ap some (omega arith))
]

-- Writing bytes in hexadecimal and reading them gives them back.
pub decode_hex-write_hex :
    (bytes : Bytes) → AreBytes bytes → decode_hex (write_hex bytes) ≡ some bytes
unfolding decode_hex
decode_hex-write_hex [] h = refl
decode_hex-write_hex (b ∷ bytes) (bytes_cons _ _ small h) =
    rw
      (
        decode_hex,
        decode_nibble-digit (b / 16) (omega arith),
        decode_nibble-digit (b % 16) (omega arith),
        decode_hex-write_hex bytes h,
      )
      (ap (λ n. some (n ∷ bytes)) (omega arith))

ok_injective : {x y : Bytes} → Checked.ok x ≡ ok y → x ≡ y
ok_injective h = cc

err_is_not_ok : {A : Type 0} {x : A} → Checked.err invalid_signature ≡ ok x → ⊥
err_is_not_ok h = cc

none_is_not_some : {x : Bytes} → none ≡ some x → ⊥
none_is_not_some h = cc

some_injective : {x y : Bytes} → some x ≡ some y → x ≡ y
some_injective h = cc

module _ (hmac : Hmac) where
  with_bytes :
      (secret payload other_hex mac : Bytes) (read : Option Bytes)
      → hmac.finalize secret payload ≡ some mac
      → decode_hex other_hex ≡ read
      → (verify_signature hmac secret payload other_hex ≡ ok tt) ↔ (read ≡ some mac)
  unfolding verify_signature
  with_bytes secret payload other_hex mac none works h = (
    λ accepted. absurd (err_is_not_ok (sym (rw (verify_signature, works, h) refl) ∙ accepted)),
    λ same. absurd (none_is_not_some same),
  )
  with_bytes secret payload other_hex mac (some bytes) works h = (
    λ accepted. elim (Bool-cases (hmac.verify_slice secret payload bytes)) [
      | inl equal ↦ ap some (hmac.exact secret payload mac bytes works equal)
      | inr differs ↦
          absurd (err_is_not_ok (sym (rw (verify_signature, works, h, differs) refl) ∙ accepted))
    ],
    λ same.
        rw (verify_signature, works, h, some_injective same, hmac.accepts secret payload mac works)
          refl,
  )

  with_mac :
      (secret payload signature_hex other_hex : Bytes) (mac : Option Bytes)
      → hmac.finalize secret payload ≡ mac
      → compute_signature hmac secret payload ≡ ok signature_hex
      → (verify_signature hmac secret payload other_hex ≡ ok tt)
        ↔ (decode_hex other_hex ≡ decode_hex signature_hex)
  unfolding compute_signature verify_signature
  with_mac secret payload signature_hex other_hex none fails h =
      absurd (err_is_not_ok (sym (rw (compute_signature, fails) refl) ∙ h))
  with_mac secret payload signature_hex other_hex (some mac) works h =
      let written : write_hex mac ≡ signature_hex =
        ok_injective (sym (rw (compute_signature, works) refl) ∙ h) in
      let read : decode_hex signature_hex ≡ some mac =
        rw (sym written) (decode_hex-write_hex mac (hmac.are_bytes secret payload mac works)) in
      let verify = with_bytes secret payload other_hex mac (decode_hex other_hex) works refl in
      (λ accepted. verify.0 accepted ∙ sym read, λ same. verify.1 (same ∙ read))

  -- A signature is accepted for a payload exactly if it reads as the bytes that the signature computed
  -- for it under the same secret reads as.
  pub verify_signature-compute_signature :
      (secret payload signature_hex other_hex : Bytes)
      → compute_signature hmac secret payload ≡ ok signature_hex
      → (verify_signature hmac secret payload other_hex ≡ ok tt)
        ↔ (decode_hex other_hex ≡ decode_hex signature_hex)
  verify_signature-compute_signature secret payload signature_hex other_hex h =
      with_mac secret payload signature_hex other_hex (hmac.finalize secret payload) refl h
