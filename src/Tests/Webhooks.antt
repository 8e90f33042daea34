-- ===== src/Tests/Webhooks.antt =====
-- The theorems about webhooks at concrete deliveries.
use trust_ledger.Common.{
  ℕ, ◌+◌, ◌%◌, ◌≡◌, ◌↔◌, refl, ap, ◌∙◌, Bool, true, false, Option, none, some, List, [], ◌∷◌, ◌==◌,
  ==-refl, ==→eq, arith, subst,
}
use trust_ledger.Wal.Bytes.{Bytes}
use trust_ledger.Webhook.{
  Hmac, AreBytes, bytes_nil, bytes_cons, ok, decode_hex, compute_signature, verify_signature,
  decode_nibble, digit,
}
use trust_ledger.Webhook.Signature.{verify_signature-compute_signature}
use trust_ledger.Webhook.Dedup.{acceptances, acceptances_once}

-- Three deliveries of event 7, and one of another.
abbrev deliveries : List ℕ
deliveries = 7 ∷ 8 ∷ 7 ∷ 7 ∷ []

acceptances_once_example : acceptances 7 deliveries [] ≡ 1
acceptances_once_example = acceptances_once 7 deliveries []

-- A code of one byte: the sum of the payload and of the secret's first byte.
abbrev sum : Bytes → ℕ
sum [] = 0
sum (b ∷ bytes) = b + sum bytes

abbrev code : Bytes → Bytes → Option Bytes
code [] payload = none
code (key ∷ secret) payload = some ((key + sum payload) % 256 ∷ [])

abbrev is_code : Option Bytes → Bytes → Bool
is_code none other = false
is_code (some []) other = false
is_code (some (m ∷ ms)) [] = false
is_code (some (m ∷ ms)) (b ∷ []) = b == m
is_code (some (m ∷ ms)) (b ∷ c ∷ bytes) = false

is_bytes : (secret payload mac : Bytes) → code secret payload ≡ some mac → AreBytes mac
is_bytes [] payload mac h = absurd (is_not h)
  where
    is_not : none ≡ some mac → ⊥
    is_not e = cc
is_bytes (key ∷ secret) payload mac h =
    subst AreBytes (injective h) (bytes_cons ((key + sum payload) % 256) [] (omega arith) bytes_nil)
  where
    injective :
        some ((key + sum payload) % 256 ∷ []) ≡ some mac → (key + sum payload) % 256 ∷ [] ≡ mac
    injective e = cc

is_accepted :
    (secret payload mac : Bytes)
    → code secret payload ≡ some mac
    → is_code (code secret payload) mac ≡ true
is_accepted [] payload mac h = absurd (is_not h)
  where
    is_not : none ≡ some mac → ⊥
    is_not e = cc
is_accepted (key ∷ secret) payload mac h =
    subst (λ m. is_code (code (key ∷ secret) payload) m ≡ true) (injective h)
      (==-refl ((key + sum payload) % 256))
  where
    injective :
        some ((key + sum payload) % 256 ∷ []) ≡ some mac → (key + sum payload) % 256 ∷ [] ≡ mac
    injective e = cc

false_is_not_true : false ≡ true → ⊥
false_is_not_true h = cc

is_exact : (m : ℕ) (other : Bytes) → is_code (some (m ∷ [])) other ≡ true → other ≡ m ∷ []
is_exact m [] h = absurd (false_is_not_true h)
is_exact m (b ∷ []) h = ap (λ n. n ∷ []) (==→eq b m h)
is_exact m (b ∷ c ∷ other) h = absurd (false_is_not_true h)

is_the_code :
    (secret payload mac other : Bytes)
    → code secret payload ≡ some mac
    → is_code (code secret payload) other ≡ true
    → other ≡ mac
is_the_code [] payload mac other h equal = absurd (false_is_not_true equal)
is_the_code (key ∷ secret) payload mac other h equal =
    is_exact ((key + sum payload) % 256) other equal ∙ injective h
  where
    injective :
        some ((key + sum payload) % 256 ∷ []) ≡ some mac → (key + sum payload) % 256 ∷ [] ≡ mac
    injective e = cc

abbrev sum_mac : Hmac
sum_mac = record {
  finalize = code;
  verify_slice = λ secret payload other. is_code (code secret payload) other;
  are_bytes = is_bytes;
  accepts = is_accepted;
  exact = is_the_code;
}

-- The code of the payload 100, 50 under the secret 24 is ae, and AE is accepted for it.
signature_is : compute_signature sum_mac (24 ∷ []) (100 ∷ 50 ∷ []) ≡ ok (97 ∷ 101 ∷ [])
unfolding compute_signature digit
signature_is = refl

verify_signature-compute_signature_example :
    (verify_signature sum_mac (24 ∷ []) (100 ∷ 50 ∷ []) (65 ∷ 69 ∷ []) ≡ ok tt)
    ↔ (decode_hex (65 ∷ 69 ∷ []) ≡ decode_hex (97 ∷ 101 ∷ []))
verify_signature-compute_signature_example =
    verify_signature-compute_signature sum_mac (24 ∷ []) (100 ∷ 50 ∷ []) (97 ∷ 101 ∷ [])
      (65 ∷ 69 ∷ []) signature_is

upper_case : decode_hex (65 ∷ 69 ∷ []) ≡ decode_hex (97 ∷ 101 ∷ [])
unfolding decode_hex decode_nibble
upper_case = refl
