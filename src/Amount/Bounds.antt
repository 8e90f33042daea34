-- ===== src/Amount/Bounds.antt =====
-- The checked arithmetic of amount.rs is exact and stays within 128 bits.
use native.Mathlib.Nat.{pow-le-pow_right, mul-div_cancel}
use trust_ledger.Common.{ℕ, ◌≡◌, ◌*◌, ◌/◌, ◌^◌, ◌≤◌, ◌<◌, arith, ap, ◌∙◌}
use trust_ledger.Vocabulary.{Amount, Scale, u128_mod}
use trust_ledger.LedgerError.{ok}
use trust_ledger.Amount.{
  new_scale, multiplier, max_scale, checked_add, checked_sub, checked_mul, checked_div,
}

power_fits : (s : ℕ) → s ≤ max_scale → 10 ^ s < u128_mod
power_fits s h =
    let below : 10 ^ s ≤ 10 ^ 18 = pow-le-pow_right (omega arith) h in omega (arith, below)

-- Every scale that `Scale::new` returns is its argument and at most 18, and its multiplier is
-- computed without overflow as that power of ten.
pub new_scale-multiplier :
    (n : ℕ) (s : Scale)
    → new_scale n ≡ ok s
    → (s ≡ n) × (s ≤ max_scale) × (multiplier s ≡ ok (10 ^ s))
unfolding new_scale multiplier
new_scale-multiplier n s h =
    let (same, small) = accepted n s h in (same, small, within s (power_fits s small))
  where
    accepted : (n s : ℕ) → new_scale n ≡ ok s → (s ≡ n) × (s ≤ max_scale)
    accepted n s h = ground arith

    within : (s : ℕ) → 10 ^ s < u128_mod → multiplier s ≡ ok (10 ^ s)
    within s h = ground arith

-- Taking away what was added gives the amount back, and what was added fits in 128 bits.
pub checked_add-checked_sub :
    (a b total : Amount)
    → checked_add a b ≡ ok total
    → (total < u128_mod) × (checked_sub total b ≡ ok a)
unfolding checked_add checked_sub
checked_add-checked_sub a b total h = ground arith

-- Dividing a product that fits by its positive factor gives the amount back.
pub checked_mul-checked_div :
    (a factor product : Amount)
    → 0 < factor
    → checked_mul a factor ≡ ok product
    → (product < u128_mod) × (checked_div product factor ≡ ok a)
unfolding checked_mul checked_div
checked_mul-checked_div a factor product positive h =
    let (same, fits) = product_fits a factor product h in
    (
      fits,
      quotient product factor a positive (ap (λ n. n / factor) same ∙ mul-div_cancel a positive),
    )
  where
    product_fits :
        (a factor product : ℕ)
        → checked_mul a factor ≡ ok product
        → (product ≡ a * factor) × (product < u128_mod)
    product_fits a factor product h = ground arith

    quotient : (n d q : ℕ) → 0 < d → n / d ≡ q → checked_div n d ≡ ok q
    quotient n d q positive h = ground arith
