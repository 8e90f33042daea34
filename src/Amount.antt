-- ===== src/Amount.antt =====
-- Checked arithmetic of amounts and the scales of crates/ledger-core/src/amount.rs. A u128
-- overflow is a result of 2 ^ 128 or more.
pub mod Bounds
use trust_ledger.Common.{ℕ, ◌+◌, ◌-◌, ◌*◌, ◌/◌, ◌^◌, ltb, ◌==◌, if◌then◌else◌}
use trust_ledger.Vocabulary.{Amount, Scale, u128_mod}
use trust_ledger.LedgerError.{Result, ok, err, invalid_scale, arithmetic_overflow, division_by_zero}

abbrev pub max_scale : ℕ
max_scale = 18

-- `Scale::new`
unfoldable pub new_scale : ℕ → Result Scale
new_scale scale = if ltb max_scale scale then err (invalid_scale scale) else ok scale

abbrev pub usd : Scale
usd = 2

abbrev pub usdc : Scale
usdc = 6

abbrev pub btc : Scale
btc = 8

abbrev pub eth : Scale
eth = 18

-- `Scale::multiplier`: 10u128.checked_pow(scale).
unfoldable pub multiplier : Scale → Result ℕ
multiplier scale = if ltb (10 ^ scale) u128_mod then ok (10 ^ scale) else err arithmetic_overflow

unfoldable pub checked_add : Amount → Amount → Result Amount
checked_add a b = if ltb (a + b) u128_mod then ok (a + b) else err arithmetic_overflow

unfoldable pub checked_sub : Amount → Amount → Result Amount
checked_sub a b = if ltb a b then err arithmetic_overflow else ok (a - b)

unfoldable pub checked_mul : Amount → ℕ → Result Amount
checked_mul a factor =
    if ltb (a * factor) u128_mod then ok (a * factor) else err arithmetic_overflow

unfoldable pub checked_div : Amount → ℕ → Result Amount
checked_div a divisor = if divisor == 0 then err division_by_zero else ok (a / divisor)
