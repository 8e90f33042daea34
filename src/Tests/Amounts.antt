-- ===== src/Tests/Amounts.antt =====
-- The theorems about account.rs and amount.rs at concrete values.
use trust_ledger.Common.{◌≡◌, ◌+◌, ◌≤◌, refl, true, arith}
use trust_ledger.Int.{pos}
use trust_ledger.Vocabulary.{asset, liability, i128_max}
use trust_ledger.LedgerError.{ok}
use trust_ledger.Account.{
  customer, bank_asset, net_settled, to_i128, available_liability, available_asset,
  ensure_can_debit,
}
use trust_ledger.Account.Limits.{ensure_can_debit-available, net_settled-exact, is_ok}
use trust_ledger.Amount.{new_scale, btc, checked_add, checked_mul}
use trust_ledger.Tests.Bank.{account_of}

buyer_available :
    available_liability (account_of 2 liability customer 150 500 100 0).balance ≡ ok 250
unfolding available_liability checked_add
buyer_available = refl

vault_available : available_asset (account_of 1 asset bank_asset 500 20 0 30).balance ≡ ok 450
unfolding available_asset checked_add
vault_available = refl

buyer_net :
    net_settled (account_of 2 liability customer 150 500 100 0).balance liability ≡ ok (pos 350)
unfolding net_settled to_i128
buyer_net = refl

btc_scale : new_scale 8 ≡ ok btc
unfolding new_scale
btc_scale = refl

sum_computed : checked_add 7 5 ≡ ok 12
unfolding checked_add
sum_computed = refl

product_computed : checked_mul 7 5 ≡ ok 35
unfolding checked_mul
product_computed = refl

ensure_can_debit-available_example :
    is_ok (ensure_can_debit (account_of 2 liability customer 150 500 100 0) 250) ≡ true
ensure_can_debit-available_example =
    ensure_can_debit-available (account_of 2 liability customer 150 500 100 0) 250 250 refl refl
      (omega arith) (omega arith) buyer_available

net_settled-exact_example : (500 + 0 ≡ 150 + 350) × (350 ≤ i128_max) × (0 ≤ i128_max)
net_settled-exact_example =
    net_settled-exact (account_of 2 liability customer 150 500 100 0).balance liability (pos 350)
      buyer_net
