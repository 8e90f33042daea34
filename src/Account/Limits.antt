-- ===== src/Account/Limits.antt =====
-- What account.rs computes of a balance: the net balance, and the amount that may still be used.
use trust_ledger.Common.{ℕ, Bool, true, false, ◌≡◌, ◌+◌, ◌<◌, ◌≤◌, arith, leb}
use trust_ledger.Int.{ℤ, pos_part, neg_part, sub_ℕ}
use trust_ledger.Vocabulary.{
  Amount, AccountType, asset, liability, equity, revenue, expense, i128_max, u128_mod,
}
use trust_ledger.LedgerError.{Result, ok, err}
use trust_ledger.Amount.{checked_add}
use trust_ledger.Account.{
  Account, Balance, net_settled, to_i128, available_liability, available_asset, ensure_can_debit,
  ensure_can_credit, debit_limit, credit_limit,
}

-- The posted side that raises the net balance of a type of account, and the side that lowers it.
abbrev pub raises : AccountType → Balance → ℕ
raises asset b = b.debits_posted
raises expense b = b.debits_posted
raises liability b = b.credits_posted
raises equity b = b.credits_posted
raises revenue b = b.credits_posted

abbrev pub lowers : AccountType → Balance → ℕ
lowers asset b = b.credits_posted
lowers expense b = b.credits_posted
lowers liability b = b.debits_posted
lowers equity b = b.debits_posted
lowers revenue b = b.debits_posted

abbrev pub is_ok {ℓ} : {A : Type ℓ} → Result A → Bool
is_ok (ok a) = true
is_ok (err e) = false

sub_ℕ-exact :
    (a b : ℕ)
    → (a + neg_part (sub_ℕ a b) ≡ b + pos_part (sub_ℕ a b))
      × (pos_part (sub_ℕ a b) ≤ a)
      × (neg_part (sub_ℕ a b) ≤ b)
sub_ℕ-exact a b = ground arith

-- A net balance that is returned is exactly the side that raises it less the side that lowers it,
-- and it is a signed 128-bit number.
pub net_settled-exact :
    (b : Balance) (account_type : AccountType) (z : ℤ)
    → net_settled b account_type ≡ ok z
    → (raises account_type b + neg_part z ≡ lowers account_type b + pos_part z)
      × (pos_part z ≤ i128_max)
      × (neg_part z ≤ i128_max)
unfolding net_settled to_i128
net_settled-exact b account_type z h = ground arith

-- For an open account whose debits must not exceed its credits, a positive amount may be debited
-- exactly if it is at most the available balance.
pub ensure_can_debit-available :
    (a : Account) (amount available : Amount)
    → a.flags.is_closed ≡ false
    → a.flags.debits_must_not_exceed_credits ≡ true
    → a.balance.credits_posted < u128_mod
    → 0 < amount
    → available_liability a.balance ≡ ok available
    → is_ok (ensure_can_debit a amount) ≡ leb amount available
unfolding ensure_can_debit debit_limit available_liability checked_add
ensure_can_debit-available a amount available is_open limited fits positive h = ground arith

-- For an open account whose credits must not exceed its debits, a positive amount may be credited
-- exactly if it is at most the available balance.
pub ensure_can_credit-available :
    (a : Account) (amount available : Amount)
    → a.flags.is_closed ≡ false
    → a.flags.credits_must_not_exceed_debits ≡ true
    → a.balance.debits_posted < u128_mod
    → 0 < amount
    → available_asset a.balance ≡ ok available
    → is_ok (ensure_can_credit a amount) ≡ leb amount available
unfolding ensure_can_credit credit_limit available_asset checked_add
ensure_can_credit-available a amount available is_open limited fits positive h = ground arith
