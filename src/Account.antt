-- ===== src/Account.antt =====
-- Accounts, their balances and their limits: crates/ledger-core/src/account.rs.
pub mod Limits
use trust_ledger.Common.{ℕ, ◌-◌, true, false, ltb, leb, if◌then◌else◌}
use trust_ledger.Int.{ℤ, sub_ℕ}
use trust_ledger.Vocabulary.{
  AccountId, Amount, Scale, AccountType, asset, liability, equity, revenue, expense, AccountFlags,
  i128_max,
}
use trust_ledger.LedgerError.{
  Result, ok, err, ◌>>=◌, ◌>>◌, fail_if, signed_balance_overflow, insufficient_funds,
  account_closed,
}
use trust_ledger.Amount.{checked_add}

pub record Balance : Type 0 where
  pub debits_posted : Amount
  pub credits_posted : Amount
  pub debits_pending : Amount
  pub credits_pending : Amount

-- `Balance::new`
abbrev pub empty_balance : Balance
empty_balance = record {
  debits_posted = 0;
  credits_posted = 0;
  debits_pending = 0;
  credits_pending = 0;
}

pub record Account : Type 0 where
  pub id : AccountId
  pub account_type : AccountType
  pub flags : AccountFlags
  pub scale : Scale
  pub balance : Balance

-- The presets of `AccountFlags`.
abbrev pub customer : AccountFlags
customer = record {
  debits_must_not_exceed_credits = true;
  credits_must_not_exceed_debits = false;
  is_closed = false;
}

abbrev pub bank_asset : AccountFlags
bank_asset = record {
  debits_must_not_exceed_credits = false;
  credits_must_not_exceed_debits = true;
  is_closed = false;
}

abbrev pub unrestricted : AccountFlags
unrestricted = record {
  debits_must_not_exceed_credits = false;
  credits_must_not_exceed_debits = false;
  is_closed = false;
}

abbrev pub fee_revenue : AccountFlags
fee_revenue = record {
  debits_must_not_exceed_credits = false;
  credits_must_not_exceed_debits = false;
  is_closed = false;
}

-- `Account::new`
abbrev pub new_account : AccountId → AccountType → AccountFlags → Scale → Account
new_account id account_type flags scale = record {
  id = id;
  account_type = account_type;
  flags = flags;
  scale = scale;
  balance = empty_balance;
}

-- `i128::try_from(u128)`
unfoldable pub to_i128 : Amount → Result ℕ
to_i128 a = if leb a i128_max then ok a else err signed_balance_overflow

-- The `match` of `net_settled`.
abbrev pub net_by_type : AccountType → ℕ → ℕ → ℤ
net_by_type asset debits credits = sub_ℕ debits credits
net_by_type expense debits credits = sub_ℕ debits credits
net_by_type liability debits credits = sub_ℕ credits debits
net_by_type equity debits credits = sub_ℕ credits debits
net_by_type revenue debits credits = sub_ℕ credits debits

unfoldable pub net_settled : Balance → AccountType → Result ℤ
unfolding to_i128
net_settled b account_type = do
  debits ← to_i128 b.debits_posted
  credits ← to_i128 b.credits_posted
  ok (net_by_type account_type debits credits)

unfoldable pub available_liability : Balance → Result Amount
available_liability b = do
  debits ← checked_add b.debits_posted b.debits_pending
  ok (if leb debits b.credits_posted then b.credits_posted - debits else 0)

unfoldable pub available_asset : Balance → Result Amount
available_asset b = do
  credits ← checked_add b.credits_posted b.credits_pending
  ok (if leb credits b.debits_posted then b.debits_posted - credits else 0)

-- The limit of `ensure_can_debit`, with its error.
unfoldable pub debit_limit : Account → Amount → Result (Unit {0})
debit_limit a amount = do
  held ← checked_add a.balance.debits_posted a.balance.debits_pending
  total_debits ← checked_add held amount
  if ltb a.balance.credits_posted total_debits
      then (available_liability a.balance >>= λ available.
          err (insufficient_funds a.id amount available))
      else ok tt

unfoldable pub ensure_can_debit : Account → Amount → Result (Unit {0})
unfolding debit_limit
ensure_can_debit a amount = do
  fail_if a.flags.is_closed (account_closed a.id)
  if a.flags.debits_must_not_exceed_credits then debit_limit a amount else ok tt

-- The limit of `ensure_can_credit`, with its error.
unfoldable pub credit_limit : Account → Amount → Result (Unit {0})
credit_limit a amount = do
  held ← checked_add a.balance.credits_posted a.balance.credits_pending
  total_credits ← checked_add held amount
  if ltb a.balance.debits_posted total_credits
      then (available_asset a.balance >>= λ available.
          err (insufficient_funds a.id amount available))
      else ok tt

unfoldable pub ensure_can_credit : Account → Amount → Result (Unit {0})
unfolding credit_limit
ensure_can_credit a amount = do
  fail_if a.flags.is_closed (account_closed a.id)
  if a.flags.credits_must_not_exceed_debits then credit_limit a amount else ok tt
