-- ===== src/Reconciliation/Totals.antt =====
-- The two loops of an audit add up (apps/demo/src/reconciliation.rs).
use trust_ledger.Common.{
  ℕ, ◌+◌, ◌≡◌, ◌≤◌, ◌<◌, sym, ap, ◌∙◌, subst, true, lt→ltb, ap₂, if◌then◌else◌, Bool-cases, inl,
  inr, Option, none, some, List, [], ◌∷◌, arith,
}
use trust_ledger.Vocabulary.{AccountId, u128_mod, i128_max}
use trust_ledger.LedgerError.{Result}
use trust_ledger.Account.{Account}
use trust_ledger.Ledger.State.{Ledger}
use trust_ledger.Ledger.Checks.{get_account}
use trust_ledger.Payment.{Payment, merchant_account}
use trust_ledger.Reconciliation.{ok, is_captured, app_totals, ledger_totals}

-- The sum of the captured payments, and how many there are.
abbrev pub captured_sum : List Payment → ℕ
captured_sum [] = 0
captured_sum (p ∷ payments) = (if is_captured p.state then p.amount else 0) + captured_sum payments

abbrev pub captured_count : List Payment → ℕ
captured_count [] = 0
captured_count (p ∷ payments) = (if is_captured p.state then 1 else 0) + captured_count payments

abbrev credits : Result Account → ℕ
credits (Result.err e) = 0
credits (Result.ok account) = account.balance.credits_posted

-- What the account of an identifier was credited.
abbrev account_credits : Option AccountId → Ledger → ℕ
account_credits none ledger = 0
account_credits (some id) ledger = credits (get_account id ledger)

-- The sum of what the merchants' accounts were credited.
abbrev pub credited_sum : List ℕ → Ledger → ℕ
credited_sum [] ledger = 0
credited_sum (m ∷ merchants) ledger =
    account_credits (merchant_account m) ledger + credited_sum merchants ledger

-- Every merchant has an identifier that does not overflow and an account.
pub data HaveAccounts (ledger : Ledger) : List ℕ → Type 0 where
  none_left : HaveAccounts ledger []
  has_account :
      (m : ℕ) (merchants : List ℕ) (id : AccountId) (account : Account)
      → merchant_account m ≡ some id
      → get_account id ledger ≡ Result.ok account
      → HaveAccounts ledger merchants
      → HaveAccounts ledger (m ∷ merchants)

-- A captured payment counts with its amount.
counted :
    (p : Payment) (rest total : ℕ)
    → is_captured p.state ≡ true
    → total + ((if is_captured p.state then p.amount else 0) + rest) < u128_mod
    → (total + p.amount) + rest < u128_mod
counted p rest total chosen h =
    subst
      (λ b.
        total + ((if b then p.amount else 0) + rest) < u128_mod
        → (total + p.amount) + rest < u128_mod)
      (sym chosen) (λ sum. omega (arith, sum)) h

app_totals-sums :
    (payments : List Payment) (total count : ℕ)
    → total + captured_sum payments < u128_mod
    → app_totals payments total count
      ≡ ok (total + captured_sum payments, count + captured_count payments)
unfolding app_totals
app_totals-sums [] total count h = ap₂ (λ t c. ok (t, c)) (omega arith) (omega arith)
app_totals-sums (p ∷ payments) total count h = elim (Bool-cases (is_captured p.state)) [
  | inl chosen ↦
      let bound : (total + p.amount) + captured_sum payments < u128_mod =
        omega (arith, counted p (captured_sum payments) total chosen h) in
      rw
        (
          app_totals,
          chosen,
          lt→ltb (total + p.amount) u128_mod (omega (arith, bound)),
          app_totals-sums payments (total + p.amount) (count + 1) bound,
        )
        (ap₂ (λ t c. ok (t, c)) (omega arith) (omega arith))
  | inr other ↦
      let bound : total + captured_sum payments < u128_mod = omega (arith, h) in
      rw (app_totals, other, app_totals-sums payments total count bound)
        (ap₂ (λ t c. ok (t, c)) (omega arith) (omega arith))
]

ledger_totals-sums :
    (merchants : List ℕ) (ledger : Ledger) (total : ℕ)
    → HaveAccounts ledger merchants
    → total + credited_sum merchants ledger < u128_mod
    → ledger_totals merchants ledger total ≡ ok (total + credited_sum merchants ledger)
unfolding ledger_totals
ledger_totals-sums [] ledger total none_left h = ap ok (omega arith)
ledger_totals-sums (m ∷ merchants) ledger total (has_account _ _ id account named found rest) h =
    let credited : account_credits (merchant_account m) ledger ≡ account.balance.credits_posted =
      ap (λ o. account_credits o ledger) named ∙ ap credits found in
    let sum : total + (account.balance.credits_posted + credited_sum merchants ledger) < u128_mod =
      subst (λ n. total + (n + credited_sum merchants ledger) < u128_mod) credited h in
    let bound : (total + account.balance.credits_posted) + credited_sum merchants ledger
        < u128_mod =
      omega (arith, sum) in
    rw
      (
        ledger_totals,
        credited,
        named,
        found,
        lt→ltb (total + account.balance.credits_posted) u128_mod (omega (arith, bound)),
        ledger_totals-sums merchants ledger (total + account.balance.credits_posted) rest bound,
      )
      (ap ok (omega arith))

pub app_sums :
    (payments : List Payment)
    → captured_sum payments ≤ i128_max
    → app_totals payments 0 0 ≡ ok (captured_sum payments, captured_count payments)
app_sums payments h =
    app_totals-sums payments 0 0 (omega (arith, h))
    ∙ ap₂ (λ t c. ok (t, c)) (omega arith) (omega arith)

pub ledger_sums :
    (merchants : List ℕ) (ledger : Ledger)
    → HaveAccounts ledger merchants
    → credited_sum merchants ledger ≤ i128_max
    → ledger_totals merchants ledger 0 ≡ ok (credited_sum merchants ledger)
ledger_sums merchants ledger accounts h =
    ledger_totals-sums merchants ledger 0 accounts (omega (arith, h)) ∙ ap ok (omega arith)
