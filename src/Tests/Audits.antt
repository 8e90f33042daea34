-- ===== src/Tests/Audits.antt =====
-- The audit at a small shop.
use trust_ledger.Common.{ℕ, ◌≡◌, ◌↔◌, refl, none, List, [], ◌∷◌, arith}
use trust_ledger.SortedMap.{get}
use trust_ledger.Vocabulary.{liability}
use trust_ledger.Account.{customer}
use trust_ledger.Ledger.State.{Ledger}
use trust_ledger.Ledger.Checks.{get_account}
use trust_ledger.Payment.{Payment, PaymentState, new_authorized, captured, voided}
use trust_ledger.Reconciliation.{ReconciliationReport, clean, ok, audit}
use trust_ledger.Reconciliation.Totals.{
  HaveAccounts, none_left, has_account, captured_sum, captured_count, credited_sum,
}
use trust_ledger.Reconciliation.Audit.{ChainAgrees, audit-agree}
use trust_ledger.Tests.Bank.{account_of}

-- Two captured payments of merchant 1, and one that was voided.
abbrev sale : ℕ → ℕ → PaymentState → Payment
sale id amount state = record (new_authorized id 1 2 amount 10 901 100) { state = state }

abbrev sales : List Payment
sales = sale 7 450 captured ∷ sale 8 99 voided ∷ sale 9 50 captured ∷ []

abbrev books : Ledger
books = record {
  scale = 2;
  accounts = (2000001, account_of 2000001 liability customer 0 500 0 0) ∷ [];
  transfers = [];
  journal = [];
  last_timestamp = 105;
}

has_accounts : HaveAccounts books (1 ∷ [])
unfolding get_account get
has_accounts =
    has_account 1 [] 2000001 (account_of 2000001 liability customer 0 500 0 0) refl refl none_left

sold : captured_sum sales ≡ 500
sold = refl

credited : credited_sum (1 ∷ []) books ≡ 500
unfolding get_account get
credited = refl

audit-agree_example :
    (report : ReconciliationReport) × (audit sales books (1 ∷ []) none 106 ≡ ok report)
    × (report.app_settled_total ≡ captured_sum sales)
    × (report.reconciled_transfers ≡ captured_count sales)
    × (report.ledger_settled_total ≡ credited_sum (1 ∷ []) books)
    × (report.chain_settled_total ≡ 0)
    × ((report.status ≡ clean) ↔ (
        (captured_sum sales ≡ credited_sum (1 ∷ []) books)
        × ChainAgrees none (credited_sum (1 ∷ []) books)))
audit-agree_example =
    audit-agree sales books (1 ∷ []) none 106 has_accounts (omega (arith, sold))
      (omega (arith, credited))
