-- ===== src/Reconciliation/Audit.antt =====
-- What an audit reports (apps/demo/src/reconciliation.rs).
use trust_ledger.Common.{
  ℕ, ◌≡◌, ◌≤◌, ◌↔◌, refl, Bool, true, false, ◌&&◌, ==-refl, ==→eq, leb, Bool-cases, inl, inr,
  Option, none, some, List, arith,
}
use trust_ledger.Int.{sub_ℕ}
use trust_ledger.Vocabulary.{Timestamp, i128_max}
use trust_ledger.Ledger.State.{Ledger}
use trust_ledger.Payment.{Payment}
use trust_ledger.Settle.{SettlementRoot}
use trust_ledger.Reconciliation.{
  clean, drift_detected, ReconciliationReport, ok, is_clean, report_of, audit, is_zero, to_signed,
  chain_total,
}
use trust_ledger.Reconciliation.Totals.{
  captured_sum, captured_count, credited_sum, HaveAccounts, app_sums, ledger_sums,
}

-- The settlement on chain, if there is one, adds up to a total.
abbrev pub ChainAgrees : Option SettlementRoot → ℕ → Type 0
ChainAgrees none total = Unit {0}
ChainAgrees (some root) total = root.total_settled_amount ≡ total

le→leb : (a b : ℕ) → a ≤ b → leb a b ≡ true
le→leb a b h = ground arith

false_is_not_true : false ≡ true → ⊥
false_is_not_true h = cc

is_zero-sub : (total app : ℕ) → is_zero (sub_ℕ total app) ≡ true → app ≡ total
is_zero-sub total app h = ground arith

is_zero-sub_self : (n : ℕ) → is_zero (sub_ℕ n n) ≡ true
is_zero-sub_self n = ground arith

both_true : (a b : Bool) → (a && b) ≡ true → (a ≡ true) × (b ≡ true)
both_true true true h = (refl, refl)
both_true true false h = (refl, h)
both_true false b h = (h, absurd (false_is_not_true h))

-- The audit is clean exactly if the sums agree.
is_clean-agree :
    (app total : ℕ) (chain_root : Option SettlementRoot)
    → (is_clean (sub_ℕ total app) chain_root total ≡ true)
      ↔ ((app ≡ total) × ChainAgrees chain_root total)
unfolding is_clean
is_clean-agree app total none = (
  λ h. (is_zero-sub total app (both_true _ _ h).0, tt),
  λ agree. rw (agree.0, is_zero-sub_self total) refl,
)
is_clean-agree app total (some root) = (
  λ h.
      let tests = both_true _ _ h in
      (is_zero-sub total app tests.0, ==→eq root.total_settled_amount total tests.1),
  λ agree. rw (agree.0, agree.1, is_zero-sub_self total, ==-refl total) refl,
)

drift_is_not_clean : drift_detected ≡ clean → ⊥
drift_is_not_clean h = cc

clean_status :
    (app count total : ℕ) (chain_root : Option SettlementRoot) (timestamp : Timestamp)
    → ((report_of app count total chain_root timestamp).status ≡ clean)
      ↔ (is_clean (sub_ℕ total app) chain_root total ≡ true)
unfolding report_of
clean_status app count total chain_root timestamp =
    elim (Bool-cases (is_clean (sub_ℕ total app) chain_root total)) [
      | inl chosen ↦ rw chosen (λ h. refl, λ h. refl)
      | inr other ↦ rw other (λ h. absurd (drift_is_not_clean h), λ h. absurd (false_is_not_true h))
    ]

to_signed-fits : (n : ℕ) → n ≤ i128_max → to_signed n ≡ ok n
unfolding to_signed
to_signed-fits n h = rw (le→leb n i128_max h) refl

report_fields :
    (app count total : ℕ) (chain_root : Option SettlementRoot) (timestamp : Timestamp)
    → ((report_of app count total chain_root timestamp).app_settled_total ≡ app)
      × ((report_of app count total chain_root timestamp).reconciled_transfers ≡ count)
      × ((report_of app count total chain_root timestamp).ledger_settled_total ≡ total)
      × ((report_of app count total chain_root timestamp).chain_settled_total
          ≡ chain_total chain_root)
unfolding report_of
report_fields app count total chain_root timestamp =
    elim (Bool-cases (is_clean (sub_ℕ total app) chain_root total)) [
      | inl chosen ↦ rw chosen (refl, refl, refl, refl)
      | inr other ↦ rw other (refl, refl, refl, refl)
    ]

-- Where every merchant has an account, under an identifier that does not overflow, and neither sum leaves the signed range, the audit returns a
-- report of the sum of the captured payments, their number, the sum that the merchants were credited
-- and the total settled on chain, which is 0 where nothing is settled there; and the report is clean
-- exactly if the first two sums are equal and the settlement on chain, if there is one, equals them.
pub audit-agree :
    (payments : List Payment) (ledger : Ledger) (merchants : List ℕ)
    → (chain_root : Option SettlementRoot) (timestamp : Timestamp) → HaveAccounts ledger merchants
    → captured_sum payments ≤ i128_max
    → credited_sum merchants ledger ≤ i128_max
    → (report : ReconciliationReport) × (audit payments ledger merchants chain_root timestamp
        ≡ ok report)
      × (report.app_settled_total ≡ captured_sum payments)
      × (report.reconciled_transfers ≡ captured_count payments)
      × (report.ledger_settled_total ≡ credited_sum merchants ledger)
      × (report.chain_settled_total ≡ chain_total chain_root)
      × ((report.status ≡ clean) ↔ (
          (captured_sum payments ≡ credited_sum merchants ledger)
          × ChainAgrees chain_root (credited_sum merchants ledger)))
unfolding audit
audit-agree payments ledger merchants chain_root timestamp accounts small small' =
    let app = captured_sum payments in
    let count = captured_count payments in
    let total = credited_sum merchants ledger in
    let status = clean_status app count total chain_root timestamp in
    let agree = is_clean-agree app total chain_root in
    let fields = report_fields app count total chain_root timestamp in
    (
      report_of app count total chain_root timestamp,
      rw
          (
            audit,
            app_sums payments small,
            ledger_sums merchants ledger accounts small',
            to_signed-fits total small',
            to_signed-fits app small,
          )
          refl,
      fields.0,
      fields.1,
      fields.2,
      fields.3,
      (λ is. agree.0 (status.0 is), λ same. status.1 (agree.1 same)),
    )
