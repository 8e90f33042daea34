-- ===== src/Reconciliation.antt =====
-- The audit of the payments against the ledger and the settlement on chain:
-- apps/demo/src/reconciliation.rs. A text that is put together from numbers is those numbers.
pub mod Totals
pub mod Audit
use Prim.Native.String.{String}
use trust_ledger.Common.{
  ℕ, ◌+◌, Bool, true, false, ◌&&◌, ◌||◌, ◌==◌, ltb, leb, if◌then◌else◌, Option, none, some, List,
  [], ◌∷◌,
}
use trust_ledger.Int.{ℤ, pos, negsuc, sub_ℕ}
use trust_ledger.Vocabulary.{AccountId, Timestamp, u128_mod, i128_max}
use trust_ledger.LedgerError.{Result}
use trust_ledger.Ledger.State.{Ledger}
use trust_ledger.Ledger.Checks.{get_account}
use trust_ledger.Payment.{
  Payment, PaymentState, authorized, captured, voided, refunded, merchant_account,
}
use trust_ledger.Settle.{SettlementRoot}

pub data ReconciliationStatus : Type 0 where
  clean drift_detected : ReconciliationStatus

-- `Discrepancy: App=…, Ledger=…, Chain=…, Drift=…`
pub record Details : Type 0 where
  pub app : ℕ
  pub ledger : ℕ
  pub chain : ℕ
  pub drift : ℤ

pub record ReconciliationIncident : Type 0 where
  pub incident_id : Timestamp
  pub drift_amount : ℤ
  pub details : Details
  pub recommended_action : String

pub record ReconciliationReport : Type 0 where
  pub timestamp : Timestamp
  pub status : ReconciliationStatus
  pub app_settled_total : ℕ
  pub ledger_settled_total : ℕ
  pub chain_settled_total : ℕ
  pub drift : ℤ
  pub reconciled_transfers : ℕ
  pub incident : Option ReconciliationIncident

pub data ReconciliationError : Type 0 where
  amount_overflow : ReconciliationError
  amount_exceeds_signed_range : ReconciliationError
  drift_found : ℕ → ℕ → ℕ → ℤ → ReconciliationError
  account_not_found : ℕ → ReconciliationError

-- A result, or the end of the process where an account identifier overflows.
pub data Audited (A : Type 0) : Type 0 where
  ok : A → Audited A
  err : ReconciliationError → Audited A
  aborted : Audited A

-- `checked_add(…).ok_or(AmountOverflow)?` and `i128::try_from(…).map_err(…)?`
abbrev pub add_total : ℕ → ℕ → Audited ℕ
add_total total amount =
    if ltb (total + amount) u128_mod then ok (total + amount) else err amount_overflow

unfoldable pub to_signed : ℕ → Audited ℕ
to_signed total = if leb total i128_max then ok total else err amount_exceeds_signed_range

abbrev pub is_captured : PaymentState → Bool
is_captured authorized = false
is_captured captured = true
is_captured voided = false
is_captured refunded = false

-- The loop over the payments: their total and how many there are.
unfoldable pub app_totals : List Payment → ℕ → ℕ → Audited (ℕ × ℕ)
app_totals [] app_total captured_count = ok (app_total, captured_count)
app_totals (p ∷ payments) app_total captured_count =
    if is_captured p.state
    then elim (add_total app_total p.amount) [
      | err e ↦ err e
      | aborted ↦ aborted
      | ok total ↦ app_totals payments total (captured_count + 1)
    ]
    else app_totals payments app_total captured_count

-- What an account has been credited, added to the total.
abbrev pub add_credits : AccountId → Ledger → ℕ → Audited ℕ
add_credits acc_id ledger ledger_total = elim (get_account acc_id ledger) [
  | Result.err e ↦ err (account_not_found acc_id)
  | Result.ok acc ↦ add_total ledger_total acc.balance.credits_posted
]

-- The loop over the merchants.
unfoldable pub ledger_totals : List ℕ → Ledger → ℕ → Audited ℕ
ledger_totals [] ledger ledger_total = ok ledger_total
ledger_totals (m_id ∷ merchants) ledger ledger_total = elim (merchant_account m_id) [
  | none ↦ aborted
  | some acc_id ↦ elim (add_credits acc_id ledger ledger_total) [
    | err e ↦ err e
    | aborted ↦ aborted
    | ok total ↦ ledger_totals merchants ledger total
  ]
]

-- `chain_root.map(|r| r.total_settled_amount).unwrap_or(0)`
abbrev pub chain_total : Option SettlementRoot → ℕ
chain_total none = 0
chain_total (some root) = root.total_settled_amount

abbrev is_none : Option SettlementRoot → Bool
is_none none = true
is_none (some root) = false

abbrev pub is_zero : ℤ → Bool
is_zero (pos n) = n == 0
is_zero (negsuc n) = false

-- Whether the three sources agree, and the report on them.
unfoldable pub is_clean : ℤ → Option SettlementRoot → ℕ → Bool
is_clean drift chain_root ledger_total =
    is_zero drift && (is_none chain_root || (chain_total chain_root == ledger_total))

unfoldable pub report_of : ℕ → ℕ → ℕ → Option SettlementRoot → Timestamp → ReconciliationReport
report_of app_total captured_count ledger_total chain_root timestamp =
    let drift = sub_ℕ ledger_total app_total in
    if is_clean drift chain_root ledger_total
    then record {
      timestamp = timestamp;
      status = clean;
      app_settled_total = app_total;
      ledger_settled_total = ledger_total;
      chain_settled_total = chain_total chain_root;
      drift = pos 0;
      reconciled_transfers = captured_count;
      incident = none;
    }
    else record {
      timestamp = timestamp;
      status = drift_detected;
      app_settled_total = app_total;
      ledger_settled_total = ledger_total;
      chain_settled_total = chain_total chain_root;
      drift = drift;
      reconciled_transfers = captured_count;
      incident = some record {
        incident_id = timestamp;
        drift_amount = drift;
        details = record {
          app = app_total;
          ledger = ledger_total;
          chain = chain_total chain_root;
          drift = drift;
        };
        recommended_action =
            "Halt automated batch settlement and inspect unposted transaction buffer.";
      };
    }

unfoldable pub audit :
    List Payment
    → Ledger
    → List ℕ
    → Option SettlementRoot
    → Timestamp
    → Audited ReconciliationReport
audit payments ledger merchants chain_root timestamp = elim (app_totals payments 0 0) [
  | err e ↦ err e
  | aborted ↦ aborted
  | ok app ↦ elim (ledger_totals merchants ledger 0) [
    | err e ↦ err e
    | aborted ↦ aborted
    | ok ledger_total ↦ elim (to_signed ledger_total) [
      | err e ↦ err e
      | aborted ↦ aborted
      | ok ledger_signed ↦ elim (to_signed app.0) [
        | err e ↦ err e
        | aborted ↦ aborted
        | ok app_signed ↦ ok (report_of app.0 app.1 ledger_total chain_root timestamp)
      ]
    ]
  ]
]
