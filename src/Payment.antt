-- ===== src/Payment.antt =====
-- Payments of the demo application: apps/demo/src/payment.rs. Identifiers and amounts are numbers
-- below 2 ^ 128; where the sum of an account identifier is not, the process aborts, since the release
-- profile checks overflows and aborts on a panic.
pub mod Lifecycle
pub mod Setup
use Prim.Native.String.{String}
use trust_ledger.Common.{
  ℕ, zero, suc, ◌+◌, ◌%◌, Option, none, some, List, [], ◌∷◌, ltb, if◌then◌else◌,
}
use trust_ledger.Vocabulary.{
  AccountId, Timestamp, Scale, AccountType, AccountFlags, asset, liability, revenue, u128_mod,
}
use trust_ledger.LedgerError.{LedgerError}
use trust_ledger.Account.{bank_asset, customer, fee_revenue}
use trust_ledger.Transfer.{new_immediate}
use trust_ledger.Ledger.State.{Ledger, Outcome, done, fail, Method, read, ◌>>=◌, ◌>>◌}
use trust_ledger.Ledger.Operations.{create_account, create_transfer}

pub data PaymentState : Type 0 where
  authorized captured voided refunded : PaymentState

-- `format!("{:?}", state)`
abbrev pub state_name : PaymentState → String
state_name authorized = "Authorized"
state_name captured = "Captured"
state_name voided = "Voided"
state_name refunded = "Refunded"

pub record Payment : Type 0 where
  pub id : ℕ
  pub merchant_id : ℕ
  pub customer_id : ℕ
  pub amount : ℕ
  pub fee_amount : ℕ
  pub state : PaymentState
  pub pending_transfer_id : Option ℕ
  pub posted_transfer_id : Option ℕ
  pub settlement_batch_seq : Option ℕ
  pub created_at : Timestamp
  pub updated_at : Timestamp

pub data PaymentError : Type 0 where
  invalid_state_transition : ℕ → String → String → PaymentError
  payment_not_found : ℕ → PaymentError
  ledger_error : LedgerError → PaymentError
  amount_overflow : PaymentError

-- `Payment::new_authorized`
abbrev pub new_authorized : ℕ → ℕ → ℕ → ℕ → ℕ → ℕ → Timestamp → Payment
new_authorized id merchant_id customer_id amount fee_amount pending_transfer_id timestamp = record {
  id = id;
  merchant_id = merchant_id;
  customer_id = customer_id;
  amount = amount;
  fee_amount = fee_amount;
  state = authorized;
  pending_transfer_id = some pending_transfer_id;
  posted_transfer_id = none;
  settlement_batch_seq = none;
  created_at = timestamp;
  updated_at = timestamp;
}

-- What a transition returns, with the payment that it leaves behind.
pub data Transition : Type 0 where
  moved : Payment → Transition
  stuck : PaymentError → Payment → Transition

abbrev pub wrong_state : String → Payment → Transition
wrong_state target p = stuck (invalid_state_transition p.id (state_name p.state) target) p

unfoldable pub transition_to_captured : ℕ → Timestamp → Payment → Transition
transition_to_captured posted_transfer_id timestamp p = elim p.state [
  | authorized ↦ moved (record p {
    state = captured;
    posted_transfer_id = some posted_transfer_id;
    updated_at = timestamp;
  })
  | captured ↦ wrong_state "Captured" p
  | voided ↦ wrong_state "Captured" p
  | refunded ↦ wrong_state "Captured" p
]

unfoldable pub transition_to_voided : Timestamp → Payment → Transition
transition_to_voided timestamp p = elim p.state [
  | authorized ↦ moved (record p { state = voided; updated_at = timestamp })
  | captured ↦ wrong_state "Voided" p
  | voided ↦ wrong_state "Voided" p
  | refunded ↦ wrong_state "Voided" p
]

unfoldable pub transition_to_refunded : Timestamp → Payment → Transition
transition_to_refunded timestamp p = elim p.state [
  | authorized ↦ wrong_state "Refunded" p
  | captured ↦ moved (record p { state = refunded; updated_at = timestamp })
  | voided ↦ wrong_state "Refunded" p
  | refunded ↦ wrong_state "Refunded" p
]

abbrev pub fee_revenue_id : AccountId
fee_revenue_id = 999999

abbrev pub vault_asset_id : AccountId
vault_asset_id = 100

-- The sum of an identifier, unless it overflows, which aborts the process.
abbrev pub sum_id : ℕ → ℕ → Option AccountId
sum_id base id = if ltb (base + id) u128_mod then some (base + id) else none

-- `AccountDirectory::customer`
abbrev pub customer_account : ℕ → Option AccountId
customer_account customer_id = sum_id 1000000 customer_id

-- `AccountDirectory::merchant`
abbrev pub merchant_account : ℕ → Option AccountId
merchant_account merchant_id = sum_id 2000000 merchant_id

-- How setting up the accounts ends: it returns, or the process aborts.
pub data SetupResult : Type 0 where
  returned : Outcome (Unit {0}) → SetupResult
  aborted : SetupResult

-- `?` on a call of the ledger, and on a loop.
abbrev pub and_then : Outcome (Unit {0}) → (Ledger → SetupResult) → SetupResult
and_then (done u l) next = next l
and_then (fail e l) next = returned (fail e l)

abbrev pub continue : SetupResult → (Ledger → SetupResult) → SetupResult
continue (returned o) next = and_then o next
continue aborted next = aborted

module _ (scale : Scale) (timestamp : Timestamp) where
  -- The loop over the merchants.
  unfoldable pub setup_merchants : List ℕ → Ledger → SetupResult
  setup_merchants [] l = returned (done tt l)
  setup_merchants (m ∷ merchants) l = elim (merchant_account m) [
    | none ↦ aborted
    | some account_id ↦
        and_then (create_account account_id liability customer scale timestamp l)
          (setup_merchants merchants)
  ]

  -- The deposit of the customer at an index, if there is one.
  unfoldable pub initial_deposit : ℕ → AccountId → ℕ → Method (Unit {0})
  initial_deposit i account_id zero = λ l. done tt l
  initial_deposit i account_id (suc n) =
      read (λ _. new_immediate (10000 + i) vault_asset_id account_id (suc n) timestamp) >>= λ t.
      create_transfer t

  -- The loop over the customers, from an index on.
  unfoldable pub setup_customers : ℕ → ℕ → List ℕ → Ledger → SetupResult
  setup_customers initial_customer_deposit i [] l = returned (done tt l)
  setup_customers initial_customer_deposit i (c ∷ customers) l = elim (customer_account c) [
    | none ↦ aborted
    | some account_id ↦
        and_then (create_account account_id liability customer scale timestamp l) (λ created.
          and_then (initial_deposit i account_id initial_customer_deposit created)
            (setup_customers initial_customer_deposit (suc i) customers))
  ]

  -- The errors are those of the ledger, wrapped.
  unfoldable pub setup_accounts : List ℕ → List ℕ → ℕ → Ledger → SetupResult
  setup_accounts merchants customers initial_customer_deposit l =
      and_then (create_account vault_asset_id asset bank_asset scale timestamp l) (λ with_vault.
        and_then (create_account fee_revenue_id revenue fee_revenue scale timestamp with_vault)
          (λ with_fees.
            continue (setup_merchants merchants with_fees)
              (setup_customers initial_customer_deposit 0 customers)))
