-- ===== src/LedgerError.antt =====
-- The errors of crates/ledger-core/src/error.rs and the results that carry them.
use Prim.Native.String.{String}
use trust_ledger.Common.{ℕ, Bool, true, false, Option, none, some, ◌≡◌, refl, ◌⊎◌, inl, inr, arith}
use trust_ledger.Vocabulary.{AccountId, TransferId, Amount, Scale, Timestamp, TransferState}

pub data LedgerError : Type 0 where
  invalid_identifier : String → LedgerError
  invalid_scale : ℕ → LedgerError
  arithmetic_overflow division_by_zero signed_balance_overflow : LedgerError
  insufficient_funds : AccountId → Amount → Amount → LedgerError
  account_already_exists account_not_found account_closed : AccountId → LedgerError
  transfer_already_exists transfer_not_found : TransferId → LedgerError
  invalid_transfer_state : TransferId → TransferState → TransferState → LedgerError
  debit_credit_account_same : AccountId → LedgerError
  zero_amount_transfer : TransferId → LedgerError
  scale_mismatch : Scale → Scale → LedgerError
  conservation_violation : Amount → Amount → LedgerError
  partial_amount_exceeds_pending : TransferId → Amount → Amount → LedgerError
  timestamp_behind_prior : Timestamp → Timestamp → LedgerError
  journal_voided_amount_mismatch : TransferId → Amount → Amount → LedgerError
  pending_balance_mismatch : AccountId → Amount → Amount → LedgerError
  invalid_pending_link : TransferId → TransferId → TransferState → LedgerError
  pending_link_missing : TransferId → TransferId → LedgerError

-- `Result<A, LedgerError>`.
pub data Result {ℓ} (A : Type ℓ) : Type ℓ where
  ok : A → Result A
  err : LedgerError → Result A

module _ {ℓ κ} {Found : Type ℓ} {Next : Type κ} where
  infixl 5 ◌>>=◌
  -- `?` on a result.
  abbrev pub ◌>>=◌ : Result Found → (Found → Result Next) → Result Next
  err failure >>= next = err failure
  ok found >>= next = next found

module _ {ℓ} {Next : Type ℓ} where
  infixl 5 ◌>>◌
  abbrev pub ◌>>◌ : Result (Unit {0}) → Result Next → Result Next
  checked >> next = checked >>= λ _. next

-- `if test { return Err(e); }`
abbrev pub fail_if : Bool → LedgerError → Result (Unit {0})
fail_if true e = err e
fail_if false e = ok tt

-- `option.ok_or(e)`
abbrev pub ok_or {ℓ} : {A : Type ℓ} → Option A → LedgerError → Result A
ok_or none e = err e
ok_or (some a) e = ok a

-- What a chain that succeeds has found on its way, for proofs where the parts stay shut.
module _ {ℓ κ} {Found : Type ℓ} {Next : Type κ} where
  pub >>=-eq-ok :
      (first : Result Found) (next : Found → Result Next) {last : Next}
      → ◌>>=◌ first next ≡ ok last
      → (found : Found) × (first ≡ ok found) × (next found ≡ ok last)
  >>=-eq-ok (err failure) next h = cc
  >>=-eq-ok (ok found) next h = (found, refl, h)

module _ {ℓ} {Next : Type ℓ} where
  pub >>-eq-ok :
      (first : Result (Unit {0})) (next : Result Next) {last : Next}
      → ◌>>◌ first next ≡ ok last
      → (first ≡ ok tt) × (next ≡ ok last)
  >>-eq-ok (err failure) next h = cc
  >>-eq-ok (ok tt) next h = (refl, h)

pub fail_if-eq-ok : (b : Bool) (e : LedgerError) → fail_if b e ≡ ok tt → b ≡ false
fail_if-eq-ok true e h = cc
fail_if-eq-ok false e h = refl

pub ok_or-eq-ok {ℓ} :
    {A : Type ℓ} (o : Option A) (e : LedgerError) {a : A} → ok_or o e ≡ ok a → o ≡ some a
ok_or-eq-ok none e h = cc
ok_or-eq-ok (some a) e h = ground arith

-- A result is a value or an error.
pub Result-cases {ℓ} :
    {A : Type ℓ} (r : Result A) → ((a : A) × (r ≡ ok a)) ⊎ ((e : LedgerError) × (r ≡ err e))
Result-cases (ok a) = inl (a, refl)
Result-cases (err e) = inr (e, refl)
