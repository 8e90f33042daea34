-- ===== src/Ledger/Step/Checks.antt =====
-- What it means that the checks of an operation pass.
use trust_ledger.Common.{
  ℕ, ◌+◌, ◌-◌, ◌≤◌, ◌<◌, ◌≡◌, ◌≢◌, refl, true, Option, none, some, arith, not, ◌==◌, ltb, is_some,
}
use trust_ledger.SortedMap.{get}
use trust_ledger.Vocabulary.{Amount, TransferState, pending, state_eq, u128_mod}
use trust_ledger.LedgerError.{LedgerError, ok, fail_if, >>=-eq-ok, ok_or-eq-ok, ok_or}
use trust_ledger.Amount.{checked_add, checked_sub}
use trust_ledger.Account.{Account, ensure_can_debit, ensure_can_credit}
use trust_ledger.Transfer.{Transfer, validate_shape}
use trust_ledger.Ledger.State.{Ledger}
use trust_ledger.Ledger.Checks.{check_timestamp, validate_new_transfer, check_link}
use trust_ledger.Ledger.Step.{MayDebit, MayCredit, HasPostedHold}

pub checked_add-eq-ok :
    (a b : Amount) {n : Amount} → checked_add a b ≡ ok n → (n ≡ a + b) × (a + b < u128_mod)
unfolding checked_add
checked_add-eq-ok a b h = ground arith

pub checked_sub-eq-ok : (a b : Amount) {n : Amount} → checked_sub a b ≡ ok n → (n ≡ a - b) × (b ≤ a)
unfolding checked_sub
checked_sub-eq-ok a b h = ground arith

-- A debit that the account's checks accept is one that its flags allow.
pub ensure_can_debit-MayDebit :
    (a : Account) (amount : Amount) → ensure_can_debit a amount ≡ ok tt → MayDebit a amount
unfolding ensure_can_debit checked_add
ensure_can_debit-MayDebit a amount h = ground arith

pub ensure_can_credit-MayCredit :
    (a : Account) (amount : Amount) → ensure_can_credit a amount ≡ ok tt → MayCredit a amount
unfolding ensure_can_credit checked_add
ensure_can_credit-MayCredit a amount h = ground arith

pub state_eq→eq : (a b : TransferState) → state_eq a b ≡ true → a ≡ b
state_eq→eq a b h = ground arith

pub check_timestamp-eq-ok :
    (t : ℕ) (l : Ledger) → check_timestamp t l ≡ ok tt → l.last_timestamp ≤ t
unfolding check_timestamp
check_timestamp-eq-ok t l h = ground arith

pub check_link-eq-ok :
    (t : Transfer) (o : Option ℕ) (l : Ledger) → check_link t o l ≡ ok tt → HasPostedHold o l
check_link-eq-ok t none l h = tt
check_link-eq-ok t (some p) l h =
    let (hold, found, rest) = >>=-eq-ok (ok_or (get p l.transfers) _) _ h in
    (hold, ok_or-eq-ok _ _ found, ground arith)

-- The facts that `validate_new_transfer` establishes.
pub validate_new_transfer-eq-ok :
    (t : Transfer) (l : Ledger)
    → validate_new_transfer t l ≡ ok tt
    → (get t.id l.transfers ≡ none)
      × (t.debit_account_id ≢ t.credit_account_id)
      × (0 < t.amount)
      × (validate_shape t ≡ ok tt)
unfolding validate_new_transfer
validate_new_transfer-eq-ok t l h = ground arith

-- A pending transfer of a legal shape has no hold link.
pub validate_shape-pending :
    (t : Transfer) → validate_shape t ≡ ok tt → t.state ≡ pending → t.pending_id ≡ none
unfolding validate_shape
validate_shape-pending t h e = ground arith

-- What an early return that was not taken says.
pub is_state :
    (a b : TransferState) (e : LedgerError) → fail_if (not (state_eq a b)) e ≡ ok tt → a ≡ b
is_state a b e h = ground arith

pub is_absent {ℓ} :
    {V : Type ℓ} (o : Option V) (e : LedgerError) → fail_if (is_some o) e ≡ ok tt → o ≡ none
is_absent none e h = refl
is_absent (some v) e h = cc

pub is_positive : (n : ℕ) (e : LedgerError) → fail_if (n == 0) e ≡ ok tt → 0 < n
is_positive n e h = ground arith

pub is_at_least : (a b : ℕ) (e : LedgerError) → fail_if (ltb a b) e ≡ ok tt → b ≤ a
is_at_least a b e h = ground arith
