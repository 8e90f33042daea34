-- ===== src/Ledger/Verify.antt =====
-- `verify_invariants` and `verify_structure` of ledger.rs.
pub mod Structure
pub mod Accepts
use trust_ledger.Common.{ℕ, Option, none, some, List, [], ◌∷◌, not, ◌==◌, is_some, if◌then◌else◌}
use mathlib.Core.Option
use trust_ledger.SortedMap.{SortedMap, get, insert, contains_key}
use trust_ledger.Vocabulary.{AccountId, Amount, TransferState, pending, posted, voided}
use trust_ledger.LedgerError.{
  Result, ok, err, ◌>>=◌, ◌>>◌, fail_if, account_not_found, conservation_violation,
  pending_balance_mismatch, invalid_pending_link,
}
use trust_ledger.Amount.{checked_add}
use trust_ledger.Account.{Account}
use trust_ledger.Transfer.{Transfer}
use trust_ledger.Ledger.State.{Ledger}
use trust_ledger.Ledger.Checks.{validate_pending_link}

-- The four sums of the first loop.
pub record Totals : Type 0 where
  pub debits_posted : Amount
  pub credits_posted : Amount
  pub debits_pending : Amount
  pub credits_pending : Amount

unfoldable pub add_account : Account → Totals → Result Totals
add_account a t = do
  debits_posted ← checked_add t.debits_posted a.balance.debits_posted
  credits_posted ← checked_add t.credits_posted a.balance.credits_posted
  debits_pending ← checked_add t.debits_pending a.balance.debits_pending
  credits_pending ← checked_add t.credits_pending a.balance.credits_pending
  ok (record {
    debits_posted = debits_posted;
    credits_posted = credits_posted;
    debits_pending = debits_pending;
    credits_pending = credits_pending;
  })

-- The loop over `self.accounts.values()`.
unfoldable pub add_totals : SortedMap Account → Totals → Result Totals
add_totals [] t = ok t
add_totals ((id, a) ∷ accounts) t = elim (add_account a t) [
  | ok t' ↦ add_totals accounts t'
  | err e ↦ err e
]

-- `held_debits` and `held_credits`.
pub record Holds : Type 0 where
  pub debits : SortedMap Amount
  pub credits : SortedMap Amount

-- `map.get(&id).copied().unwrap_or(Amount::ZERO)`
abbrev pub amount_at : AccountId → SortedMap Amount → Amount
amount_at id m = Option.get_or (get id m) 0

-- `*entry(id).or_insert(ZERO) = entry.checked_add(amount)?`
unfoldable pub add_held : AccountId → Amount → SortedMap Amount → Result (SortedMap Amount)
add_held id amount m = do total ← checked_add (amount_at id m) amount; ok (insert id total m)

-- The arm of a pending transfer.
unfoldable pub hold_transfer : Transfer → Holds → Result Holds
hold_transfer t h = do
  debits ← add_held t.debit_account_id t.amount h.debits
  credits ← add_held t.credit_account_id t.amount h.credits
  ok (record { debits = debits; credits = credits })

-- The arm of a voided transfer.
abbrev pub check_voided : Transfer → Option ℕ → Result (Unit {0})
check_voided t none = ok tt
check_voided t (some pending_id) = err (invalid_pending_link t.id pending_id t.state)

-- The match on the state.
unfoldable pub check_state : Transfer → TransferState → Ledger → Holds → Result Holds
check_state t pending l h = hold_transfer t h
check_state t posted l h = do validate_pending_link t l; ok h
check_state t voided l h = do check_voided t t.pending_id; ok h

unfoldable pub check_transfer : Transfer → Ledger → Holds → Result Holds
check_transfer t l h = do
  fail_if (not (contains_key t.debit_account_id l.accounts)) (account_not_found t.debit_account_id)
  fail_if (not (contains_key t.credit_account_id l.accounts))
      (account_not_found t.credit_account_id)
  check_state t t.state l h

-- The loop over `self.transfers.values()`.
unfoldable pub check_transfers : SortedMap Transfer → Ledger → Holds → Result Holds
check_transfers [] l h = ok h
check_transfers ((id, t) ∷ transfers) l h = elim (check_transfer t l h) [
  | ok h' ↦ check_transfers transfers l h'
  | err e ↦ err e
]

unfoldable pub check_account : AccountId → Account → Holds → Result (Unit {0})
check_account id a h = do
  fail_if (not (a.balance.debits_pending == amount_at id h.debits))
      (pending_balance_mismatch id a.balance.debits_pending (amount_at id h.debits))
  fail_if (not (a.balance.credits_pending == amount_at id h.credits))
      (pending_balance_mismatch id a.balance.credits_pending (amount_at id h.credits))

-- The loop over `&self.accounts`.
unfoldable pub check_accounts : SortedMap Account → Holds → Result (Unit {0})
check_accounts [] h = ok tt
check_accounts ((id, a) ∷ accounts) h = elim (check_account id a h) [
  | ok u ↦ check_accounts accounts h
  | err e ↦ err e
]

unfoldable pub verify_structure : Ledger → Result (Unit {0})
verify_structure l = do
  holds ← check_transfers l.transfers l (record { debits = []; credits = [] })
  check_accounts l.accounts holds

abbrev pub no_totals : Totals
no_totals = record {
  debits_posted = 0;
  credits_posted = 0;
  debits_pending = 0;
  credits_pending = 0;
}

unfoldable pub verify_invariants : Ledger → Result (Unit {0})
verify_invariants l = do
  t ← add_totals l.accounts no_totals
  fail_if (not (t.debits_posted == t.credits_posted))
      (conservation_violation t.debits_posted t.credits_posted)
  fail_if (not (t.debits_pending == t.credits_pending))
      (conservation_violation t.debits_pending t.credits_pending)
  verify_structure l
