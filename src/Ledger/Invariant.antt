-- ===== src/Ledger/Invariant.antt =====
-- The invariants of ledger.rs that every step keeps: what `verify_invariants` checks, and what
-- its checks rest on.
pub mod Balanced
pub mod Backed
pub mod Growth
pub mod Stored
pub mod Reachable
pub mod Solvent
pub mod Lifecycle
pub mod Promises
pub mod Chronicle
use trust_ledger.Common.{◌≡◌, Option, if◌then◌else◌, none, some, true, ℕ, ◌==◌, ◌≢◌}
use trust_ledger.Account.{Account}
use trust_ledger.Ledger.State.{Ledger}
use trust_ledger.Ledger.Step.{HasPostedHold}
use trust_ledger.SortedMap.{get, contains_key, sum_of}
use trust_ledger.Transfer.{Transfer}
use trust_ledger.Vocabulary.{AccountId, TransferId, Amount, TransferState, pending, posted, voided}
use trust_ledger.SortedMap.Keys.{UniqueKeys}

abbrev pub debits_posted_of : Account → ℕ
debits_posted_of a = a.balance.debits_posted

abbrev pub credits_posted_of : Account → ℕ
credits_posted_of a = a.balance.credits_posted

abbrev pub debits_pending_of : Account → ℕ
debits_pending_of a = a.balance.debits_pending

abbrev pub credits_pending_of : Account → ℕ
credits_pending_of a = a.balance.credits_pending

-- Total debits are total credits, posted and pending.
pub record IsBalanced (l : Ledger) : Type 0 where
  pub posted_balance : sum_of debits_posted_of l.accounts ≡ sum_of credits_posted_of l.accounts
  pub pending_balance : sum_of debits_pending_of l.accounts ≡ sum_of credits_pending_of l.accounts

-- What is held by a transfer in a state.
abbrev pub amount_in : TransferState → Amount → Amount
amount_in pending n = n
amount_in posted n = 0
amount_in voided n = 0

-- What a transfer reserves of an account's debits, and of its credits.
abbrev pub held_debit : AccountId → Transfer → Amount
held_debit id t = if t.debit_account_id == id then amount_in t.state t.amount else 0

abbrev pub held_credit : AccountId → Transfer → Amount
held_credit id t = if t.credit_account_id == id then amount_in t.state t.amount else 0

-- Every account's reservations are the sum of its pending transfers.
pub record IsBacked (l : Ledger) : Type 0 where
  pub debits_backed :
      (id : AccountId) (a : Account)
      → get id l.accounts ≡ some a
      → a.balance.debits_pending ≡ sum_of (held_debit id) l.transfers
  pub credits_backed :
      (id : AccountId) (a : Account)
      → get id l.accounts ≡ some a
      → a.balance.credits_pending ≡ sum_of (held_credit id) l.transfers

-- The hold link that a transfer may carry in its state.
abbrev pub LinkFits : TransferState → Option TransferId → Ledger → Type 0
LinkFits pending o l = o ≡ none
LinkFits posted o l = HasPostedHold o l
LinkFits voided o l = o ≡ none

-- What every stored transfer satisfies.
pub record IsWellFormed (l : Ledger) (id : TransferId) (t : Transfer) : Type 0 where
  pub keyed : t.id ≡ id
  pub distinct : t.debit_account_id ≢ t.credit_account_id
  pub has_debtor : contains_key t.debit_account_id l.accounts ≡ true
  pub has_creditor : contains_key t.credit_account_id l.accounts ≡ true
  pub link_fits : LinkFits t.state t.pending_id l

-- The invariant of the ledger.
pub record IsSound (l : Ledger) : Type 0 where
  pub balanced : IsBalanced l
  pub backed : IsBacked l
  pub transfers_ok :
      (id : TransferId) (t : Transfer) → get id l.transfers ≡ some t → IsWellFormed l id t
  pub unique_accounts : UniqueKeys l.accounts
  pub unique_transfers : UniqueKeys l.transfers
