-- ===== src/Ledger/Invariant/Promises.antt =====
-- What clients of ledger.rs may rely on in every ledger that its public methods lead to, whatever
-- was called before and however it ended.
use trust_ledger.Common.{◌≡◌, some, true, ◌+◌, ◌≤◌}
use trust_ledger.Account.{Account}
use trust_ledger.Ledger.Invariant.{
  IsWellFormed, credits_pending_of, credits_posted_of, debits_pending_of, debits_posted_of,
  held_credit, held_debit,
}
use trust_ledger.Ledger.Invariant.Reachable.{Reachable, Reachable-IsSound}
use trust_ledger.Ledger.Invariant.Solvent.{Reachable-AllWithinLimits}
use trust_ledger.Ledger.State.{Ledger}
use trust_ledger.SortedMap.{get, sum_of}
use trust_ledger.Transfer.{Transfer}
use trust_ledger.Vocabulary.{AccountId, TransferId, Scale}

module _ (scale : Scale) (l : Ledger) (r : Reachable scale l) where
  -- Double entry: in every reachable ledger the posted debits of all accounts add up to the posted
  -- credits of all accounts, and the pending debits to the pending credits.
  pub Reachable-balanced :
      (sum_of debits_posted_of l.accounts ≡ sum_of credits_posted_of l.accounts)
      × (sum_of debits_pending_of l.accounts ≡ sum_of credits_pending_of l.accounts)
  Reachable-balanced =
      let s = Reachable-IsSound scale l r in (s.balanced.posted_balance, s.balanced.pending_balance)

  -- In every reachable ledger, the pending debits of an account are the sum of the amounts of the
  -- pending transfers that debit it, and its pending credits of those that credit it.
  pub Reachable-backed :
      (id : AccountId) (a : Account)
      → get id l.accounts ≡ some a
      → (a.balance.debits_pending ≡ sum_of (held_debit id) l.transfers)
        × (a.balance.credits_pending ≡ sum_of (held_credit id) l.transfers)
  Reachable-backed id a found =
      let s = Reachable-IsSound scale l r in
      (s.backed.debits_backed id a found, s.backed.credits_backed id a found)

  -- In every reachable ledger, a transfer is stored under its own identifier, its two accounts
  -- differ and exist, and its hold link fits its state: none on a pending or voided transfer, and
  -- none or the identifier of a stored posted transfer on a posted one.
  pub Reachable-IsWellFormed :
      (id : TransferId) (t : Transfer) → get id l.transfers ≡ some t → IsWellFormed l id t
  Reachable-IsWellFormed id t found = (Reachable-IsSound scale l r).transfers_ok id t found

  -- In every reachable ledger, an account whose debits must not exceed its credits has posted and
  -- pending debits of at most its posted credits.
  pub Reachable-debits_covered :
      (id : AccountId) (a : Account)
      → get id l.accounts ≡ some a
      → a.flags.debits_must_not_exceed_credits ≡ true
      → a.balance.debits_posted + a.balance.debits_pending ≤ a.balance.credits_posted
  Reachable-debits_covered id a found flag =
      (Reachable-AllWithinLimits scale l r id a found).debit_side flag

  -- In every reachable ledger, an account whose credits must not exceed its debits has posted and
  -- pending credits of at most its posted debits.
  pub Reachable-credits_covered :
      (id : AccountId) (a : Account)
      → get id l.accounts ≡ some a
      → a.flags.credits_must_not_exceed_debits ≡ true
      → a.balance.credits_posted + a.balance.credits_pending ≤ a.balance.debits_posted
  Reachable-credits_covered id a found flag =
      (Reachable-AllWithinLimits scale l r id a found).credit_side flag
