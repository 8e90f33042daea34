-- ===== src/Ledger/Step.antt =====
-- What a ledger mutation is meant to do, apart from how ledger.rs runs it: for each kind of
-- journal event the conditions under which it may happen and the ledger that it leads to.
pub mod Checks
pub mod Writes
pub mod Transfers
pub mod Holds
pub mod Events
pub mod Allowed
use trust_ledger.Common.{
  ℕ, ◌+◌, ◌-◌, ◌≤◌, ◌<◌, ◌≡◌, ◌≢◌, Bool, true, false, Option, none, some, List, [], ◌∷◌, ◌++◌, max,
}
use trust_ledger.SortedMap.{SortedMap, get, insert, update}
use trust_ledger.Vocabulary.{
  AccountId, TransferId, Amount, Scale, Timestamp, AccountType, AccountFlags, TransferState,
  pending, posted, voided, u128_mod,
}
use trust_ledger.Account.{Account, Balance, new_account}
use trust_ledger.Transfer.{Transfer, settlement, restore_state}
use trust_ledger.Journal.{LedgerEvent}
use trust_ledger.Ledger.State.{Ledger}

-- What a debit of `amount` needs of an account.
pub record MayDebit (a : Account) (amount : Amount) : Type 0 where
  pub is_open : a.flags.is_closed ≡ false
  pub covered :
      a.flags.debits_must_not_exceed_credits ≡ true
      → a.balance.debits_posted + a.balance.debits_pending + amount ≤ a.balance.credits_posted

-- What a credit of `amount` needs of an account.
pub record MayCredit (a : Account) (amount : Amount) : Type 0 where
  pub is_open : a.flags.is_closed ≡ false
  pub covered :
      a.flags.credits_must_not_exceed_debits ≡ true
      → a.balance.credits_posted + a.balance.credits_pending + amount ≤ a.balance.debits_posted

-- The hold link of a transfer is absent, or names a posted hold.
abbrev pub HasPostedHold : Option TransferId → Ledger → Type 0
HasPostedHold none l = Unit {0}
HasPostedHold (some p) l = (h : Transfer) × (get p l.transfers ≡ some h) × (h.state ≡ posted)

-- A change of one account's balance, in place.
abbrev pub on_balance : (Balance → Balance) → Account → Account
on_balance f a = record a { balance = f a.balance }

-- The balances of two accounts change.
abbrev pub rebalance :
    AccountId
    → (Balance → Balance)
    → AccountId
    → (Balance → Balance)
    → SortedMap Account
    → SortedMap Account
rebalance d f c g m = update c (on_balance g) (update d (on_balance f) m)

abbrev pub post_debit : Amount → Balance → Balance
post_debit n b = record b { debits_posted = b.debits_posted + n }

abbrev pub post_credit : Amount → Balance → Balance
post_credit n b = record b { credits_posted = b.credits_posted + n }

abbrev pub hold_debit : Amount → Balance → Balance
hold_debit n b = record b { debits_pending = b.debits_pending + n }

abbrev pub hold_credit : Amount → Balance → Balance
hold_credit n b = record b { credits_pending = b.credits_pending + n }

-- A hold of `held` is released and `n` of it is posted.
abbrev pub capture_debit : Amount → Amount → Balance → Balance
capture_debit held n b = record b {
  debits_pending = b.debits_pending - held;
  debits_posted = b.debits_posted + n;
}

abbrev pub capture_credit : Amount → Amount → Balance → Balance
capture_credit held n b = record b {
  credits_pending = b.credits_pending - held;
  credits_posted = b.credits_posted + n;
}

abbrev pub release_debit : Amount → Balance → Balance
release_debit held b = record b { debits_pending = b.debits_pending - held }

abbrev pub release_credit : Amount → Balance → Balance
release_credit held b = record b { credits_pending = b.credits_pending - held }

-- The ledgers that the steps lead to.
abbrev pub created_ledger :
    AccountId → AccountType → AccountFlags → Scale → Timestamp → Ledger → Ledger
created_ledger id account_type flags scale timestamp l = record {
  scale = l.scale;
  accounts = insert id (new_account id account_type flags scale) l.accounts;
  transfers = l.transfers;
  journal = l.journal ++ LedgerEvent.account_created id account_type flags scale timestamp ∷ [];
  last_timestamp = timestamp;
}

pub record Creates (id : AccountId) (account_type : AccountType) (flags : AccountFlags)
    (scale : Scale) (timestamp : Timestamp) (l l' : Ledger) : Type 0 where
  pub timely : l.last_timestamp ≤ timestamp
  pub fresh : get id l.accounts ≡ none
  pub same_scale : scale ≡ l.scale
  pub result : l' ≡ created_ledger id account_type flags scale timestamp l

abbrev pub shut : Account → Account
shut a = record a { flags = record (a.flags) { is_closed = true } }

abbrev pub closed_ledger : AccountId → Timestamp → Ledger → Ledger
closed_ledger id timestamp l = record {
  scale = l.scale;
  accounts = update id shut l.accounts;
  transfers = l.transfers;
  journal = l.journal ++ LedgerEvent.account_closed id timestamp ∷ [];
  last_timestamp = timestamp;
}

pub record Closes (id : AccountId) (timestamp : Timestamp) (l l' : Ledger) : Type 0 where
  pub timely : l.last_timestamp ≤ timestamp
  pub account : Account
  pub found : get id l.accounts ≡ some account
  pub is_open : account.flags.is_closed ≡ false
  pub result : l' ≡ closed_ledger id timestamp l

-- What a new transfer needs, posted or pending.
pub record Admissible (t : Transfer) (l : Ledger) : Type 0 where
  pub timely : l.last_timestamp ≤ t.timestamp
  pub fresh : get t.id l.transfers ≡ none
  pub distinct : t.debit_account_id ≢ t.credit_account_id
  pub positive : 0 < t.amount
  pub debtor : Account
  pub creditor : Account
  pub found_debtor : get t.debit_account_id l.accounts ≡ some debtor
  pub found_creditor : get t.credit_account_id l.accounts ≡ some creditor
  pub may_debit : MayDebit debtor t.amount
  pub may_credit : MayCredit creditor t.amount

abbrev pub posted_ledger : Transfer → Ledger → Ledger
posted_ledger t l = record {
  scale = l.scale;
  accounts =
      rebalance t.debit_account_id (post_debit t.amount) t.credit_account_id (post_credit t.amount)
        l.accounts;
  transfers = insert t.id t l.transfers;
  journal = l.journal ++ LedgerEvent.transfer_posted t ∷ [];
  last_timestamp = t.timestamp;
}

pub record Posts (t : Transfer) (l l' : Ledger) : Type 0 where
  pub admissible : Admissible t l
  pub open admissible use *
  pub is_posted : t.state ≡ posted
  pub linked : HasPostedHold t.pending_id l
  pub debit_fits : debtor.balance.debits_posted + t.amount < u128_mod
  pub credit_fits : creditor.balance.credits_posted + t.amount < u128_mod
  pub result : l' ≡ posted_ledger t l

abbrev pub reserved_ledger : Transfer → Ledger → Ledger
reserved_ledger t l = record {
  scale = l.scale;
  accounts =
      rebalance t.debit_account_id (hold_debit t.amount) t.credit_account_id (hold_credit t.amount)
        l.accounts;
  transfers = insert t.id t l.transfers;
  journal = l.journal ++ LedgerEvent.transfer_pending_created t ∷ [];
  last_timestamp = t.timestamp;
}

pub record Reserves (t : Transfer) (l l' : Ledger) : Type 0 where
  pub admissible : Admissible t l
  pub open admissible use *
  pub is_pending : t.state ≡ pending
  pub unlinked : t.pending_id ≡ none
  pub debit_fits : debtor.balance.debits_pending + t.amount < u128_mod
  pub credit_fits : creditor.balance.credits_pending + t.amount < u128_mod
  pub result : l' ≡ reserved_ledger t l

-- A pending transfer and the two accounts that reserve its amount.
pub record Held (pending_id : TransferId) (timestamp : Timestamp) (l : Ledger) : Type 0 where
  pub timely : l.last_timestamp ≤ timestamp
  pub hold : Transfer
  pub debtor : Account
  pub creditor : Account
  pub found_hold : get pending_id l.transfers ≡ some hold
  pub found_debtor : get hold.debit_account_id l.accounts ≡ some debtor
  pub found_creditor : get hold.credit_account_id l.accounts ≡ some creditor
  pub is_pending : hold.state ≡ pending
  pub debit_held : hold.amount ≤ debtor.balance.debits_pending
  pub credit_held : hold.amount ≤ creditor.balance.credits_pending

abbrev pub captured_ledger :
    Transfer → TransferId → TransferId → Amount → Timestamp → Ledger → Ledger
captured_ledger hold pending_id post_transfer_id amount timestamp l = record {
  scale = l.scale;
  accounts =
      rebalance hold.debit_account_id (capture_debit hold.amount amount) hold.credit_account_id
        (capture_credit hold.amount amount) l.accounts;
  transfers =
      insert post_transfer_id
        (settlement post_transfer_id hold.debit_account_id hold.credit_account_id amount pending_id
          timestamp)
        (update pending_id (restore_state posted) l.transfers);
  journal =
      l.journal
      ++ LedgerEvent.transfer_pending_posted pending_id post_transfer_id amount timestamp ∷ [];
  last_timestamp = timestamp;
}

pub record Captures (pending_id post_transfer_id : TransferId) (amount : Amount)
    (timestamp : Timestamp) (l l' : Ledger) : Type 0 where
  pub held : Held pending_id timestamp l
  pub open held use *
  pub fresh : get post_transfer_id l.transfers ≡ none
  pub distinct : hold.debit_account_id ≢ hold.credit_account_id
  pub positive : 0 < amount
  pub within : amount ≤ hold.amount
  pub debit_fits : debtor.balance.debits_posted + amount < u128_mod
  pub credit_fits : creditor.balance.credits_posted + amount < u128_mod
  pub result : l' ≡ captured_ledger hold pending_id post_transfer_id amount timestamp l

abbrev pub released_ledger : Transfer → TransferId → Timestamp → Ledger → Ledger
released_ledger hold pending_id timestamp l = record {
  scale = l.scale;
  accounts =
      rebalance hold.debit_account_id (release_debit hold.amount) hold.credit_account_id
        (release_credit hold.amount) l.accounts;
  transfers = update pending_id (restore_state voided) l.transfers;
  journal = l.journal ++ LedgerEvent.transfer_pending_voided pending_id hold.amount timestamp ∷ [];
  last_timestamp = timestamp;
}

pub record Releases (pending_id : TransferId) (timestamp : Timestamp) (l l' : Ledger) : Type 0 where
  pub held : Held pending_id timestamp l
  pub open held use *
  pub result : l' ≡ released_ledger hold pending_id timestamp l

-- The step that a journal event records. A void event states the amount of its hold.
abbrev pub Step : LedgerEvent → Ledger → Ledger → Type 0
Step (LedgerEvent.account_created id account_type flags scale timestamp) l l' =
    Creates id account_type flags scale timestamp l l'
Step (LedgerEvent.account_closed id timestamp) l l' = Closes id timestamp l l'
Step (LedgerEvent.transfer_posted t) l l' = Posts t l l'
Step (LedgerEvent.transfer_pending_created t) l l' = Reserves t l l'
Step (LedgerEvent.transfer_pending_posted pending_id post_transfer_id amount timestamp) l l' =
    Captures pending_id post_transfer_id amount timestamp l l'
Step (LedgerEvent.transfer_pending_voided pending_id amount timestamp) l l' =
    (r : Releases pending_id timestamp l l') × (r.hold.amount ≡ amount)
