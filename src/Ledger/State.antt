-- ===== src/Ledger/State.antt =====
-- The state of `Ledger`, and methods with `&mut self` that return a result. What was written
-- before an error stays written, so both outcomes carry the state.
use trust_ledger.Common.{none, some, List, [], ◌∷◌, ◌++◌, max, inl, inr, refl, ◌≡◌, ◌⊎◌}
use trust_ledger.SortedMap.{SortedMap, get, update, insert}
use trust_ledger.Vocabulary.{AccountId, TransferId, Scale, Timestamp, TransferState}
use trust_ledger.LedgerError.{LedgerError, Result, ok, err, account_not_found, transfer_not_found}
use trust_ledger.Account.{Account, Balance}
use trust_ledger.Transfer.{Transfer, transition_to}
use trust_ledger.Journal.{LedgerEvent}

pub record Ledger : Type 0 where
  pub scale : Scale
  pub accounts : SortedMap Account
  pub transfers : SortedMap Transfer
  pub journal : List LedgerEvent
  pub last_timestamp : Timestamp

-- `Ledger::new`
abbrev pub new_ledger : Scale → Ledger
new_ledger scale = record {
  scale = scale;
  accounts = [];
  transfers = [];
  journal = [];
  last_timestamp = 0;
}

pub data Outcome (A : Type 0) : Type 0 where
  done : A → Ledger → Outcome A
  fail : LedgerError → Ledger → Outcome A

-- A method with `&mut self`.
abbrev pub Method : Type 0 → Type 0
Method A = Ledger → Outcome A

-- The state that a call leaves behind.
abbrev pub after : {A : Type 0} → Outcome A → Ledger
after (done a l) = l
after (fail e l) = l

infixl 5 ◌>>=◌ ◌>>◌
abbrev pub ◌>>=◌ : {A B : Type 0} → Method A → (A → Method B) → Method B
◌>>=◌ m f l = elim (m l) [ done a l' ↦ f a l' | fail e l' ↦ fail e l' ]

abbrev pub ◌>>◌ : {B : Type 0} → Method (Unit {0}) → Method B → Method B
m >> k = m >>= λ _. k

-- A result that reads the state, with `?`.
abbrev pub lift_result : {A : Type 0} → Result A → Method A
lift_result (ok a) l = done a l
lift_result (err e) l = fail e l

abbrev pub read : {A : Type 0} → (Ledger → Result A) → Method A
read f l = lift_result (f l) l

-- `self.accounts.get_mut(&id).ok_or(AccountNotFound(id))?` and a write to the balance.
abbrev pub write_balance : AccountId → (Balance → Balance) → Method (Unit {0})
write_balance id f l = elim (get id l.accounts) [
  | none ↦ fail (account_not_found id) l
  | some a ↦
      done tt
        (record l { accounts = update id (λ b. record b { balance = f b.balance }) l.accounts })
]

-- `self.transfers.get_mut(&id).ok_or(TransferNotFound(id))?.transition_to(target)?`
abbrev pub write_state : TransferId → TransferState → Method (Unit {0})
write_state id target l = elim (get id l.transfers) [
  | none ↦ fail (transfer_not_found id) l
  | some t ↦ elim (transition_to target t) [
    | ok t' ↦ done tt (record l { transfers = update id (λ _. t') l.transfers })
    | err e ↦ fail e l
  ]
]

abbrev pub insert_account : AccountId → Account → Method (Unit {0})
insert_account id a l = done tt (record l { accounts = insert id a l.accounts })

abbrev pub insert_transfer : TransferId → Transfer → Method (Unit {0})
insert_transfer id t l = done tt (record l { transfers = insert id t l.transfers })

abbrev pub advance_timestamp : Timestamp → Method (Unit {0})
advance_timestamp timestamp l =
    done tt (record l { last_timestamp = max l.last_timestamp timestamp })

abbrev pub push_event : LedgerEvent → Method (Unit {0})
push_event event l = done tt (record l { journal = l.journal ++ event ∷ [] })

pub Outcome-cases :
    {A : Type 0} (o : Outcome A)
    → ((a : A) × (l : Ledger) × (o ≡ done a l))
      ⊎ ((e : LedgerError) × (l : Ledger) × (o ≡ fail e l))
Outcome-cases (done a l) = inl (a, l, refl)
Outcome-cases (fail e l) = inr (e, l, refl)
