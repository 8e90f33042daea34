-- ===== src/Ledger/Step/Writes.antt =====
-- The writes of an operation after its checks, and how a call may end.
use trust_ledger.Common.{ℕ, ◌≤◌, ◌≡◌, ◌≢◌, refl, sym, ◌∙◌, ap, some, arith, ne→==, max}
use trust_ledger.SortedMap.{get, update}
use trust_ledger.SortedMap.Lookup.{get-update}
use trust_ledger.SortedMap.Undo.{update-congr}
use trust_ledger.Vocabulary.{AccountId}
use trust_ledger.LedgerError.{LedgerError, Result, ok, err}
use trust_ledger.Vocabulary.{TransferId, TransferState}
use trust_ledger.Account.{Account, Balance}
use trust_ledger.Transfer.{Transfer, transition_to, restore_state}
use trust_ledger.Ledger.State.{
  Ledger, Outcome, done, fail, Method, write_balance, write_state, ◌>>=◌, read, lift_result,
}
use trust_ledger.Ledger.Step.{on_balance, rebalance}

-- How a call that began at `l` may end.
pub data Refines (l : Ledger) (S : Ledger → Type 0) (o : Outcome (Unit {0})) : Type 0 where
  applied : (l' : Ledger) → o ≡ done tt l' → S l' → Refines l S o
  refused : (e : LedgerError) → o ≡ fail e l → Refines l S o

-- Two writes of a balance, as one change of the accounts; `y` is what the second one finds.
pub two_writes_at :
    {A : Type 0} (d c : AccountId) (f g f' g' : Balance → Balance) (x y : Account) (l : Ledger)
    (k : Method A)
    → get d l.accounts ≡ some x
    → get c (update d (on_balance f) l.accounts) ≡ some y
    → f x.balance ≡ f' x.balance
    → g y.balance ≡ g' y.balance
    → (write_balance d f >>= λ _. write_balance c g >>= λ _. k) l
      ≡ k (record l { accounts = rebalance d f' c g' l.accounts })
two_writes_at d c f g f' g' x y l k fx fy ef eg =
    let same : rebalance d f c g l.accounts ≡ rebalance d f' c g' l.accounts =
      update-congr c (on_balance g) (on_balance g') y _ fy (ap (λ b. record y { balance = b }) eg)
      ∙ ap (update c (on_balance g')) (
          update-congr d (on_balance f) (on_balance f') x _ fx
            (ap (λ b. record x { balance = b }) ef)) in
    rw (fx, ◌>>=◌, write_balance)
      (rw (fy, ◌>>=◌, write_balance) (ap (λ m. k (record l { accounts = m })) same))

-- The same for two accounts that differ.
pub two_writes :
    {A : Type 0} (d c : AccountId) (f g f' g' : Balance → Balance) (x y : Account) (l : Ledger)
    (k : Method A)
    → d ≢ c
    → get d l.accounts ≡ some x
    → get c l.accounts ≡ some y
    → f x.balance ≡ f' x.balance
    → g y.balance ≡ g' y.balance
    → (write_balance d f >>= λ _. write_balance c g >>= λ _. k) l
      ≡ k (record l { accounts = rebalance d f' c g' l.accounts })
two_writes d c f g f' g' x y l k ne fx fy ef eg =
    two_writes_at d c f g f' g' x y l k fx
      (rw (get-update c d (on_balance f) l.accounts, ne→== c d (λ e. ne (sym e)), fy)) ef eg

-- A call whose checks fail has failed there.
pub read_err :
    {A B : Type 0} (r : Ledger → Result A) (k : A → Method B) (l : Ledger) {e : LedgerError}
    → r l ≡ err e
    → (read r >>= k) l ≡ fail e l
read_err r k l h = ap (λ q. ◌>>=◌ (λ _. lift_result q l) k l) h

pub read_ok :
    {A B : Type 0} (r : Ledger → Result A) (k : A → Method B) (l : Ledger) {a : A}
    → r l ≡ ok a
    → (read r >>= k) l ≡ k a l
read_ok r k l h = ap (λ q. ◌>>=◌ (λ _. lift_result q l) k l) h

pub max-eq_right : {a b : ℕ} → a ≤ b → max a b ≡ b
max-eq_right h = omega arith

-- The write of a transfer's state.
pub state_write :
    {A : Type 0} (id : TransferId) (target : TransferState) (t : Transfer) (l : Ledger)
    (k : Method A)
    → get id l.transfers ≡ some t
    → transition_to target t ≡ ok (restore_state target t)
    → (write_state id target >>= λ _. k) l
      ≡ k (record l { transfers = update id (restore_state target) l.transfers })
state_write id target t l k found legal =
    rw (found, ◌>>=◌, write_state)
      (rw (legal, ◌>>=◌, write_state)
        (ap (λ m. k (record l { transfers = m }))
          (update-congr id (λ _. restore_state target t) (restore_state target) t l.transfers found
            refl)))
