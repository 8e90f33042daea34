-- ===== src/Ledger/Verify/Structure.antt =====
-- `verify_structure` of ledger.rs accepts every sound ledger whose pending totals fit in 128 bits.
use trust_ledger.Common.{
  ◌≡◌, Option, [], arith, if◌then◌else◌, none, refl, some, sym, ◌+◌, ◌<◌, ◌==◌, ◌∙◌, ◌∷◌, ◌≢◌,
}
use trust_ledger.Account.{Account}
use trust_ledger.Amount.{checked_add}
use trust_ledger.Ledger.Checks.{check_link, validate_pending_link}
use trust_ledger.Ledger.Invariant.{held_debit, held_credit, LinkFits, IsWellFormed}
use trust_ledger.Ledger.Invariant.Backed.{held_none, held_all, posted-ne-pending, voided-ne-pending}
use trust_ledger.Ledger.State.{Ledger}
use trust_ledger.Ledger.Step.{HasPostedHold}
use trust_ledger.Ledger.Verify.{
  Holds, amount_at, add_held, hold_transfer, check_voided, check_state, check_transfer,
  check_transfers, check_account, check_accounts,
}
use trust_ledger.LedgerError.{ok, ◌>>=◌, ◌>>◌}
use trust_ledger.SortedMap.{SortedMap, get, insert, sum_of}
use trust_ledger.SortedMap.Keys.{UniqueKeys, get-tail, get-head}
use trust_ledger.SortedMap.Lookup.{get-insert}
use trust_ledger.Transfer.{Transfer}
use trust_ledger.Vocabulary.{
  AccountId, TransferId, Amount, u128_mod, TransferState, pending, posted, voided,
}

pub checked_add-fits : (a b : Amount) → a + b < u128_mod → checked_add a b ≡ ok (a + b)
unfolding checked_add
checked_add-fits a b h = ground arith

-- The amount held at any account after one more entry.
amount_at-insert :
    (id d : AccountId) (n : Amount) (m : SortedMap Amount)
    → amount_at id (insert d n m) ≡ (if id == d then n else amount_at id m)
amount_at-insert id d n m = ground (arith, get-insert id d n m)

add_held-fits :
    (d : AccountId) (n : Amount) (m : SortedMap Amount)
    → amount_at d m + n < u128_mod
    → add_held d n m ≡ ok (insert d (amount_at d m + n) m)
unfolding add_held
add_held-fits d n m h = rw (checked_add-fits (amount_at d m) n h, ◌>>=◌) refl

-- The holds after one transfer.
pub record Adds (t : Transfer) (h h' : Holds) : Type 0 where
  pub debits : (id : AccountId) → amount_at id h'.debits ≡ amount_at id h.debits + held_debit id t
  pub credits :
      (id : AccountId) → amount_at id h'.credits ≡ amount_at id h.credits + held_credit id t

hold_transfer-Adds :
    (t : Transfer) (h : Holds)
    → t.state ≡ pending
    → amount_at t.debit_account_id h.debits + t.amount < u128_mod
    → amount_at t.credit_account_id h.credits + t.amount < u128_mod
    → (h' : Holds) × (hold_transfer t h ≡ ok h') × Adds t h h'
unfolding hold_transfer
hold_transfer-Adds t h is fd fc =
    let d = t.debit_account_id in
    let c = t.credit_account_id in
    (
      record {
        debits = insert d (amount_at d h.debits + t.amount) h.debits;
        credits = insert c (amount_at c h.credits + t.amount) h.credits;
      },
      rw (add_held-fits d t.amount h.debits fd, ◌>>=◌)
          (rw (add_held-fits c t.amount h.credits fc, ◌>>=◌) refl),
      record {
        debits =
            λ id. ground (arith, amount_at-insert id d (amount_at d h.debits + t.amount) h.debits);
        credits = λ id.
            ground (arith, amount_at-insert id c (amount_at c h.credits + t.amount) h.credits);
      },
    )

-- A transfer that is not pending adds nothing.
Adds-nothing : (t : Transfer) (h : Holds) → t.state ≢ pending → Adds t h h
Adds-nothing t h other = record {
  debits = λ id. ground (arith, held_none id t other);
  credits = λ id. ground (arith, held_none id t other);
}

-- The link check passes on a legal link.
check_link-passes :
    (t : Transfer) (o : Option TransferId) (l : Ledger)
    → HasPostedHold o l
    → check_link t o l ≡ ok tt
check_link-passes t none l h = refl
check_link-passes t (some p) l (hold, found, is) = ground arith

check_state-Adds :
    (t : Transfer) (s : TransferState) (l : Ledger) (h : Holds)
    → t.state ≡ s
    → LinkFits s t.pending_id l
    → amount_at t.debit_account_id h.debits + held_debit t.debit_account_id t < u128_mod
    → amount_at t.credit_account_id h.credits + held_credit t.credit_account_id t < u128_mod
    → (h' : Holds) × (check_state t s l h ≡ ok h') × Adds t h h'
unfolding check_state validate_pending_link
check_state-Adds t pending l h is link fd fc =
    hold_transfer-Adds t h is (ground (arith, held_all t.debit_account_id t is))
      (ground (arith, held_all t.credit_account_id t is))
check_state-Adds t posted l h is link fd fc = (
  h,
  rw (check_link-passes t t.pending_id l link, ◌>>=◌, ◌>>◌) refl,
  Adds-nothing t h (λ e. posted-ne-pending (sym is ∙ e)),
)
check_state-Adds t voided l h is link fd fc =
    (h, rw (link, check_voided) refl, Adds-nothing t h (λ e. voided-ne-pending (sym is ∙ e)))

-- The check of one stored transfer passes, and adds what it holds.
check_transfer-Adds :
    (id : TransferId) (t : Transfer) (l : Ledger) (h : Holds)
    → IsWellFormed l id t
    → amount_at t.debit_account_id h.debits + held_debit t.debit_account_id t < u128_mod
    → amount_at t.credit_account_id h.credits + held_credit t.credit_account_id t < u128_mod
    → (h' : Holds) × (check_transfer t l h ≡ ok h') × Adds t h h'
unfolding check_transfer
check_transfer-Adds id t l h w fd fc =
    let (h', passes, adds) = check_state-Adds t t.state l h refl w.link_fits fd fc in
    (h', rw (w.has_debtor, ◌>>◌) (rw (w.has_creditor, ◌>>◌) passes), adds)

-- What the loop over the transfers has collected.
pub record Collected (m : SortedMap Transfer) (h h' : Holds) : Type 0 where
  pub debits :
      (id : AccountId) → amount_at id h'.debits ≡ amount_at id h.debits + sum_of (held_debit id) m
  pub credits :
      (id : AccountId)
      → amount_at id h'.credits ≡ amount_at id h.credits + sum_of (held_credit id) m

pub check_transfers-Collected :
    (m : SortedMap Transfer) (l : Ledger) (h : Holds)
    → UniqueKeys m
    → ((id : TransferId) (t : Transfer) → get id m ≡ some t → IsWellFormed l id t)
    → ((id : AccountId) → amount_at id h.debits + sum_of (held_debit id) m < u128_mod)
    → ((id : AccountId) → amount_at id h.credits + sum_of (held_credit id) m < u128_mod)
    → (h' : Holds) × (check_transfers m l h ≡ ok h') × Collected m h h'
unfolding check_transfers sum_of
check_transfers-Collected [] l h u all fd fc =
    (h, refl, record { debits = λ id. omega arith; credits = λ id. omega arith })
check_transfers-Collected ((k, t) ∷ m) l h u all fd fc =
    let (h1, first, adds) =
      check_transfer-Adds k t l h (all k t (get-head k t m)) (omega (arith, fd t.debit_account_id))
        (omega (arith, fc t.credit_account_id)) in
    let (h2, rest, more) =
      check_transfers-Collected m l h1 u.1 (λ j v e. all j v (get-tail j k t v m u.0 e))
        (λ id. omega (arith, fd id, adds.debits id))
        (λ id. omega (arith, fc id, adds.credits id)) in
    (
      h2,
      rw (first, check_transfers) rest,
      record {
        debits = λ id. omega (arith, adds.debits id, more.debits id);
        credits = λ id. omega (arith, adds.credits id, more.credits id);
      },
    )

check_account-passes :
    (id : AccountId) (a : Account) (h : Holds)
    → a.balance.debits_pending ≡ amount_at id h.debits
    → a.balance.credits_pending ≡ amount_at id h.credits
    → check_account id a h ≡ ok tt
unfolding check_account
check_account-passes id a h d c = ground arith

-- The loop over the accounts passes where the holds are the accounts' reservations.
pub check_accounts-passes :
    (m : SortedMap Account) (h : Holds)
    → UniqueKeys m
    → ((id : AccountId) (a : Account)
        → get id m ≡ some a
        → a.balance.debits_pending ≡ amount_at id h.debits)
    → ((id : AccountId) (a : Account)
        → get id m ≡ some a
        → a.balance.credits_pending ≡ amount_at id h.credits)
    → check_accounts m h ≡ ok tt
unfolding check_accounts
check_accounts-passes [] h u d c = refl
check_accounts-passes ((k, a) ∷ m) h u d c =
    rw
      (check_account-passes k a h (d k a (get-head k a m)) (c k a (get-head k a m)), check_accounts)
      (check_accounts-passes m h u.1 (λ j v e. d j v (get-tail j k a v m u.0 e))
        (λ j v e. c j v (get-tail j k a v m u.0 e)))
