-- ===== src/Ledger/Verify/Accepts.antt =====
-- `verify_invariants` of ledger.rs accepts every sound ledger whose totals fit in 128 bits.
use trust_ledger.Common.{
  ◌≡◌, [], ap, arith, refl, subst, sym, ℕ, ◌+◌, ◌<◌, ◌∙◌, ◌∷◌, Option-cases, inl, inr, not, ◌==◌,
}
use trust_ledger.Account.{Account}
use trust_ledger.Ledger.Invariant.{
  debits_posted_of, credits_posted_of, debits_pending_of, credits_pending_of, held_debit,
  held_credit, IsSound,
}
use trust_ledger.Ledger.Verify.{
  Totals, add_account, add_totals, Holds, verify_structure, no_totals, verify_invariants,
}
use trust_ledger.LedgerError.{ok, ◌>>=◌, conservation_violation, fail_if, ◌>>◌}
use trust_ledger.SortedMap.{SortedMap, sum_of, get}
use trust_ledger.Vocabulary.{u128_mod, AccountId, Scale}
use trust_ledger.Ledger.Verify.Structure.{
  checked_add-fits, check_transfers-Collected, check_accounts-passes,
}
use trust_ledger.Ledger.Invariant.Backed.{unknown_debits, unknown_credits}
use trust_ledger.Ledger.Invariant.Reachable.{Reachable, Reachable-IsSound}
use trust_ledger.Ledger.State.{Ledger}
use trust_ledger.SortedMap.Sums.{get-le-sum_of}

-- The four totals after a list of accounts.
abbrev pub plus_sums : SortedMap Account → Totals → Totals
plus_sums m t = record {
  debits_posted = t.debits_posted + sum_of debits_posted_of m;
  credits_posted = t.credits_posted + sum_of credits_posted_of m;
  debits_pending = t.debits_pending + sum_of debits_pending_of m;
  credits_pending = t.credits_pending + sum_of credits_pending_of m;
}

pub record Fits (t : Totals) : Type 0 where
  pub debits_posted : t.debits_posted < u128_mod
  pub credits_posted : t.credits_posted < u128_mod
  pub debits_pending : t.debits_pending < u128_mod
  pub credits_pending : t.credits_pending < u128_mod

abbrev plus_account : Account → Totals → Totals
plus_account a t = record {
  debits_posted = t.debits_posted + a.balance.debits_posted;
  credits_posted = t.credits_posted + a.balance.credits_posted;
  debits_pending = t.debits_pending + a.balance.debits_pending;
  credits_pending = t.credits_pending + a.balance.credits_pending;
}

add_account-Fits :
    (a : Account) (t : Totals) → Fits (plus_account a t) → add_account a t ≡ ok (plus_account a t)
unfolding add_account
add_account-Fits a t f =
    rw (checked_add-fits _ _ f.debits_posted, ◌>>=◌)
      (rw (checked_add-fits _ _ f.credits_posted, ◌>>=◌)
        (rw (checked_add-fits _ _ f.debits_pending, ◌>>=◌)
          (rw (checked_add-fits _ _ f.credits_pending, ◌>>=◌) refl)))

Fits-first :
    (a : Account) (k : ℕ) (m : SortedMap Account) (t : Totals)
    → Fits (plus_sums ((k, a) ∷ m) t)
    → Fits (plus_account a t)
unfolding sum_of
Fits-first a k m t f = record {
  debits_posted = omega (arith, f.debits_posted);
  credits_posted = omega (arith, f.credits_posted);
  debits_pending = omega (arith, f.debits_pending);
  credits_pending = omega (arith, f.credits_pending);
}

plus_sums-cons :
    (a : Account) (k : ℕ) (m : SortedMap Account) (t : Totals)
    → plus_sums m (plus_account a t) ≡ plus_sums ((k, a) ∷ m) t
unfolding sum_of
plus_sums-cons a k m t = ground arith

-- The first loop computes the four sums, where they fit.
pub add_totals-plus_sums :
    (m : SortedMap Account) (t : Totals)
    → Fits (plus_sums m t)
    → add_totals m t ≡ ok (plus_sums m t)
unfolding add_totals sum_of
add_totals-plus_sums [] t f = ap ok (ground arith)
add_totals-plus_sums ((k, a) ∷ m) t f =
    rw (add_account-Fits a t (Fits-first a k m t f), add_totals)
      (add_totals-plus_sums m (plus_account a t) (subst Fits (sym (plus_sums-cons a k m t)) f)
        ∙ ap ok (plus_sums-cons a k m t))

-- What is held at any account fits where the pending totals do.
held_fits :
    (l : Ledger) (id : AccountId)
    → IsSound l
    → sum_of debits_pending_of l.accounts < u128_mod
    → sum_of credits_pending_of l.accounts < u128_mod
    → (sum_of (held_debit id) l.transfers < u128_mod)
      × (sum_of (held_credit id) l.transfers < u128_mod)
held_fits l id s fd fc = elim (Option-cases (get id l.accounts)) [
  | inl missing ↦
      (omega (arith, unknown_debits id l s missing), omega (arith, unknown_credits id l s missing))
  | inr (a, found) ↦ (
    omega (
      arith,
      s.backed.debits_backed id a found,
      get-le-sum_of debits_pending_of id a l.accounts found,
    ),
    omega (
      arith,
      s.backed.credits_backed id a found,
      get-le-sum_of credits_pending_of id a l.accounts found,
    ),
  )
]

-- `verify_structure` accepts every sound ledger whose pending totals fit in 128 bits.
pub verify_structure-accepts :
    (l : Ledger)
    → IsSound l
    → sum_of debits_pending_of l.accounts < u128_mod
    → sum_of credits_pending_of l.accounts < u128_mod
    → verify_structure l ≡ ok tt
unfolding verify_structure get
verify_structure-accepts l s fd fc =
    let none_held : Holds = record { debits = []; credits = [] } in
    let (h, passes, c) =
      check_transfers-Collected l.transfers l none_held s.unique_transfers s.transfers_ok
        (λ id. omega (arith, (held_fits l id s fd fc).0))
        (λ id. omega (arith, (held_fits l id s fd fc).1)) in
    rw (passes, ◌>>=◌)
      (check_accounts-passes l.accounts h s.unique_accounts
        (λ id a found. omega (arith, s.backed.debits_backed id a found, c.debits id))
        (λ id a found. omega (arith, s.backed.credits_backed id a found, c.credits id)))

-- The rest of `verify_invariants` passes where the totals agree.
totals_agree :
    (t : Totals) (l : Ledger)
    → t.debits_posted ≡ t.credits_posted
    → t.debits_pending ≡ t.credits_pending
    → verify_structure l ≡ ok tt
    → (fail_if
          (not (t.debits_posted == t.credits_posted))
          (conservation_violation t.debits_posted t.credits_posted)
        >> (fail_if
              (not (t.debits_pending == t.credits_pending))
              (conservation_violation t.debits_pending t.credits_pending)
            >> verify_structure l))
      ≡ ok tt
totals_agree t l p q v = ground arith

-- The check of every invariant accepts each ledger that public calls lead to, if its four totals
-- fit in 128 bits.
pub verify_invariants-accepts :
    (scale : Scale) (l : Ledger)
    → Reachable scale l
    → sum_of debits_posted_of l.accounts < u128_mod
    → sum_of debits_pending_of l.accounts < u128_mod
    → verify_invariants l ≡ ok tt
unfolding verify_invariants
verify_invariants-accepts scale l r fp fh =
    let s = Reachable-IsSound scale l r in
    let totals : Totals = plus_sums l.accounts no_totals in
    let fits : Fits totals = record {
      debits_posted = omega (arith, fp);
      credits_posted = omega (arith, fp, s.balanced.posted_balance);
      debits_pending = omega (arith, fh);
      credits_pending = omega (arith, fh, s.balanced.pending_balance);
    } in
    rw (add_totals-plus_sums l.accounts no_totals fits, ◌>>=◌)
      (totals_agree totals l (omega (arith, s.balanced.posted_balance))
        (omega (arith, s.balanced.pending_balance))
        (verify_structure-accepts l s fh (omega (arith, fh, s.balanced.pending_balance))))
