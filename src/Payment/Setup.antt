-- ===== src/Payment/Setup.antt =====
-- The accounts of the demo application (apps/demo/src/payment.rs).
use trust_ledger.Common.{ℕ, zero, suc, ◌+◌, ◌<◌, ◌≢◌, ◌≡◌, Option, none, some, List, [], ◌∷◌, arith}
use trust_ledger.Vocabulary.{
  AccountId, AccountType, AccountFlags, Scale, Timestamp, asset, liability, revenue,
}
use trust_ledger.LedgerError.{Result, ok, err}
use trust_ledger.Account.{customer, bank_asset, fee_revenue}
use trust_ledger.Journal.{BatchOp}
use trust_ledger.Transfer.{Transfer, new_immediate}
use trust_ledger.Ledger.State.{Ledger, Outcome, done, fail, after, Method, read, ◌>>=◌}
use trust_ledger.Ledger.Operations.{create_account, create_transfer}
use trust_ledger.Ledger.Events.{apply_batch_op}
use trust_ledger.Ledger.Invariant.Reachable.{Reachable, call, operate}
use trust_ledger.Payment.{
  sum_id, SetupResult, returned, aborted, and_then, continue, customer_account, merchant_account,
  fee_revenue_id, vault_asset_id, setup_merchants, initial_deposit, setup_customers, setup_accounts,
}

-- A method that leads from reachable ledgers to reachable ones, failing or not.
abbrev pub Keeps : {A : Type 0} → Scale → Method A → Type 0
Keeps s m = (l : Ledger) → Reachable s l → Reachable s (after (m l))

outcome-Keeps :
    {A B : Type 0} (s : Scale) (o : Outcome A) (k : A → Method B) (l : Ledger)
    → Reachable s (after o)
    → ((a : A) → Keeps s (k a))
    → Reachable s (after (◌>>=◌ (λ _. o) k l))
outcome-Keeps s (done a l') k l r keeps = keeps a l' r
outcome-Keeps s (fail e l') k l r keeps = r

bind-Keeps :
    {A B : Type 0} (s : Scale) (m : Method A) (k : A → Method B)
    → Keeps s m
    → ((a : A) → Keeps s (k a))
    → Keeps s (m >>= k)
bind-Keeps s m k first keeps l r = outcome-Keeps s (m l) k l (first l r) keeps

create_account-Keeps :
    (s : Scale) (id : AccountId) (account_type : AccountType) (flags : AccountFlags) (scale : Scale)
    (timestamp : Timestamp)
    → Keeps s (create_account id account_type flags scale timestamp)
unfolding apply_batch_op
create_account-Keeps s id account_type flags scale timestamp l r =
    call r (operate (BatchOp.create_account id account_type flags scale timestamp))

create_transfer-Keeps : (s : Scale) (t : Transfer) → Keeps s (create_transfer t)
unfolding apply_batch_op
create_transfer-Keeps s t l r = call r (operate (BatchOp.transfer t))

read-Keeps :
    {A : Type 0} (s : Scale) (l : Ledger) (q : Result A)
    → Reachable s l
    → Reachable s (after (read (λ _. q) l))
read-Keeps s l (ok a) r = r
read-Keeps s l (err e) r = r

-- A set-up that ends in a reachable ledger, failing or not, unless the process aborts.
abbrev pub Reached : Scale → SetupResult → Type 0
Reached s (returned o) = Reachable s (after o)
Reached s aborted = Unit {0}

and_then-Reached :
    (s : Scale) (o : Outcome (Unit {0})) (next : Ledger → SetupResult)
    → Reachable s (after o)
    → ((l : Ledger) → Reachable s l → Reached s (next l))
    → Reached s (and_then o next)
and_then-Reached s (done u l) next r keeps = keeps l r
and_then-Reached s (fail e l) next r keeps = r

continue-Reached :
    (s : Scale) (setup : SetupResult) (next : Ledger → SetupResult)
    → Reached s setup
    → ((l : Ledger) → Reachable s l → Reached s (next l))
    → Reached s (continue setup next)
continue-Reached s (returned o) next r keeps = and_then-Reached s o next r keeps
continue-Reached s aborted next r keeps = tt

-- An account identifier that may overflow.
id-Reached :
    (s : Scale) (id : Option AccountId) (next : AccountId → SetupResult)
    → ((account_id : AccountId) → Reached s (next account_id))
    → Reached s
        (elim id as (λ _. SetupResult) [ none ↦ aborted | some account_id ↦ next account_id ])
id-Reached s none next keeps = tt
id-Reached s (some account_id) next keeps = keeps account_id

module _ (s scale : Scale) (timestamp : Timestamp) where
  account-Keeps :
      (id : AccountId) (account_type : AccountType) (flags : AccountFlags)
      → Keeps s (create_account id account_type flags scale timestamp)
  account-Keeps id account_type flags = create_account-Keeps s id account_type flags scale timestamp

  merchants-Reached :
      (merchants : List ℕ) (l : Ledger)
      → Reachable s l
      → Reached s (setup_merchants scale timestamp merchants l)
  unfolding setup_merchants
  merchants-Reached [] l r = r
  merchants-Reached (m ∷ merchants) l r = id-Reached s (merchant_account m) _ (λ id.
      and_then-Reached s (create_account id liability customer scale timestamp l) _
        (account-Keeps id liability customer l r) (merchants-Reached merchants))

  deposit-Keeps :
      (i : ℕ) (id : AccountId) (n : ℕ) → Keeps s (initial_deposit scale timestamp i id n)
  unfolding initial_deposit
  deposit-Keeps i id zero = λ l r. r
  deposit-Keeps i id (suc n) =
      let made = new_immediate (10000 + i) vault_asset_id id (suc n) timestamp in
      bind-Keeps s (read (λ _. made)) (λ t. create_transfer t) (λ l r. read-Keeps s l made r)
        (λ t. create_transfer-Keeps s t)

  customers-Reached :
      (n i : ℕ) (customers : List ℕ) (l : Ledger)
      → Reachable s l
      → Reached s (setup_customers scale timestamp n i customers l)
  unfolding setup_customers
  customers-Reached n i [] l r = r
  customers-Reached n i (c ∷ customers) l r = id-Reached s (customer_account c) _ (λ id.
      and_then-Reached s (create_account id liability customer scale timestamp l) _
        (account-Keeps id liability customer l r)
        (λ created r'.
          and_then-Reached s (initial_deposit scale timestamp i id n created) _
            (deposit-Keeps i id n created r') (customers-Reached n (suc i) customers)))

  -- Setting up the accounts, whether it succeeds or fails on the way, leads from a ledger that
  -- public calls lead to to another one, unless an identifier overflows and the process aborts.
  pub setup_accounts-Reached :
      (merchants customers : List ℕ) (initial_customer_deposit : ℕ) (l : Ledger)
      → Reachable s l
      → Reached s (setup_accounts scale timestamp merchants customers initial_customer_deposit l)
  unfolding setup_accounts
  setup_accounts-Reached merchants customers n l r =
      and_then-Reached s (create_account vault_asset_id asset bank_asset scale timestamp l) _
        (account-Keeps vault_asset_id asset bank_asset l r)
        (λ with_vault r1.
          and_then-Reached s
            (create_account fee_revenue_id revenue fee_revenue scale timestamp with_vault) _
            (account-Keeps fee_revenue_id revenue fee_revenue with_vault r1)
            (λ with_fees r2.
              continue-Reached s (setup_merchants scale timestamp merchants with_fees) _
                (merchants-Reached merchants with_fees r2) (customers-Reached n 0 customers)))

sum_id-some : (base n : ℕ) (id : AccountId) → sum_id base n ≡ some id → id ≡ base + n
sum_id-some base n id h = ground arith

-- The accounts of a customer and a merchant differ from each other and from the two accounts of
-- the platform, where they have one and the customer's identifier is below a million.
pub customer_account-merchant_account :
    (customer_id merchant_id : ℕ) (id id' : AccountId)
    → customer_id < 1000000
    → customer_account customer_id ≡ some id
    → merchant_account merchant_id ≡ some id'
    → (id ≢ id')
      × (id ≢ vault_asset_id)
      × (id ≢ fee_revenue_id)
      × (id' ≢ vault_asset_id)
      × (id' ≢ fee_revenue_id)
customer_account-merchant_account c m id id' small h h' =
    let is_id = sum_id-some 1000000 c id h in
    let is_id' = sum_id-some 2000000 m id' h' in
    (omega arith, omega arith, omega arith, omega arith, omega arith)
