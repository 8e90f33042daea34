-- ===== src/Ledger/Invariant/Reachable.antt =====
-- The ledgers that the public methods of ledger.rs lead to are sound, and their journals replay.
use trust_ledger.Common.{◌≡◌, List, [], ap, append-nil, inl, inr, refl, subst, sym, ◌++◌, ◌∙◌, ◌∷◌}
use trust_ledger.Journal.{LedgerEvent, BatchOp}
use trust_ledger.Ledger.Batch.{commit_events, apply_batch, prepare_batch, prepare_transactions}
use trust_ledger.Ledger.Batch.Atomic.{apply_events-cons, apply_events-fail, apply_events-append}
use trust_ledger.Ledger.Batch.Commit.{
  Committed, commit_events-Committed, apply_batch-Committed, apply_event-done, Speculated,
  prepare_batch-Speculated,
}
use trust_ledger.Ledger.Batch.Transactions.{prepare_transactions-Isolated}
use trust_ledger.Ledger.Events.{apply_event, apply_batch_op, apply_events, replay, finished}
use trust_ledger.Ledger.Invariant.{IsSound}
use trust_ledger.Ledger.Invariant.Backed.{Step-IsBacked}
use trust_ledger.Ledger.Invariant.Balanced.{Step-IsBalanced}
use trust_ledger.Ledger.Invariant.Stored.{Step-AllWellFormed, Step-UniqueKeys}
use trust_ledger.Ledger.State.{Ledger, new_ledger, Outcome, done, fail, after, Outcome-cases}
use trust_ledger.Ledger.Step.{Step}
use trust_ledger.Ledger.Step.Events.{apply_event-Step, apply_batch_op-OpStep, Step-journal}
use trust_ledger.Ledger.Step.Writes.{applied, refused}
use trust_ledger.LedgerError.{ok}
use trust_ledger.SortedMap.{get, sum_of}
use trust_ledger.SortedMap.Keys.{get-nil}
use trust_ledger.Transfer.{Transfer}
use trust_ledger.Vocabulary.{Scale}

-- A new ledger is sound.
pub new_ledger-IsSound : (scale : Scale) → IsSound (new_ledger scale)
unfolding get sum_of
new_ledger-IsSound scale = record {
  balanced = record { posted_balance = refl; pending_balance = refl };
  backed = record {
    debits_backed = λ id a h. cc (get-nil id a h);
    credits_backed = λ id a h. cc (get-nil id a h);
  };
  transfers_ok = λ id t h. cc (get-nil id t h);
  unique_accounts = tt;
  unique_transfers = tt;
}

-- Every step of the ledger keeps the invariant.
pub Step-IsSound : (event : LedgerEvent) (l l' : Ledger) → IsSound l → Step event l l' → IsSound l'
Step-IsSound event l l' s st =
    let (ua, ut) = Step-UniqueKeys event l l' s.unique_accounts s.unique_transfers st in
    record {
      balanced =
          Step-IsBalanced event l l' (λ id t h. (s.transfers_ok id t h).distinct) st s.balanced;
      backed = Step-IsBacked event l l' s st;
      transfers_ok = Step-AllWellFormed event l l' s.transfers_ok st;
      unique_accounts = ua;
      unique_transfers = ut;
    }

-- A run of events that succeeds keeps the invariant.
pub apply_events-IsSound :
    (events : List LedgerEvent) (l l' : Ledger)
    → IsSound l
    → apply_events events l ≡ done tt l'
    → IsSound l'
unfolding apply_events
apply_events-IsSound [] l l' s h = subst IsSound (ap after h) s
apply_events-IsSound (event ∷ events) l l' s h = elim (Outcome-cases (apply_event event l)) [
  | inl (u, m, e) ↦
      apply_events-IsSound events m l' (Step-IsSound event l m s (apply_event-done event l m e))
        (sym (apply_events-cons event events l m e) ∙ h)
  | inr (err_, m, e) ↦
      let never : done tt l' ≡ fail err_ m = sym h ∙ apply_events-fail event events l m err_ e in cc
]

-- A call of a public method that takes `&mut self`, whatever it returns.
pub data Call (l : Ledger) : Ledger → Type 0 where
  operate : (op : BatchOp) → Call l (after (apply_batch_op op l))
  apply_one : (event : LedgerEvent) → Call l (after (apply_event event l))
  commit : (events : List LedgerEvent) → Call l (after (commit_events events l))
  apply_all : (transfers : List Transfer) → Call l (after (apply_batch transfers l))
  prepare : (ops : List BatchOp) → Call l (after (prepare_batch ops l))
  prepare_many : (txs : List (List BatchOp)) → Call l (prepare_transactions txs l).1

-- The ledgers that calls lead to from a new one.
pub data Reachable (scale : Scale) : Ledger → Type 0 where
  start : Reachable scale (new_ledger scale)
  call : {l l' : Ledger} → Reachable scale l → Call l l' → Reachable scale l'

-- What a call does: it applies some events, one after another, and records them.
pub record Advances (l l' : Ledger) : Type 0 where
  pub events : List LedgerEvent
  pub applies : apply_events events l ≡ done tt l'
  pub recorded : l'.journal ≡ l.journal ++ events

Advances-stay : (l l' : Ledger) → l' ≡ l → Advances l l'
unfolding apply_events
Advances-stay l l' h = record {
  events = [];
  applies = ap (done tt) (sym h);
  recorded = ap (λ k. k.journal) h ∙ sym (append-nil l.journal);
}

Advances-one :
    (event : LedgerEvent) (l l' : Ledger) → apply_event event l ≡ done tt l' → Advances l l'
unfolding apply_events
Advances-one event l l' h = record {
  events = event ∷ [];
  applies = apply_events-cons event [] l l' h;
  recorded = (Step-journal event l l' (apply_event-done event l l' h)).0;
}

Committed-Advances :
    (events : List LedgerEvent) (l : Ledger) (o : Outcome (Unit {0}))
    → Committed events l o
    → Advances l (after o)
Committed-Advances events l (fail e l') h = Advances-stay l l' h
Committed-Advances events l (done u l') (applies, recorded) = record {
  events = events;
  applies = applies;
  recorded = recorded;
}

Speculated-Advances :
    (ops : List BatchOp) (l : Ledger) (o : Outcome (List LedgerEvent))
    → Speculated ops l o
    → Advances l (after o)
Speculated-Advances ops l (fail e l') h = Advances-stay l l' h
Speculated-Advances ops l (done events l') h = Advances-stay l l' h.0

-- Every call of a public method, failing or not, is some applied events.
pub Call-Advances : (l l' : Ledger) → Call l l' → Advances l l'
Call-Advances l _ (operate op) = elim (apply_batch_op-OpStep op l) [
  | applied l' e s ↦
      subst (λ o. Advances l (after o)) (sym e) (Advances-one s.event l l' (s.again ∙ e))
  | refused err_ e ↦ subst (λ o. Advances l (after o)) (sym e) (Advances-stay l l refl)
]
Call-Advances l _ (apply_one event) = elim (apply_event-Step event l) [
  | applied l' e s ↦ subst (λ o. Advances l (after o)) (sym e) (Advances-one event l l' e)
  | refused err_ e ↦ subst (λ o. Advances l (after o)) (sym e) (Advances-stay l l refl)
]
Call-Advances l _ (commit events) = Committed-Advances events l _ (commit_events-Committed events l)
Call-Advances l _ (apply_all transfers) =
    Committed-Advances _ l _ (apply_batch-Committed transfers l)
Call-Advances l _ (prepare ops) = Speculated-Advances ops l _ (prepare_batch-Speculated ops l)
Call-Advances l _ (prepare_many txs) =
    Advances-stay l _ (prepare_transactions-Isolated txs l).untouched

-- Whatever public methods are called, in whatever order and with whatever failures, the ledger is
-- sound: debits equal credits, posted and pending; each account's reservations are the sum of its
-- pending transfers; and every stored transfer has its key, two distinct known accounts and a
-- legal hold link.
pub Reachable-IsSound : (scale : Scale) (l : Ledger) → Reachable scale l → IsSound l
Reachable-IsSound scale _ start = new_ledger-IsSound scale
Reachable-IsSound scale _ (call {l = l} {l' = l'} r c) =
    let a = Call-Advances l l' c in
    apply_events-IsSound a.events l l' (Reachable-IsSound scale l r) a.applies

pub journal_applies :
    (scale : Scale) (l : Ledger)
    → Reachable scale l
    → apply_events l.journal (new_ledger scale) ≡ done tt l
unfolding apply_events
journal_applies scale _ start = refl
journal_applies scale _ (call {l = l} {l' = l'} r c) =
    let a = Call-Advances l l' c in
    ap (λ es. apply_events es (new_ledger scale)) a.recorded
    ∙ apply_events-append l.journal a.events (new_ledger scale) l (journal_applies scale l r)
    ∙ a.applies

-- Replaying the journal of any reachable ledger succeeds and rebuilds exactly that ledger.
pub Reachable-replay :
    (scale : Scale) (l : Ledger) → Reachable scale l → replay scale l.journal ≡ ok l
unfolding replay
Reachable-replay scale l r = ap finished (journal_applies scale l r)
