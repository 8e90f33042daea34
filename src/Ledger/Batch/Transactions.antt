-- ===== src/Ledger/Batch/Transactions.antt =====
-- `prepare_transactions` and `prepare_batch_results` of ledger.rs: each transaction is all or
-- nothing, later ones see earlier ones, and the ledger is left as it was.
use mathlib.Core.List
use trust_ledger.Common.{
  ◌≡◌, List, [], ap, append-nil, append_assoc, drop, drop-append_length, inl, inr, length, subst,
  sym, ◌++◌, ◌∙◌, ◌∷◌,
}
use trust_ledger.Journal.{LedgerEvent, BatchOp}
use trust_ledger.Ledger.Batch.{
  run_with_undo, commit_events, Prepared, prepare_loop, prepare_transactions,
}
use trust_ledger.Ledger.Batch.Atomic.{
  revert_all-kept, revert_all-append, Progress, rollback-Progress, apply_events-append, Ends,
  run-Ends,
}
use trust_ledger.Ledger.Batch.Commit.{op_sound, Progress-start, commit_events-apply_events}
use trust_ledger.Ledger.Events.{apply_batch_op}
use trust_ledger.Ledger.Rollback.{UndoOp, revert_all, op_pre_images}
use trust_ledger.Ledger.Rollback.Reverts.{kept}
use trust_ledger.Ledger.State.{Ledger, done, Outcome-cases}
use trust_ledger.Ledger.Step.Events.{op_of}
use trust_ledger.LedgerError.{Result, ok, err}

-- A batch in progress, followed by another that began where it stands.
Progress-trans :
    (b l m : Ledger) (undo undo' : List UndoOp) (events more : List LedgerEvent)
    → Progress b undo events l
    → Progress l undo' more m
    → Progress b (undo ++ undo') (events ++ more) m
Progress-trans b l m undo undo' events more p q = record {
  recorded = q.recorded ∙ ap (λ j. j ++ more) p.recorded ∙ append_assoc b.journal events more;
  replayed = apply_events-append events more b l p.replayed ∙ q.replayed;
  undone =
      revert_all-append undo undo' m
      ∙ ap (revert_all undo) q.undone
      ∙ revert_all-kept undo l m
      ∙ ap (λ k. kept k m) p.undone;
}

-- The events of the transactions that succeeded, in order.
abbrev pub successes : List (Result (List LedgerEvent)) → List LedgerEvent
successes [] = []
successes (ok events ∷ rs) = events ++ successes rs
successes (err e ∷ rs) = successes rs

-- A result of a transaction that succeeded has one event for each operation.
abbrev pub Answers : List (List BatchOp) → List (Result (List LedgerEvent)) → Type 0
Answers [] [] = Unit {0}
Answers [] (r ∷ rs) = ⊥
Answers (tx ∷ txs) [] = ⊥
Answers (tx ∷ txs) (ok events ∷ rs) = (List.map op_of events ≡ tx) × Answers txs rs
Answers (tx ∷ txs) (err e ∷ rs) = Answers txs rs

pub record Loop (b : Ledger) (events : List LedgerEvent) (txs : List (List BatchOp)) (p : Prepared)
    : Type 0 where
  pub answers : Answers txs p.results
  pub progress : Progress b p.undo (events ++ successes p.results) p.ledger

prepare_loop-Loop :
    (b : Ledger) (txs : List (List BatchOp)) (undo : List UndoOp) (events : List LedgerEvent)
    (l : Ledger)
    → Progress b undo events l
    → Loop b events txs (prepare_loop txs undo l)
unfolding prepare_loop
prepare_loop-Loop b [] undo events l p = record {
  answers = tt;
  progress = subst (λ es. Progress b undo es l) (sym (append-nil events)) p;
}
prepare_loop-Loop b (tx ∷ txs) undo events l p =
    let ends =
      run-Ends op_pre_images apply_batch_op op_of op_sound l tx [] [] l (Progress-start l) in
    elim (Outcome-cases
      (run_with_undo op_pre_images apply_batch_op tx [] (length l.journal) l.last_timestamp l)) [
        | inr (e, l', failed) ↦
            let same : l' ≡ l = subst (Ends op_of l [] tx) failed ends in
            let rest =
              prepare_loop-Loop b txs undo events l'
                (subst (Progress b undo events) (sym same) p) in
            rw (failed, prepare_loop) (record { answers = rest.answers; progress = rest.progress })
        | inl (undo', l', ran) ↦
            let (more, labels, q) = subst (Ends op_of l [] tx) ran ends in
            let produced : drop (length l.journal) l'.journal ≡ more =
              ap (drop (length l.journal)) q.recorded ∙ drop-append_length l.journal more in
            let rest =
              prepare_loop-Loop b txs (undo ++ undo') (events ++ more) l'
                (Progress-trans b l l' undo undo' events more p q) in
            rw (ran, prepare_loop)
              (record {
                answers = (ap (List.map op_of) produced ∙ labels, rest.answers);
                progress =
                    let r = prepare_loop txs (undo ++ undo') l' in
                    subst (λ es. Progress b r.undo es r.ledger)
                      (append_assoc events more (successes r.results)
                        ∙ ap (λ es. events ++ (es ++ successes r.results)) (sym produced))
                      rest.progress;
              })
      ]

-- What `prepare_transactions` gives back.
pub record Isolated (txs : List (List BatchOp)) (l : Ledger)
    (r : List (Result (List LedgerEvent)) × Ledger) : Type 0 where
  pub answered : Answers txs r.0
  pub untouched : r.1 ≡ l
  pub committed : Ledger
  pub commits : commit_events (successes r.0) l ≡ done tt committed
  pub recorded : committed.journal ≡ l.journal ++ successes r.0

-- `prepare_transactions` leaves the ledger exactly as it was and answers every transaction, with an
-- error or with one event for each of its operations; and the events of those that succeeded,
-- one transaction after another, commit to that ledger.
pub prepare_transactions-Isolated :
    (txs : List (List BatchOp)) (l : Ledger) → Isolated txs l (prepare_transactions txs l)
unfolding prepare_transactions
prepare_transactions-Isolated txs l =
    let p = prepare_loop txs [] l in
    let loop = prepare_loop-Loop l txs [] [] l (Progress-start l) in
    record {
      answered = loop.answers;
      untouched = rollback-Progress l p.undo (successes p.results) p.ledger loop.progress;
      committed = p.ledger;
      commits = commit_events-apply_events (successes p.results) l p.ledger loop.progress.replayed;
      recorded = loop.progress.recorded;
    }
