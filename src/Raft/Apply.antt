-- ===== src/Raft/Apply.antt =====
-- Applying committed log entries to the ledger (crates/raft/src/state_machine.rs).
use trust_ledger.Common.{some, Option, ◌≡◌, ◌∷◌, [], ◌++◌, List, ap, refl, subst, sym, ◌∙◌}
use mathlib.Core.List
use Prim.Native.String.{String}
use trust_ledger.Vocabulary.{Scale}
use trust_ledger.LedgerError.{LedgerError}
use trust_ledger.Journal.{LedgerEvent, BatchOp}
use trust_ledger.Ledger.State.{Ledger, Outcome, done, fail, after, Method, ◌>>=◌}
use trust_ledger.Ledger.Batch.{prepare_batch, commit_events}
use trust_ledger.Ledger.Batch.Commit.{Speculated, prepare_batch-Speculated}
use trust_ledger.Ledger.Step.Events.{op_of}
use trust_ledger.Ledger.Invariant.Reachable.{Reachable, call, commit}
use trust_ledger.Raft.{
  RaftRequest, batch_ops, RaftResponse, ledger_error, Answer, accepted, rejected,
  prepare_and_commit, answer_with, apply_single_request, Entry, EntryPayload, empty, membership,
  normal, StateMachine, apply_entry, apply,
}

-- How preparing and committing ends: the events of the operations are committed, or nothing is.
abbrev pub Commits : List BatchOp → Ledger → Outcome (List LedgerEvent) → Type 0
Commits ops l (fail e l') = (prepare_batch ops l ≡ fail e l) × (l' ≡ l)
Commits ops l (done events l') =
    (List.map op_of events ≡ ops)
    × (commit_events events l ≡ done tt l')
    × (l'.journal ≡ l.journal ++ events)

prepared-Commits :
    (ops : List BatchOp) (l : Ledger) (o : Outcome (List LedgerEvent))
    → prepare_batch ops l ≡ o
    → Speculated ops l o
    → Commits ops l (prepare_and_commit ops l)
prepared-Commits ops l o prepared s =
    subst (Commits ops l) (sym (ap (λ q. ◌>>=◌ (λ _. q) commit_them l) prepared))
      (ended o prepared s)
  where
    commit_them : List LedgerEvent → Method (List LedgerEvent)
    commit_them events = commit_events events >>= λ _. λ k. done events k

    ended :
        (o : Outcome (List LedgerEvent))
        → prepare_batch ops l ≡ o
        → Speculated ops l o
        → Commits ops l (◌>>=◌ (λ _. o) commit_them l)
    ended (fail e l') refused s = (refused ∙ ap (λ k. fail e k) s, s)
    ended (done events l') prepared (same, labels, m, commits, recorded) =
        subst (Commits ops l)
          (sym (
            ap (commit_them events) same
            ∙ ap (λ q. ◌>>=◌ (λ _. q) (λ _. λ k. done events k) l) commits))
          (labels, commits, recorded)

prepare_and_commit-Commits :
    (ops : List BatchOp) (l : Ledger) → Commits ops l (prepare_and_commit ops l)
prepare_and_commit-Commits ops l =
    prepared-Commits ops l (prepare_batch ops l) refl (prepare_batch-Speculated ops l)

module _ (to_string : LedgerError → String) where
  -- What a request has done to the ledger, by its answer.
  abbrev pub Answered : RaftRequest → Ledger → Answer × Ledger → Type 0
  Answered request l (rejected e, l') =
      (failure : LedgerError) × (prepare_batch (batch_ops request) l ≡ fail failure l)
      × (e ≡ ledger_error (to_string failure))
      × (l' ≡ l)
  Answered request l (accepted response, l') =
      (events : List LedgerEvent) × (List.map op_of events ≡ batch_ops request)
      × (commit_events events l ≡ done tt l')
      × (l'.journal ≡ l.journal ++ events)

  answer_with-Answered :
      (request : RaftRequest) (response : List LedgerEvent → RaftResponse) (l : Ledger)
      (o : Outcome (List LedgerEvent))
      → Commits (batch_ops request) l o
      → Answered request l (answer_with to_string response o)
  answer_with-Answered request response l (fail e l') (refused, same) = (e, refused, refl, same)
  answer_with-Answered request response l (done events l') (labels, commits, recorded) =
      (events, labels, commits, recorded)

  -- A request that is accepted commits one event for each of its operations, in order, and appends
  -- them to the journal; one that is rejected is one whose operations cannot be prepared, is answered
  -- with the text of that error, and leaves the ledger exactly as it was.
  pub apply_single_request-Answered :
      (request : RaftRequest) (l : Ledger)
      → Answered request l (apply_single_request to_string request l)
  unfolding apply_single_request
  apply_single_request-Answered (RaftRequest.create_account id account_type flags scale timestamp)
        l =
      answer_with-Answered (RaftRequest.create_account id account_type flags scale timestamp)
        (λ _. RaftResponse.account_created id) l _ (prepare_and_commit-Commits _ l)
  apply_single_request-Answered (RaftRequest.create_transfer t) l =
      answer_with-Answered (RaftRequest.create_transfer t) (λ _. RaftResponse.transfer_created t.id)
        l _ (prepare_and_commit-Commits _ l)
  apply_single_request-Answered (RaftRequest.create_pending t) l =
      answer_with-Answered (RaftRequest.create_pending t) (λ _. RaftResponse.pending_created t.id) l
        _ (prepare_and_commit-Commits _ l)
  apply_single_request-Answered
        (RaftRequest.post_pending pending_id post_transfer_id amount timestamp) l =
      answer_with-Answered (RaftRequest.post_pending pending_id post_transfer_id amount timestamp)
        (λ _. RaftResponse.pending_posted post_transfer_id) l _ (prepare_and_commit-Commits _ l)
  apply_single_request-Answered (RaftRequest.void_pending pending_id timestamp) l =
      answer_with-Answered (RaftRequest.void_pending pending_id timestamp)
        (λ _. RaftResponse.pending_voided pending_id) l _ (prepare_and_commit-Commits _ l)
  apply_single_request-Answered (RaftRequest.close_account id timestamp) l =
      answer_with-Answered (RaftRequest.close_account id timestamp)
        (λ _. RaftResponse.account_closed id) l _ (prepare_and_commit-Commits _ l)
  apply_single_request-Answered (RaftRequest.apply_batch ops) l =
      answer_with-Answered (RaftRequest.apply_batch ops) (λ es. RaftResponse.batch_applied es) l _
        (prepare_and_commit-Commits ops l)

  request_reaches :
      (scale : Scale) (request : RaftRequest) (l : Ledger) (r : Answer × Ledger)
      → Answered request l r
      → Reachable scale l
      → Reachable scale r.1
  request_reaches scale request l (rejected e, l') (failure, refused, text, same) r =
      subst (Reachable scale) (sym same) r
  request_reaches scale request l (accepted response, l') (events, labels, commits, recorded) r =
      subst (λ o. Reachable scale (after o)) commits (call r (commit events))

module _ {LogId Membership Stored Bytes : Type 0} (to_string : LedgerError → String)
    (stored : Option LogId → Membership → Stored) where
  payload_reaches :
      (scale : Scale) (log_id : LogId) (payload : EntryPayload Membership)
      (machine : StateMachine LogId Stored Bytes)
      → Reachable scale machine.ledger
      → Reachable scale
          (apply_entry to_string stored
            (record { log_id = log_id; payload = payload })
            machine).1.ledger
  unfolding apply_entry
  payload_reaches scale log_id empty machine r = r
  payload_reaches scale log_id (membership m) machine r = r
  payload_reaches scale log_id (normal request) machine r =
      request_reaches to_string scale request machine.ledger _
        (apply_single_request-Answered to_string request machine.ledger) r

  -- The ledger of a state machine that applies entries stays one that public calls lead to.
  pub apply-Reachable :
      (scale : Scale) (entries : List (Entry LogId Membership))
      (machine : StateMachine LogId Stored Bytes)
      → Reachable scale machine.ledger
      → Reachable scale (apply to_string stored entries machine).1.ledger
  unfolding apply
  apply-Reachable scale [] machine r = r
  apply-Reachable scale (entry ∷ entries) machine r =
      apply-Reachable scale entries _ (payload_reaches scale entry.log_id entry.payload machine r)

  -- What applying entries comes to, one entry after the other, answers in their order.
  pub data Applies
      : List (Entry LogId Membership)
        → StateMachine LogId Stored Bytes
        → List Answer
        → StateMachine LogId Stored Bytes
        → Type 0 where
    applied_all : (machine : StateMachine LogId Stored Bytes) → Applies [] machine [] machine
    applied_empty :
        (log_id : LogId) (entries : List (Entry LogId Membership))
        (machine last : StateMachine LogId Stored Bytes) (answers : List Answer)
        → Applies entries (record machine { last_applied_log_id = some log_id }) answers last
        → Applies
            (record { log_id = log_id; payload = empty } ∷ entries)
            machine
            (accepted RaftResponse.blank ∷ answers)
            last
    applied_membership :
        (log_id : LogId) (m : Membership) (entries : List (Entry LogId Membership))
        (machine last : StateMachine LogId Stored Bytes) (answers : List Answer)
        → Applies entries
            (record machine {
              last_applied_log_id = some log_id;
              last_membership = stored (some log_id) m;
            })
            answers
            last
        → Applies
            (record { log_id = log_id; payload = membership m } ∷ entries)
            machine
            (accepted RaftResponse.blank ∷ answers)
            last
    applied_request :
        (log_id : LogId) (request : RaftRequest) (entries : List (Entry LogId Membership))
        (machine last : StateMachine LogId Stored Bytes) (answer : Answer) (answers : List Answer)
        (l : Ledger)
        → Answered to_string request machine.ledger (answer, l)
        → Applies entries
            (record machine { last_applied_log_id = some log_id; ledger = l })
            answers
            last
        → Applies
            (record { log_id = log_id; payload = normal request } ∷ entries)
            machine
            (answer ∷ answers)
            last

  -- Applying entries answers each of them once, in order: a request that is accepted commits exactly
  -- its operations' events on the ledger that the entries before it left, one that is rejected leaves
  -- it as it was, a membership is stored with its log identifier, and after each entry the position in
  -- the log is that entry's.
  pub apply-Applies :
      (entries : List (Entry LogId Membership)) (machine : StateMachine LogId Stored Bytes)
      → let r = apply to_string stored entries machine in Applies entries machine r.0 r.1
  unfolding apply apply_entry
  apply-Applies [] machine = applied_all machine
  apply-Applies (entry ∷ entries) machine =
      one_more entry.log_id entry.payload entries machine (λ next. apply-Applies entries next)
    where
      one_more :
          (log_id : LogId) (payload : EntryPayload Membership)
          (entries : List (Entry LogId Membership)) (machine : StateMachine LogId Stored Bytes)
          → ((next : StateMachine LogId Stored Bytes)
              → let r = apply to_string stored entries next in Applies entries next r.0 r.1)
          → let all = record { log_id = log_id; payload = payload } ∷ entries in
            let r = apply to_string stored all machine in Applies all machine r.0 r.1
      one_more log_id empty entries machine rest = applied_empty log_id entries machine _ _ (rest _)
      one_more log_id (membership m) entries machine rest =
          applied_membership log_id m entries machine _ _ (rest _)
      one_more log_id (normal request) entries machine rest =
          applied_request log_id request entries machine _ _ _ _
            (apply_single_request-Answered to_string request machine.ledger) (rest _)
