-- ===== src/Raft.antt =====
-- The replicated state machine: crates/raft/src/types.rs and state_machine.rs. The log entries and
-- snapshots of openraft are records of the fields that the source uses; identifiers of log entries,
-- memberships, the text of an error and the serialization of a payload are parameters.
pub mod Apply
pub mod Snapshot
pub mod Storage
use trust_ledger.Common.{ℕ, Option, none, some, List, [], ◌∷◌}
use Prim.Native.String.{String}
use trust_ledger.Vocabulary.{
  AccountId, TransferId, Amount, Scale, Timestamp, AccountType, AccountFlags,
}
use trust_ledger.LedgerError.{LedgerError, ok, err}
use trust_ledger.Transfer.{Transfer}
use trust_ledger.Journal.{LedgerEvent, BatchOp}
use trust_ledger.Ledger.State.{Ledger, new_ledger, Outcome, done, fail, Method, ◌>>=◌}
use trust_ledger.Ledger.Batch.{prepare_batch, commit_events}
use trust_ledger.Ledger.Events.{replay}

pub data RaftRequest : Type 0 where
  create_account : AccountId → AccountType → AccountFlags → Scale → Timestamp → RaftRequest
  create_transfer create_pending : Transfer → RaftRequest
  post_pending : TransferId → TransferId → Amount → Timestamp → RaftRequest
  void_pending : TransferId → Timestamp → RaftRequest
  close_account : AccountId → Timestamp → RaftRequest
  apply_batch : List BatchOp → RaftRequest

-- `From<RaftRequest> for Vec<BatchOp>`
abbrev pub batch_ops : RaftRequest → List BatchOp
batch_ops (create_account id account_type flags scale timestamp) =
    BatchOp.create_account id account_type flags scale timestamp ∷ []
batch_ops (create_transfer t) = BatchOp.transfer t ∷ []
batch_ops (create_pending t) = BatchOp.pending_transfer t ∷ []
batch_ops (post_pending pending_id post_transfer_id amount timestamp) =
    BatchOp.post_pending pending_id post_transfer_id amount timestamp ∷ []
batch_ops (void_pending pending_id timestamp) = BatchOp.void_pending pending_id timestamp ∷ []
batch_ops (close_account id timestamp) = BatchOp.close_account id timestamp ∷ []
batch_ops (apply_batch ops) = ops

pub data RaftResponse : Type 0 where
  blank : RaftResponse
  account_created account_closed : AccountId → RaftResponse
  transfer_created pending_created pending_posted pending_voided : TransferId → RaftResponse
  batch_applied : List LedgerEvent → RaftResponse

pub data RaftClientError : Type 0 where
  ledger_error : String → RaftClientError
  not_leader : Option ℕ → RaftClientError
  fatal : String → RaftClientError

-- `Result<RaftResponse, RaftClientError>`
pub data Answer : Type 0 where
  accepted : RaftResponse → Answer
  rejected : RaftClientError → Answer

-- `ledger.prepare_batch(&ops)?` and `ledger.commit_events(&events)?`
abbrev pub prepare_and_commit : List BatchOp → Method (List LedgerEvent)
prepare_and_commit ops =
    prepare_batch ops >>= λ events. commit_events events >>= λ _. λ l. done events l

module _ (to_string : LedgerError → String) where
  abbrev pub answer_with :
      (List LedgerEvent → RaftResponse) → Outcome (List LedgerEvent) → Answer × Ledger
  answer_with response (done events l) = (accepted (response events), l)
  answer_with response (fail e l) = (rejected (ledger_error (to_string e)), l)

  unfoldable pub apply_single_request : RaftRequest → Ledger → Answer × Ledger
  apply_single_request (create_account id account_type flags scale timestamp) l =
      answer_with (λ _. account_created id)
        (prepare_and_commit (BatchOp.create_account id account_type flags scale timestamp ∷ []) l)
  apply_single_request (create_transfer t) l =
      answer_with (λ _. transfer_created t.id) (prepare_and_commit (BatchOp.transfer t ∷ []) l)
  apply_single_request (create_pending t) l =
      answer_with (λ _. pending_created t.id)
        (prepare_and_commit (BatchOp.pending_transfer t ∷ []) l)
  apply_single_request (post_pending pending_id post_transfer_id amount timestamp) l =
      answer_with (λ _. pending_posted post_transfer_id)
        (prepare_and_commit (BatchOp.post_pending pending_id post_transfer_id amount timestamp ∷ [])
          l)
  apply_single_request (void_pending pending_id timestamp) l =
      answer_with (λ _. pending_voided pending_id)
        (prepare_and_commit (BatchOp.void_pending pending_id timestamp ∷ []) l)
  apply_single_request (close_account id timestamp) l =
      answer_with (λ _. account_closed id)
        (prepare_and_commit (BatchOp.close_account id timestamp ∷ []) l)
  apply_single_request (apply_batch ops) l =
      answer_with (λ events. batch_applied events) (prepare_and_commit ops l)

-- `openraft::EntryPayload` and `openraft::Entry`
pub data EntryPayload (Membership : Type 0) : Type 0 where
  empty : EntryPayload Membership
  membership : Membership → EntryPayload Membership
  normal : RaftRequest → EntryPayload Membership

pub record Entry (LogId Membership : Type 0) : Type 0 where
  pub log_id : LogId
  pub payload : EntryPayload Membership

-- `openraft::SnapshotMeta` and `openraft::Snapshot`
pub record SnapshotMeta (LogId Stored : Type 0) : Type 0 where
  pub last_log_id : Option LogId
  pub last_membership : Stored
  pub snapshot_id : String

pub record RaftSnapshot (LogId Stored Bytes : Type 0) : Type 0 where
  pub meta : SnapshotMeta LogId Stored
  pub snapshot : Bytes

pub record StateMachine (LogId Stored Bytes : Type 0) : Type 0 where
  pub ledger : Ledger
  pub last_applied_log_id : Option LogId
  pub last_membership : Stored
  pub current_snapshot : Option (RaftSnapshot LogId Stored Bytes)

-- `LedgerStateMachine::new`
abbrev pub new_state_machine :
    {LogId Stored Bytes : Type 0} → Stored → Scale → StateMachine LogId Stored Bytes
new_state_machine default_membership scale = record {
  ledger = new_ledger scale;
  last_applied_log_id = none;
  last_membership = default_membership;
  current_snapshot = none;
}

module _ {LogId Membership Stored Bytes : Type 0} (to_string : LedgerError → String)
    (stored : Option LogId → Membership → Stored) where
  -- One turn of the loop of `apply`.
  unfoldable pub apply_entry :
      Entry LogId Membership
      → StateMachine LogId Stored Bytes
      → Answer × StateMachine LogId Stored Bytes
  apply_entry entry machine =
      let applied = record machine { last_applied_log_id = some entry.log_id } in
      elim entry.payload [
        | empty ↦ (accepted blank, applied)
        | membership m ↦
            (accepted blank, record applied { last_membership = stored (some entry.log_id) m })
        | normal request ↦
            let (answer, l) = apply_single_request to_string request applied.ledger in
            (answer, record applied { ledger = l })
      ]

  unfoldable pub apply :
      List (Entry LogId Membership)
      → StateMachine LogId Stored Bytes
      → List Answer × StateMachine LogId Stored Bytes
  apply [] machine = ([], machine)
  apply (entry ∷ entries) machine =
      let (answer, next) = apply_entry entry machine in
      let (answers, last) = apply entries next in (answer ∷ answers, last)

pub record SnapshotPayload : Type 0 where
  pub scale : Scale
  pub journal : List LedgerEvent

pub record LedgerSnapshotBuilder (LogId Stored : Type 0) : Type 0 where
  pub meta : SnapshotMeta LogId Stored
  pub snapshot_payload : SnapshotPayload

-- `get_snapshot_builder`, with the identifier that it makes of the log index and the clock.
abbrev pub get_snapshot_builder :
    {LogId Stored Bytes : Type 0}
    → String
    → StateMachine LogId Stored Bytes
    → LedgerSnapshotBuilder LogId Stored
get_snapshot_builder snapshot_id machine = record {
  meta = record {
    last_log_id = machine.last_applied_log_id;
    last_membership = machine.last_membership;
    snapshot_id = snapshot_id;
  };
  snapshot_payload = record { scale = machine.ledger.scale; journal = machine.ledger.journal };
}

module _ {LogId Stored Bytes : Type 0} (to_allocvec : SnapshotPayload → Option Bytes) where
  -- A storage error is `none`.
  unfoldable pub build_snapshot :
      LedgerSnapshotBuilder LogId Stored → Option (RaftSnapshot LogId Stored Bytes)
  build_snapshot builder = elim (to_allocvec builder.snapshot_payload) [
    | none ↦ none
    | some payload ↦ some (record { meta = builder.meta; snapshot = payload })
  ]

module _ {LogId Stored Bytes : Type 0} (from_bytes : Bytes → Option SnapshotPayload) where
  -- A storage error is `none`; nothing has been written then.
  unfoldable pub install_snapshot :
      SnapshotMeta LogId Stored
      → Bytes
      → StateMachine LogId Stored Bytes
      → Option (StateMachine LogId Stored Bytes)
  install_snapshot meta snapshot machine = elim (from_bytes snapshot) [
    | none ↦ none
    | some payload ↦ elim (replay payload.scale payload.journal) [
      | err e ↦ none
      | ok l ↦ some (record {
        ledger = l;
        last_applied_log_id = meta.last_log_id;
        last_membership = meta.last_membership;
        current_snapshot = some (record { meta = meta; snapshot = snapshot });
      })
    ]
  ]
