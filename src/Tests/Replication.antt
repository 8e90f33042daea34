-- ===== src/Tests/Replication.antt =====
-- The theorems about the replicated state machine at a concrete log.
use Prim.Native.String.{String}
use trust_ledger.Common.{ℕ, ◌≡◌, ◌∷◌, [], List, Option, none, some, refl, sym}
use trust_ledger.LedgerError.{LedgerError}
use trust_ledger.Tests.Bank.{settled, settled-Reachable, overdraft, opened, purchase}
use trust_ledger.Vocabulary.{asset}
use trust_ledger.Account.{bank_asset}
use trust_ledger.Raft.{
  RaftRequest, apply_single_request, Entry, normal, StateMachine, new_state_machine, apply,
  SnapshotPayload, RaftSnapshot, get_snapshot_builder, build_snapshot, install_snapshot,
}
use trust_ledger.Raft.Apply.{Answered, apply_single_request-Answered, Applies, apply-Applies}
use trust_ledger.Raft.Snapshot.{build_snapshot-install_snapshot}

-- The parameters: numbers for log identifiers, lists of nodes for memberships, and a
-- serialization that keeps the payload as it is.
abbrev no_text : LedgerError → String
no_text e = ""

abbrev stored : Option ℕ → List ℕ → List ℕ
stored log_id nodes = nodes

abbrev to_allocvec : SnapshotPayload → Option SnapshotPayload
to_allocvec payload = some payload

abbrev from_bytes : SnapshotPayload → Option SnapshotPayload
from_bytes bytes = some bytes

reads_back :
    (payload bytes : SnapshotPayload)
    → to_allocvec payload ≡ some bytes
    → from_bytes bytes ≡ some payload
reads_back payload bytes h = sym h

abbrev fresh : StateMachine ℕ (List ℕ) SnapshotPayload
fresh = new_state_machine [] 2

abbrev busy : StateMachine ℕ (List ℕ) SnapshotPayload
busy = record {
  ledger = settled;
  last_applied_log_id = some 9;
  last_membership = 1 ∷ 2 ∷ 3 ∷ [];
  current_snapshot = none;
}

abbrev next_entries : List (Entry ℕ (List ℕ))
next_entries =
    record { log_id = 3; payload = normal (RaftRequest.create_account 1 asset bank_asset 2 10) }
    ∷ record { log_id = 4; payload = normal (RaftRequest.create_transfer overdraft) }
    ∷ []

abbrev taken : RaftSnapshot ℕ (List ℕ) SnapshotPayload
taken = record {
  meta = (get_snapshot_builder "9-0" busy).meta;
  snapshot = (get_snapshot_builder "9-0" busy).snapshot_payload;
}

taken_built : build_snapshot to_allocvec (get_snapshot_builder "9-0" busy) ≡ some taken
unfolding build_snapshot
taken_built = refl

apply_single_request-Answered_example :
    Answered no_text
      (RaftRequest.create_pending purchase)
      opened
      (apply_single_request no_text (RaftRequest.create_pending purchase) opened)
apply_single_request-Answered_example =
    apply_single_request-Answered no_text (RaftRequest.create_pending purchase) opened

apply-Applies_example :
    Applies no_text stored next_entries fresh
      (apply no_text stored next_entries fresh).0
      (apply no_text stored next_entries fresh).1
apply-Applies_example = apply-Applies no_text stored next_entries fresh

build_snapshot-install_snapshot_example :
    install_snapshot from_bytes taken.meta taken.snapshot fresh
    ≡ some (record busy { current_snapshot = some taken })
build_snapshot-install_snapshot_example =
    build_snapshot-install_snapshot to_allocvec from_bytes reads_back 2 "9-0" busy fresh taken
      settled-Reachable taken_built
