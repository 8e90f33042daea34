-- ===== src/Raft/Snapshot.antt =====
-- Snapshots of the state machine (crates/raft/src/state_machine.rs): the journal and the scale are
-- serialized, and replayed where the snapshot is installed.
use Prim.Native.String.{String}
use trust_ledger.Common.{
  ◌≡◌, ◌∷◌, [], List, Option, none, some, ap, refl, sym, subst, ◌∙◌, inl, inr, Option-cases,
}
use mathlib.Core.Option.{some-injective}
use trust_ledger.Vocabulary.{Scale}
use trust_ledger.LedgerError.{ok}
use trust_ledger.Journal.{LedgerEvent}
use trust_ledger.Ledger.Batch.Atomic.{apply_events-cons, apply_events-fail}
use trust_ledger.Ledger.Batch.Commit.{apply_event-done}
use trust_ledger.Ledger.Events.{apply_event, apply_events, replay}
use trust_ledger.Ledger.Invariant.Reachable.{Reachable, Reachable-replay, journal_applies}
use trust_ledger.Ledger.State.{Ledger, new_ledger, done, fail, after, Outcome-cases}
use trust_ledger.Ledger.Step.Events.{Step-journal}
use trust_ledger.Raft.{
  StateMachine, SnapshotPayload, RaftSnapshot, SnapshotMeta, get_snapshot_builder, build_snapshot,
  install_snapshot,
}

apply_events-scale :
    (events : List LedgerEvent) (l l' : Ledger)
    → apply_events events l ≡ done tt l'
    → l'.scale ≡ l.scale
unfolding apply_events
apply_events-scale [] l l' h = sym (ap (λ o. (after o).scale) h)
apply_events-scale (event ∷ events) l l' h = elim (Outcome-cases (apply_event event l)) [
  | inl (u, m, e) ↦
      apply_events-scale events m l' (sym (apply_events-cons event events l m e) ∙ h)
      ∙ (Step-journal event l m (apply_event-done event l m e)).1
  | inr (err_, m, e) ↦
      let never : done tt l' ≡ fail err_ m = sym h ∙ apply_events-fail event events l m err_ e in cc
]

-- The scale of a reachable ledger is the one that it was made with.
pub Reachable-scale : (scale : Scale) (l : Ledger) → Reachable scale l → l.scale ≡ scale
Reachable-scale scale l r =
    apply_events-scale l.journal (new_ledger scale) l (journal_applies scale l r)

module _ {LogId Stored Bytes : Type 0} (to_allocvec : SnapshotPayload → Option Bytes)
    (from_bytes : Bytes → Option SnapshotPayload)
    (round_trip : (payload : SnapshotPayload) (bytes : Bytes)
      → to_allocvec payload ≡ some bytes
      → from_bytes bytes ≡ some payload) where
  -- Installing a snapshot makes the target what the source was, with the snapshot kept.
  abbrev Installs :
      StateMachine LogId Stored Bytes
      → StateMachine LogId Stored Bytes
      → RaftSnapshot LogId Stored Bytes
      → Type 0
  Installs source target snapshot =
      install_snapshot from_bytes snapshot.meta snapshot.snapshot target
      ≡ some (record source { current_snapshot = some snapshot })

  -- A snapshot that is built of a state machine whose ledger is reachable can be installed on any
  -- other, where the serialization reads back what it has written; the other one then has the same
  -- ledger, the same last applied entry and the same membership, and holds the snapshot.
  pub build_snapshot-install_snapshot :
      (scale : Scale) (snapshot_id : String) (source target : StateMachine LogId Stored Bytes)
      (snapshot : RaftSnapshot LogId Stored Bytes)
      → Reachable scale source.ledger
      → build_snapshot to_allocvec (get_snapshot_builder snapshot_id source) ≡ some snapshot
      → install_snapshot from_bytes snapshot.meta snapshot.snapshot target
        ≡ some (record source { current_snapshot = some snapshot })
  unfolding build_snapshot install_snapshot
  build_snapshot-install_snapshot scale snapshot_id source target snapshot r built =
      elim (Option-cases (to_allocvec payload)) [
        | inl failed ↦ let never : none ≡ some snapshot = sym (ap written failed) ∙ built in cc
        | inr (bytes, wrote) ↦
            let is : record { meta = meta; snapshot = bytes } ≡ snapshot =
              some-injective _ _ (sym (ap written wrote) ∙ built) in
            subst (Installs source target) is (
              rw (round_trip payload bytes wrote, Installs, install_snapshot)
                (rw (replayed, install_snapshot) refl))
      ]
    where
      payload : SnapshotPayload
      payload = record { scale = source.ledger.scale; journal = source.ledger.journal }

      meta : SnapshotMeta LogId Stored
      meta = (get_snapshot_builder snapshot_id source).meta

      written : Option Bytes → Option (RaftSnapshot LogId Stored Bytes)
      written none = none
      written (some bytes) = some (record { meta = meta; snapshot = bytes })

      replayed : replay source.ledger.scale source.ledger.journal ≡ ok source.ledger
      replayed =
          subst (λ k. replay k source.ledger.journal ≡ ok source.ledger)
            (sym (Reachable-scale scale source.ledger r)) (Reachable-replay scale source.ledger r)
