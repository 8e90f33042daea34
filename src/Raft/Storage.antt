-- ===== src/Raft/Storage.antt =====
-- The log of a node in memory: crates/raft/src/storage.rs. Votes, memberships and log identifiers are
-- openraft's; of an identifier the code reads the field `index`. Every method holds the lock to its
-- end, and none of them fails; the callback of `append`, which is told of success, is left out.
pub mod Kept
use trust_ledger.Common.{ℕ, ◌≡◌, Bool, not, Option, none, some, List, [], ◌∷◌, ltb, if◌then◌else◌}
use trust_ledger.SortedMap.{SortedMap, insert}
use trust_ledger.Raft.{Entry}

module _ {ℓ} {V : Type ℓ} where
  -- `map.retain(|&k, _| test(k))`
  unfoldable pub retain : (ℕ → Bool) → SortedMap V → SortedMap V
  retain test [] = []
  retain test ((k, v) ∷ m) = let rest = retain test m in if test k then (k, v) ∷ rest else rest

  abbrev pub values : SortedMap V → List V
  values [] = []
  values ((k, v) ∷ m) = v ∷ values m

  abbrev pub last : List V → Option V
  last [] = none
  last (v ∷ []) = some v
  last (v ∷ w ∷ vs) = last (w ∷ vs)

-- `MemLogStoreInner`
pub record MemLogStore (Vote LogId Membership : Type 0) : Type 0 where
  pub vote : Option Vote
  pub committed : Option LogId
  pub last_purged_log_id : Option LogId
  pub entries : SortedMap (Entry LogId Membership)

module _ {LogId Membership : Type 0} where
  abbrev pub log_id_of : Option (Entry LogId Membership) → Option LogId → Option LogId
  log_id_of none otherwise = otherwise
  log_id_of (some e) otherwise = some e.log_id

  -- The loop of `append`.
  unfoldable pub insert_all :
      (LogId → ℕ)
      → List (Entry LogId Membership)
      → SortedMap (Entry LogId Membership)
      → SortedMap (Entry LogId Membership)
  insert_all index [] m = m
  insert_all index (e ∷ es) m = insert_all index es (insert (index e.log_id) e m)

module _ {Vote LogId Membership : Type 0} where
  -- `MemLogStore::new`
  abbrev pub new_mem_log_store : MemLogStore Vote LogId Membership
  new_mem_log_store = record {
    vote = none;
    committed = none;
    last_purged_log_id = none;
    entries = [];
  }

  -- A range is the test for its members.
  unfoldable pub try_get_log_entries :
      (ℕ → Bool) → MemLogStore Vote LogId Membership → List (Entry LogId Membership)
  try_get_log_entries in_range s = values (retain in_range s.entries)

  -- The purged identifier, and the last one.
  unfoldable pub get_log_state : MemLogStore Vote LogId Membership → Option LogId × Option LogId
  get_log_state s = (s.last_purged_log_id, log_id_of (last (values s.entries)) s.last_purged_log_id)

  unfoldable pub save_vote :
      Vote → MemLogStore Vote LogId Membership → MemLogStore Vote LogId Membership
  save_vote vote s = record s { vote = some vote }

  unfoldable pub save_committed :
      Option LogId → MemLogStore Vote LogId Membership → MemLogStore Vote LogId Membership
  save_committed committed s = record s { committed = committed }

  module _ (index : LogId → ℕ) where
    unfoldable pub append_entries :
        List (Entry LogId Membership)
        → MemLogStore Vote LogId Membership
        → MemLogStore Vote LogId Membership
    append_entries es s = record s { entries = insert_all index es s.entries }

    -- `split_off(&i)` takes the keys from i on out of the map.
    unfoldable pub truncate :
        LogId → MemLogStore Vote LogId Membership → MemLogStore Vote LogId Membership
    truncate log_id s = record s { entries = retain (λ k. ltb k (index log_id)) s.entries }

    unfoldable pub purge :
        LogId → MemLogStore Vote LogId Membership → MemLogStore Vote LogId Membership
    purge log_id s = record s {
      last_purged_log_id = some log_id;
      entries = retain (λ k. ltb (index log_id) k) s.entries;
    }
