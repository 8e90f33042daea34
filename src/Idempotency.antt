-- ===== src/Idempotency.antt =====
-- The guard against repeated requests: apps/demo/src/idempotency.rs. Keys are numbers, only compared,
-- and the map is a function from keys. Each method holds the lock throughout, so calls follow each
-- other; the lock is not poisoned, since no holder of it panics.
pub mod Once
use Prim.Native.String.{String}
use trust_ledger.Common.{ℕ, Option, none, some, ◌==◌, if◌then◌else◌}

abbrev pub Key : Type 0
Key = ℕ

pub data IdempotencyStatus : Type 0 where
  in_progress : IdempotencyStatus
  completed : String → IdempotencyStatus

pub data IdempotencyError : Type 0 where
  concurrent_request : Key → IdempotencyError

pub data Acquired : Type 0 where
  ok : Option String → Acquired
  err : IdempotencyError → Acquired

abbrev pub IdempotencyStore : Type 0
IdempotencyStore = Key → Option IdempotencyStatus

-- `IdempotencyStore::new`
abbrev pub new_store : IdempotencyStore
new_store key = none

-- `insert` with a status, and `remove` with none.
abbrev pub set : Key → Option IdempotencyStatus → IdempotencyStore → IdempotencyStore
set key status store other = if other == key then status else store other

-- What `try_acquire` does with the status it finds.
abbrev pub acquire_at :
    Key → IdempotencyStore → Option IdempotencyStatus → Acquired × IdempotencyStore
acquire_at key store (some in_progress) = (err (concurrent_request key), store)
acquire_at key store (some (completed json)) = (ok (some json), store)
acquire_at key store none = (ok none, set key (some in_progress) store)

unfoldable pub try_acquire : Key → IdempotencyStore → Acquired × IdempotencyStore
try_acquire key store = acquire_at key store (store key)

unfoldable pub complete : Key → String → IdempotencyStore → IdempotencyStore
complete key response_json store = set key (some (completed response_json)) store

abbrev pub release_at : Key → IdempotencyStore → Option IdempotencyStatus → IdempotencyStore
release_at key store (some in_progress) = set key none store
release_at key store (some (completed json)) = store
release_at key store none = store

unfoldable pub release_on_failure : Key → IdempotencyStore → IdempotencyStore
release_on_failure key store = release_at key store (store key)
