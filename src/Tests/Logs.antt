-- ===== src/Tests/Logs.antt =====
-- A node's log at concrete calls.
use trust_ledger.Common.{ℕ, ◌≡◌, ◌/◌, List, [], ◌∷◌, some}
use trust_ledger.SortedMap.{get}
use trust_ledger.Raft.{Entry, empty}
use trust_ledger.Raft.Storage.{MemLogStore, new_mem_log_store}
use trust_ledger.Raft.Storage.Kept.{
  Call, appending, truncating, purging, voting, perform_all, get-perform_all,
}

abbrev entry : ℕ → Entry ℕ ℕ
entry n = record { log_id = n; payload = empty }

-- The places are the identifiers by tens.
abbrev place : ℕ → ℕ
place n = n / 10

abbrev calls : List (Call ℕ ℕ ℕ)
calls =
    appending (entry 30 ∷ entry 40 ∷ entry 50 ∷ [])
    ∷ truncating 50
    ∷ voting 1
    ∷ appending (entry 51 ∷ entry 61 ∷ [])
    ∷ purging 40
    ∷ []

abbrev fresh : MemLogStore ℕ ℕ ℕ
fresh = new_mem_log_store

get-perform_all_example : get 5 (perform_all place calls fresh).entries ≡ some (entry 51)
unfolding get
get-perform_all_example = get-perform_all place 5 calls fresh
