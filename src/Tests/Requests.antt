-- ===== src/Tests/Requests.antt =====
-- The theorems about the guard against repeated requests at concrete runs.
use trust_ledger.Common.{◌≡◌, ◌≤◌, ◌+◌, refl, List, [], ◌∷◌, some, arith}
use trust_ledger.Idempotency.{new_store, try_acquire, complete, release_on_failure, ok}
use trust_ledger.Idempotency.Once.{
  Operation, acquiring, completing, releasing, perform_all, grants, releases, perform_all-grants,
  try_acquire-complete, not_yet, acquired, released, completed_other,
}

-- A request that fails once, and two more while it is repeated.
abbrev calls : List Operation
calls =
    acquiring 1
    ∷ releasing 1
    ∷ acquiring 1
    ∷ acquiring 1
    ∷ acquiring 2
    ∷ completing 1 "done"
    ∷ releasing 1
    ∷ acquiring 1
    ∷ []

granted_twice : grants 1 calls new_store ≡ 2
unfolding try_acquire complete release_on_failure
granted_twice = refl

perform_all-grants_example : grants 1 calls new_store ≤ releases 1 calls new_store + 1
perform_all-grants_example = perform_all-grants 1 calls

abbrev later : List Operation
later = releasing 1 ∷ acquiring 1 ∷ completing 2 "other" ∷ []

try_acquire-complete_example :
    (try_acquire 1 (perform_all later (complete 1 "done" new_store))).0 ≡ ok (some "done")
try_acquire-complete_example =
    try_acquire-complete 1 "done" later new_store
      (released 1 _ (acquired 1 _ (completed_other 2 "other" [] (omega arith) not_yet)))
