-- ===== src/SortedMap/Sums.antt =====
-- The sum of a field over the values, under each operation of the map.
use trust_ledger.Common.{ℕ, ◌+◌, ◌≡◌, none, some, [], ◌∷◌, arith, ◌≤◌}
use trust_ledger.SortedMap.{SortedMap, get, insert, update, sum_of}

module _ {ℓ} {V : Type ℓ} where
  pub sum_of-insert :
      (p : V → ℕ) (k : ℕ) (v : V) (m : SortedMap V)
      → get k m ≡ none
      → sum_of p (insert k v m) ≡ p v + sum_of p m
  unfolding get insert sum_of
  sum_of-insert p k v [] h = ground arith
  sum_of-insert p k v ((j, w) ∷ m) h = ground (arith, sum_of-insert p k v m)

  pub sum_of-update :
      (p : V → ℕ) (k : ℕ) (f : V → V) (v : V) (m : SortedMap V)
      → get k m ≡ some v
      → sum_of p (update k f m) + p v ≡ sum_of p m + p (f v)
  unfolding get update sum_of
  sum_of-update p k f v [] h = ground arith
  sum_of-update p k f v ((j, w) ∷ m) h = ground (arith, sum_of-update p k f v m)

  -- One value's field is at most the sum over all of them.
  pub get-le-sum_of :
      (p : V → ℕ) (k : ℕ) (v : V) (m : SortedMap V) → get k m ≡ some v → p v ≤ sum_of p m
  unfolding get sum_of
  get-le-sum_of p k v [] h = ground arith
  get-le-sum_of p k v ((j, w) ∷ m) h = ground (arith, get-le-sum_of p k v m)
