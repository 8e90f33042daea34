-- ===== src/SortedMap.antt =====
-- `std::collections::BTreeMap` over number keys, as the list of its entries in key order: what
-- crates/ledger-core/src/ledger.rs uses of it. The laws are in the modules below.
pub mod Lookup
pub mod Undo
pub mod Keys
pub mod Sums
use trust_ledger.Common.{
  ℕ, zero, ◌+◌, Bool, Option, none, some, List, [], ◌∷◌, ltb, ◌==◌, if◌then◌else◌, is_some,
}

abbrev pub SortedMap {ℓ} : Type ℓ → Type ℓ
SortedMap V = List (ℕ × V)

module _ {ℓ} {V : Type ℓ} where
  -- `map.get(&k)`
  unfoldable pub get : ℕ → SortedMap V → Option V
  get k [] = none
  get k ((j, v) ∷ m) = if k == j then some v else get k m

  -- `map.contains_key(&k)`
  abbrev pub contains_key : ℕ → SortedMap V → Bool
  contains_key k m = is_some (get k m)

  -- `map.insert(k, v)`: in key order, the old value is replaced.
  unfoldable pub insert : ℕ → V → SortedMap V → SortedMap V
  insert k v [] = (k, v) ∷ []
  insert k v ((j, w) ∷ m) =
      let rest = insert k v m in
      if ltb k j then (k, v) ∷ (j, w) ∷ m else if k == j then (k, v) ∷ m else (j, w) ∷ rest

  -- `if let Some(v) = map.get_mut(&k) { *v = f(*v); }`
  unfoldable pub update : ℕ → (V → V) → SortedMap V → SortedMap V
  update k f [] = []
  update k f ((j, w) ∷ m) =
      let rest = update k f m in if k == j then (j, f w) ∷ m else (j, w) ∷ rest

  -- `map.remove(&k)`
  unfoldable pub remove : ℕ → SortedMap V → SortedMap V
  remove k [] = []
  remove k ((j, w) ∷ m) = let rest = remove k m in if k == j then m else (j, w) ∷ rest

  -- The sum of a field over `map.values()`.
  unfoldable pub sum_of : (V → ℕ) → SortedMap V → ℕ
  sum_of f [] = 0
  sum_of f ((j, v) ∷ m) = f v + sum_of f m
