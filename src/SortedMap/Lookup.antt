-- ===== src/SortedMap/Lookup.antt =====
-- What a lookup finds after each operation of the map.
use trust_ledger.Common.{
  ℕ, ◌≡◌, none, some, [], ◌∷◌, arith, ◌==◌, if◌then◌else◌, Option-cases, inl, inr, sym, ◌∙◌,
}
use trust_ledger.SortedMap.{SortedMap, get, insert, update}
use mathlib.Core.Option

module _ {ℓ} {V : Type ℓ} where
  -- Looking up any key after an insertion.
  pub get-insert :
      (j k : ℕ) (v : V) (m : SortedMap V)
      → get j (insert k v m) ≡ (if j == k then some v else get j m)
  unfolding get insert
  get-insert j k v [] = ground arith
  get-insert j k v ((i, w) ∷ m) = ground (arith, get-insert j k v m)

  -- Looking up any key after an update in place.
  pub get-update :
      (j k : ℕ) (f : V → V) (m : SortedMap V)
      → get j (update k f m) ≡ (if j == k then Option.map f (get j m) else get j m)
  unfolding get update
  get-update j k f [] = ground arith
  get-update j k f ((i, w) ∷ m) = ground (arith, get-update j k f m)

  -- An update makes no key appear.
  pub unchanged_absent :
      (j k : ℕ) (f : V → V) (m : SortedMap V) → get j m ≡ none → get j (update k f m) ≡ none
  unchanged_absent j k f m h = ground (arith, get-update j k f m)

  -- The value that an updated map holds, and what it was.
  pub from-update :
      (j k : ℕ) (f : V → V) (m : SortedMap V) (a : V)
      → get j (update k f m) ≡ some a
      → (b : V) × (get j m ≡ some b) × (a ≡ (if j == k then f b else b))
  from-update j k f m a h = elim (Option-cases (get j m)) [
    | inl missing ↦ let never : none ≡ some a = sym (unchanged_absent j k f m missing) ∙ h in cc
    | inr (b, found) ↦ (b, found, ground (arith, get-update j k f m))
  ]
