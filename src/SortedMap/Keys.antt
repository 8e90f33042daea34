-- ===== src/SortedMap/Keys.antt =====
-- Maps in which no key stands twice: every entry is found by a lookup.
use trust_ledger.Common.{
  ◌≡◌, ==-refl, [], ap, arith, false, is_some, none, refl, some, sym, true, ℕ, ◌∙◌, ◌∷◌, Bool,
}
use trust_ledger.SortedMap.{SortedMap, get, contains_key, insert, update, sum_of}
use trust_ledger.SortedMap.Lookup.{get-insert, unchanged_absent, get-update}

abbrev pub UniqueKeys {ℓ} : {V : Type ℓ} → SortedMap V → Type ℓ
UniqueKeys [] = Unit
UniqueKeys ((k, v) ∷ m) = (get k m ≡ none) × UniqueKeys m

-- A key that is found is not one that is missing.
pub not_both {ℓ} :
    {V : Type ℓ} (k : ℕ) (m : SortedMap V) → contains_key k m ≡ true → get k m ≡ none → ⊥
not_both k m h e = let never : false ≡ true = ap is_some (sym e) ∙ h in cc

module _ {ℓ} {V : Type ℓ} where
  pub insert-UniqueKeys :
      (k : ℕ) (v : V) (m : SortedMap V) → get k m ≡ none → UniqueKeys m → UniqueKeys (insert k v m)
  unfolding get insert
  insert-UniqueKeys k v [] h u = (refl, tt)
  insert-UniqueKeys k v ((j, w) ∷ m) h u =
      ground (arith, insert-UniqueKeys k v m, get-insert j k v m)

  pub update-UniqueKeys :
      (k : ℕ) (f : V → V) (m : SortedMap V) → UniqueKeys m → UniqueKeys (update k f m)
  unfolding get update
  update-UniqueKeys k f [] u = tt
  update-UniqueKeys k f ((j, w) ∷ m) u =
      ground (arith, update-UniqueKeys k f m, unchanged_absent j k f m)

  -- What is found behind the first entry is found.
  pub get-tail :
      (j k : ℕ) (v w : V) (m : SortedMap V)
      → get k m ≡ none
      → get j m ≡ some w
      → get j ((k, v) ∷ m) ≡ some w
  unfolding get
  get-tail j k v w m h e = ground arith

  pub get-head : (k : ℕ) (v : V) (m : SortedMap V) → get k ((k, v) ∷ m) ≡ some v
  unfolding get
  get-head k v m = rw (==-refl k)

  pub sum_of-zero :
      (p : V → ℕ) (m : SortedMap V)
      → UniqueKeys m
      → ((j : ℕ) (v : V) → get j m ≡ some v → p v ≡ 0)
      → sum_of p m ≡ 0
  unfolding sum_of
  sum_of-zero p [] u h = refl
  sum_of-zero p ((k, v) ∷ m) u h = omega (
    arith,
    h k v (get-head k v m),
    sum_of-zero p m u.1 (λ j w e. h j w (get-tail j k v w m u.0 e)),
  )

module _ {ℓ} {V : Type ℓ} where
  pub contains_key-insert :
      (j k : ℕ) (v : V) (m : SortedMap V)
      → contains_key j m ≡ true
      → contains_key j (insert k v m) ≡ true
  contains_key-insert j k v m h = ground (arith, get-insert j k v m)

  pub contains_key-update :
      (j k : ℕ) (f : V → V) (m : SortedMap V)
      → contains_key j m ≡ true
      → contains_key j (update k f m) ≡ true
  contains_key-update j k f m h = ground (arith, get-update j k f m)

  pub contains_key-found :
      (j : ℕ) (v : V) (m : SortedMap V) → get j m ≡ some v → contains_key j m ≡ true
  contains_key-found j v m h = rw h

  -- Nothing is found in an empty map.
  pub get-nil : (j : ℕ) (v : V) → get j [] ≡ some v → ◌≡◌ {A = Bool} true false
  unfolding get
  get-nil j v h = cc
