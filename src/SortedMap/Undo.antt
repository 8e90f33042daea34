-- ===== src/SortedMap/Undo.antt =====
-- Each change of a map is reverted by the operation that a rollback uses, and an update depends
-- only on what it makes of the value that it finds.
use trust_ledger.Common.{ℕ, ◌≡◌, refl, none, some, [], ◌∷◌, arith}
use trust_ledger.SortedMap.{SortedMap, get, insert, update, remove}

module _ {ℓ} {V : Type ℓ} where
  pub remove-insert :
      (k : ℕ) (v : V) (m : SortedMap V) → get k m ≡ none → remove k (insert k v m) ≡ m
  unfolding get insert remove
  remove-insert k v [] h = ground arith
  remove-insert k v ((j, w) ∷ m) h = ground (arith, remove-insert k v m)

  -- An update that restores the value found before the change.
  pub update-update :
      (k : ℕ) (f g : V → V) (v : V) (m : SortedMap V)
      → get k m ≡ some v
      → g (f v) ≡ v
      → update k g (update k f m) ≡ m
  unfolding get update
  update-update k f g v [] h e = ground arith
  update-update k f g v ((j, w) ∷ m) h e = ground (arith, update-update k f g v m)

  pub update-congr :
      (k : ℕ) (f g : V → V) (v : V) (m : SortedMap V)
      → get k m ≡ some v
      → f v ≡ g v
      → update k f m ≡ update k g m
  unfolding get update
  update-congr k f g v [] h e = refl
  update-congr k f g v ((j, w) ∷ m) h e = ground (arith, update-congr k f g v m)

  pub update-fuse :
      (k : ℕ) (f g : V → V) (m : SortedMap V)
      → update k f (update k g m) ≡ update k (λ v. f (g v)) m
  unfolding update
  update-fuse k f g [] = refl
  update-fuse k f g ((j, w) ∷ m) = ground (arith, update-fuse k f g m)

  pub update_self :
      (k : ℕ) (f : V → V) (v : V) (m : SortedMap V) → get k m ≡ some v → f v ≡ v → update k f m ≡ m
  unfolding get update
  update_self k f v [] h e = refl
  update_self k f v ((j, w) ∷ m) h e = ground (arith, update_self k f v m)
