-- ===== src/Raft/Storage/Kept.antt =====
-- What a node's log holds after any calls (crates/raft/src/storage.rs).
use trust_ledger.Common.{
  ℕ, ◌≡◌, refl, ap, ◌∙◌, Bool, true, false, Option, none, some, List, [], ◌∷◌, ◌==◌, subst, ltb,
  if◌then◌else◌, Bool-cases, same_key, inl, inr,
}
use trust_ledger.SortedMap.{SortedMap, get, insert}
use trust_ledger.SortedMap.Lookup.{get-insert}
use trust_ledger.Raft.{Entry}
use trust_ledger.Raft.Storage.{
  MemLogStore, retain, insert_all, append_entries, truncate, purge, save_vote, save_committed,
}

-- A key is looked up in what is kept of a map.
pub get-retain {ℓ} :
    {V : Type ℓ} (test : ℕ → Bool) (j : ℕ) (m : SortedMap V)
    → get j (retain test m) ≡ (if test j then get j m else none)
unfolding get retain
get-retain test j [] = elim (Bool-cases (test j)) [
  | inl kept ↦ rw kept refl
  | inr dropped ↦ rw dropped refl
]
get-retain test j ((k, v) ∷ m) = elim (same_key j k) [
  | inl (e, hit, hit') ↦ elim (Bool-cases (test j)) [
    | inl kept ↦
        let kept' : test k ≡ true = subst (λ x. test x ≡ true) e kept in rw (kept', kept, hit) refl
    | inr dropped ↦
        let dropped' : test k ≡ false = subst (λ x. test x ≡ false) e dropped in
        rw (dropped', dropped, get-retain test j m, dropped) refl
  ]
  | inr (miss, miss') ↦ elim (Bool-cases (test k)) [
    | inl kept ↦ rw (kept, miss) (get-retain test j m)
    | inr dropped ↦ rw (dropped, miss) (get-retain test j m)
  ]
]

pub data Call (Vote LogId Membership : Type 0) : Type 0 where
  appending : List (Entry LogId Membership) → Call Vote LogId Membership
  truncating : LogId → Call Vote LogId Membership
  purging : LogId → Call Vote LogId Membership
  voting : Vote → Call Vote LogId Membership
  committing : Option LogId → Call Vote LogId Membership

module _ {LogId Membership : Type 0} (index : LogId → ℕ) where
  -- The entry at a place after an append.
  abbrev pub written :
      ℕ
      → List (Entry LogId Membership)
      → Option (Entry LogId Membership)
      → Option (Entry LogId Membership)
  written j [] before = before
  written j (e ∷ es) before = written j es (if j == index e.log_id then some e else before)

  get-insert_all :
      (j : ℕ) (es : List (Entry LogId Membership)) (m : SortedMap (Entry LogId Membership))
      → get j (insert_all index es m) ≡ written j es (get j m)
  unfolding insert_all
  get-insert_all j [] m = refl
  get-insert_all j (e ∷ es) m =
      get-insert_all j es (insert (index e.log_id) e m)
      ∙ ap (written j es) (get-insert j (index e.log_id) e m)

module _ {Vote LogId Membership : Type 0} (index : LogId → ℕ) where
  abbrev pub perform :
      Call Vote LogId Membership
      → MemLogStore Vote LogId Membership
      → MemLogStore Vote LogId Membership
  perform (appending es) s = append_entries index es s
  perform (truncating log_id) s = truncate index log_id s
  perform (purging log_id) s = purge index log_id s
  perform (voting vote) s = save_vote vote s
  perform (committing log_id) s = save_committed log_id s

  abbrev pub perform_all :
      List (Call Vote LogId Membership)
      → MemLogStore Vote LogId Membership
      → MemLogStore Vote LogId Membership
  perform_all [] s = s
  perform_all (c ∷ calls) s = perform_all calls (perform c s)

  -- The entry that a call leaves at a place, read off the call and the entry that was there.
  abbrev pub left :
      ℕ
      → Call Vote LogId Membership
      → Option (Entry LogId Membership)
      → Option (Entry LogId Membership)
  left j (appending es) before = written index j es before
  left j (truncating log_id) before = if ltb j (index log_id) then before else none
  left j (purging log_id) before = if ltb (index log_id) j then before else none
  left j (voting vote) before = before
  left j (committing log_id) before = before

  abbrev pub left_all :
      ℕ
      → List (Call Vote LogId Membership)
      → Option (Entry LogId Membership)
      → Option (Entry LogId Membership)
  left_all j [] before = before
  left_all j (c ∷ calls) before = left_all j calls (left j c before)

  get-perform :
      (j : ℕ) (c : Call Vote LogId Membership) (s : MemLogStore Vote LogId Membership)
      → get j (perform c s).entries ≡ left j c (get j s.entries)
  unfolding append_entries truncate purge save_vote save_committed
  get-perform j (appending es) s = get-insert_all index j es s.entries
  get-perform j (truncating log_id) s = get-retain (λ k. ltb k (index log_id)) j s.entries
  get-perform j (purging log_id) s = get-retain (λ k. ltb (index log_id) k) j s.entries
  get-perform j (voting vote) s = refl
  get-perform j (committing log_id) s = refl

  -- After any calls of a node's log, every place holds the entry that was last appended there, unless
  -- a truncation at or before the place or a purge at or behind it has since taken it away.
  pub get-perform_all :
      (j : ℕ) (calls : List (Call Vote LogId Membership)) (s : MemLogStore Vote LogId Membership)
      → get j (perform_all calls s).entries ≡ left_all j calls (get j s.entries)
  get-perform_all j [] s = refl
  get-perform_all j (c ∷ calls) s =
      get-perform_all j calls (perform c s) ∙ ap (left_all j calls) (get-perform j c s)
