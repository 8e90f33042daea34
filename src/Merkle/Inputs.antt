-- ===== src/Merkle/Inputs.antt =====
-- What the verification of a proof hashes, and collisions among it (crates/merkle/src/proof.rs).
use trust_ledger.Common.{
  ℕ, ◌+◌, ◌-◌, ◌<◌, ◌≡◌, ◌≢◌, ◌⊎◌, inl, inr, refl, sym, ap, ◌∙◌, ◌==◌, ==→eq, ==→ne, Bool-cases,
  none, some, List, [], ◌∷◌, ◌++◌, if◌then◌else◌, take, take_exact, drop, drop_exact, ◌%◌, ◌/◌, ◌^◌,
}
use mathlib.Core.List.{Memᴰ}
use trust_ledger.Wal.Bytes.{
  Bytes, from_le_bytes, from_le_bytes-to_le_bytes, length-to_le_bytes, values,
}
use trust_ledger.Merkle.{Hash32, as_bytes, MmrProof, locate, bag_peaks, word_bits}

-- Numbers that 32 bytes write.
abbrev pub IsHash : Hash32 → Type 0
IsHash hash = hash < values 32

pub data AreHashes : List Hash32 → Type 0 where
  hashes_nil : AreHashes []
  hashes_cons :
      (hash : Hash32) (hashes : List Hash32)
      → IsHash hash
      → AreHashes hashes
      → AreHashes (hash ∷ hashes)

-- Two hashes side by side, behind a prefix, tell both of them.
joined :
    (prefix a b a' b' : ℕ)
    → IsHash a
    → IsHash b
    → IsHash a'
    → IsHash b'
    → ◌≡◌ {A = Bytes} (prefix ∷ (as_bytes a ++ as_bytes b)) (prefix ∷ (as_bytes a' ++ as_bytes b'))
    → (a ≡ a') × (b ≡ b')
joined prefix a b a' b' ha hb ha' hb' h =
    let body : as_bytes a ++ as_bytes b ≡ as_bytes a' ++ as_bytes b' = ap (drop 1) h in
    let front : as_bytes a ≡ as_bytes a' =
      sym (take_exact (as_bytes a) (as_bytes b) (length-to_le_bytes 32 a))
      ∙ ap (take 32) body
      ∙ take_exact (as_bytes a') (as_bytes b') (length-to_le_bytes 32 a') in
    let back : as_bytes b ≡ as_bytes b' =
      sym (drop_exact (as_bytes a) (as_bytes b) (length-to_le_bytes 32 a))
      ∙ ap (drop 32) body
      ∙ drop_exact (as_bytes a') (as_bytes b') (length-to_le_bytes 32 a') in
    (
      sym (from_le_bytes-to_le_bytes 32 a ha)
          ∙ ap from_le_bytes front
          ∙ from_le_bytes-to_le_bytes 32 a' ha',
      sym (from_le_bytes-to_le_bytes 32 b hb)
          ∙ ap from_le_bytes back
          ∙ from_le_bytes-to_le_bytes 32 b' hb',
    )

module _ (sha256 : Bytes → Hash32) where
  -- What is hashed on the way up from a leaf, in order.
  abbrev pub node_input : ℕ → ℕ → Hash32 → Hash32 → Bytes
  node_input local_index h sibling curr =
      if (local_index / 2 ^ h) % 2 == 1
      then 1 ∷ (as_bytes sibling ++ as_bytes curr)
      else 1 ∷ (as_bytes curr ++ as_bytes sibling)

  abbrev pub climb_inputs : ℕ → ℕ → List Hash32 → Hash32 → List Bytes
  climb_inputs local_index h [] curr = []
  climb_inputs local_index h (sibling ∷ siblings) curr =
      let input = node_input local_index h sibling curr in
      input ∷ climb_inputs local_index (h + 1) siblings (sha256 input)

  -- What is hashed when peaks are bagged.
  abbrev pub bag_inputs : List Hash32 → List Bytes
  bag_inputs [] = []
  bag_inputs (peak ∷ []) = []
  bag_inputs (peak ∷ next ∷ peaks) =
      (2 ∷ (as_bytes peak ++ as_bytes (bag_peaks sha256 (next ∷ peaks))))
      ∷ bag_inputs (next ∷ peaks)

  -- All that is hashed when a proof is verified for a leaf.
  unfoldable pub hashed_inputs : MmrProof → Hash32 → List Bytes
  hashed_inputs proof leaf = elim (locate proof.leaf_index word_bits proof.leaf_count 0 0) [
    | none ↦ []
    | some place ↦
        climb_inputs (proof.leaf_index - place.2) 0 proof.siblings leaf ++ bag_inputs proof.peaks
  ]

  -- Two inputs with one hash, one from each of two lists.
  pub record Collision (inputs inputs' : List Bytes) : Type 0 where
    pub first : Bytes
    pub second : Bytes
    pub first_given : Memᴰ first inputs
    pub second_given : Memᴰ second inputs'
    pub different : first ≢ second
    pub same_hash : sha256 first ≡ sha256 second

  pub widen :
      {xs ys xs' ys' : List Bytes}
      → ((x : Bytes) → Memᴰ x xs → Memᴰ x xs')
      → ((y : Bytes) → Memᴰ y ys → Memᴰ y ys')
      → Collision xs ys
      → Collision xs' ys'
  widen f g c = record {
    first = c.first;
    second = c.second;
    first_given = f _ c.first_given;
    second_given = g _ c.second_given;
    different = c.different;
    same_hash = c.same_hash;
  }

  pub deeper : {x y : Bytes} {xs ys : List Bytes} → Collision xs ys → Collision (x ∷ xs) (y ∷ ys)
  deeper collision = widen (λ _ m. Memᴰ.tail m) (λ _ m. Memᴰ.tail m) collision

  -- A collision at the heads of two lists.
  pub collide :
      (x y : Bytes) (xs ys : List Bytes) → x ≢ y → sha256 x ≡ sha256 y → Collision (x ∷ xs) (y ∷ ys)
  collide x y xs ys different same_hash = record {
    first = x;
    second = y;
    first_given = Memᴰ.head refl;
    second_given = Memᴰ.head refl;
    different = different;
    same_hash = same_hash;
  }

  -- Combining binds both sides, or the two inputs differ.
  pub combine_binds :
      (prefix a b a' b' : ℕ)
      → IsHash a
      → IsHash b
      → IsHash a'
      → IsHash b'
      → ((a ≡ a') × (b ≡ b'))
        ⊎ (◌≢◌ {A = Bytes}
            (prefix ∷ (as_bytes a ++ as_bytes b))
            (prefix ∷ (as_bytes a' ++ as_bytes b')))
  combine_binds prefix a b a' b' ha hb ha' hb' = elim (Bool-cases (a == a')) [
    | inr ne ↦ inr (λ same. ==→ne a a' ne (joined prefix a b a' b' ha hb ha' hb' same).0)
    | inl eq ↦ elim (Bool-cases (b == b')) [
      | inr ne ↦ inr (λ same. ==→ne b b' ne (joined prefix a b a' b' ha hb ha' hb' same).1)
      | inl eq' ↦ inl (==→eq a a' eq, ==→eq b b' eq')
    ]
  ]
