-- ===== src/Merkle/Paths.antt =====
-- The way up to a peak binds the leaf, and the bag of peaks binds the peaks, or two hashed inputs
-- collide (crates/merkle/src/proof.rs).
use trust_ledger.Common.{
  ℕ, ◌+◌, ◌≡◌, ◌⊎◌, inl, inr, refl, ap, ◌∙◌, ◌==◌, Bool-cases, List, [], ◌∷◌, length, arith, ◌%◌,
  ◌/◌, ◌^◌,
}
use trust_ledger.Wal.Bytes.{Bytes}
use trust_ledger.Merkle.{Hash32, combine_nodes, combine_peaks, bag_peaks, climb}
use trust_ledger.Merkle.Inputs.{
  IsHash, AreHashes, hashes_cons, climb_inputs, bag_inputs, Collision, deeper, collide,
  combine_binds,
}

module _ (sha256 : Bytes → Hash32) where
  module _ (bounded : (bytes : Bytes) → IsHash (sha256 bytes)) where
    -- The way up binds the leaf.
    pub climb_binds :
        (index h : ℕ) (siblings siblings' : List Hash32) (curr curr' : Hash32)
        → length siblings ≡ length siblings'
        → AreHashes siblings
        → AreHashes siblings'
        → IsHash curr
        → IsHash curr'
        → climb sha256 index h siblings curr ≡ climb sha256 index h siblings' curr'
        → (curr ≡ curr')
          ⊎ Collision sha256
              (climb_inputs sha256 index h siblings curr)
              (climb_inputs sha256 index h siblings' curr')
    unfolding climb combine_nodes
    climb_binds index h [] [] curr curr' l k k' c c' e = inl e
    climb_binds index h [] (s' ∷ siblings') curr curr' l k k' c c' e = omega arith
    climb_binds index h (s ∷ siblings) [] curr curr' l k k' c c' e = omega arith
    climb_binds index h (s ∷ siblings) (s' ∷ siblings') curr curr' l (hashes_cons _ _ t k)
          (hashes_cons _ _ t' k') c c' e =
        elim (Bool-cases ((index / 2 ^ h) % 2 == 1)) [
          | inl right ↦
              let e' = rw right at e in
              let above =
                climb_binds index (h + 1) siblings siblings' (combine_nodes sha256 s curr)
                  (combine_nodes sha256 s' curr') (omega arith) k k' (bounded _) (bounded _) e' in
              rw right (elim above [
                | inr collision ↦ inr (deeper sha256 collision)
                | inl same ↦ elim (combine_binds sha256 1 s curr s' curr' t c t' c') [
                  | inl both ↦ inl both.1
                  | inr different ↦ inr (collide sha256 _ _ _ _ different same)
                ]
              ])
          | inr left ↦
              let e' = rw left at e in
              let above =
                climb_binds index (h + 1) siblings siblings' (combine_nodes sha256 curr s)
                  (combine_nodes sha256 curr' s') (omega arith) k k' (bounded _) (bounded _) e' in
              rw left (elim above [
                | inr collision ↦ inr (deeper sha256 collision)
                | inl same ↦ elim (combine_binds sha256 1 curr s curr' s' c t c' t') [
                  | inl both ↦ inl both.0
                  | inr different ↦ inr (collide sha256 _ _ _ _ different same)
                ]
              ])
        ]

    bag_peaks-IsHash :
        (peak : Hash32) (peaks : List Hash32)
        → AreHashes (peak ∷ peaks)
        → IsHash (bag_peaks sha256 (peak ∷ peaks))
    unfolding bag_peaks combine_peaks
    bag_peaks-IsHash peak [] (hashes_cons _ _ t k) = t
    bag_peaks-IsHash peak (next ∷ peaks) k = bounded _

    -- Bagging binds the peaks.
    pub bag_binds :
        (peaks peaks' : List Hash32)
        → length peaks ≡ length peaks'
        → AreHashes peaks
        → AreHashes peaks'
        → bag_peaks sha256 peaks ≡ bag_peaks sha256 peaks'
        → (peaks ≡ peaks') ⊎ Collision sha256 (bag_inputs sha256 peaks) (bag_inputs sha256 peaks')
    unfolding bag_peaks combine_peaks
    bag_binds [] [] l k k' e = inl refl
    bag_binds [] (p' ∷ ps') l k k' e = absurd (omega arith)
    bag_binds (p ∷ ps) [] l k k' e = absurd (omega arith)
    bag_binds (p ∷ []) (p' ∷ []) l k k' e = inl (ap (λ x. x ∷ []) e)
    bag_binds (p ∷ []) (p' ∷ q' ∷ ps') l k k' e = absurd (omega arith)
    bag_binds (p ∷ q ∷ ps) (p' ∷ []) l k k' e = absurd (omega arith)
    bag_binds (p ∷ q ∷ ps) (p' ∷ q' ∷ ps') l (hashes_cons _ _ t k) (hashes_cons _ _ t' k') e =
        let rest = bag_peaks sha256 (q ∷ ps) in
        let rest' = bag_peaks sha256 (q' ∷ ps') in
        elim (combine_binds sha256 2 p rest p' rest' t (bag_peaks-IsHash q ps k) t'
          (bag_peaks-IsHash q' ps' k')) [
            | inr different ↦ inr (collide sha256 _ _ _ _ different e)
            | inl (first, rests) ↦ elim (bag_binds (q ∷ ps) (q' ∷ ps') (omega arith) k k' rests) [
              | inr collision ↦ inr (deeper sha256 collision)
              | inl same ↦ inl (ap (λ x. x ∷ q ∷ ps) first ∙ ap (λ xs. p' ∷ xs) same)
            ]
          ]
