-- ===== src/Merkle/Binding.antt =====
-- A root binds its leaves (crates/merkle/src/proof.rs): two accepted proofs for the same place carry
-- the same leaf, or two of the inputs that they hash collide.
use trust_ledger.Common.{
  subst, subst₂, not→true, ℕ, ◌-◌, ◌≡◌, ◌⊎◌, inl, inr, refl, sym, ap, ap₂, ◌∙◌, Bool, true, false,
  not, ◌==◌, ==→eq, Option, none, some, ◌++◌, length, if◌then◌else◌, leb,
}
use mathlib.Core.List.Memᴰ.{append_left, append_right}
use trust_ledger.Wal.Bytes.{Bytes}
use trust_ledger.Merkle.{
  Hash32, ProofError, MmrProof, ProofResult, accepted, refused, get_elem?, locate, bag_peaks, climb,
  verify_peak, verify, word_bits, count_ones, ilog2, empty_tree, leaf_index_out_of_bounds,
  peak_count_mismatch, sibling_count_mismatch, peak_mismatch, root_mismatch,
}
use trust_ledger.Merkle.Inputs.{
  IsHash, AreHashes, climb_inputs, bag_inputs, hashed_inputs, Collision, widen,
}
use trust_ledger.Merkle.Paths.{climb_binds, bag_binds}

-- A test that did not refuse.
if_refused :
    (test : Bool) (e : ProofError) (rest : ProofResult)
    → (if test then refused e else rest) ≡ accepted
    → (test ≡ false) × (rest ≡ accepted)
if_refused true e rest h = cc
if_refused false e rest h = (refl, h)

some_injective : {X : Type 0} (x y : X) → some x ≡ some y → x ≡ y
some_injective x y h = cc

-- A search that did not refuse.
found_refused :
    {X : Type 0} (o : Option X) (e : ProofError) (next : X → ProofResult)
    → (elim o as (λ o'. ProofResult) [ none ↦ refused e | some x ↦ next x ]) ≡ accepted
    → (x : X) × (o ≡ some x) × (next x ≡ accepted)
found_refused none e next h = cc
found_refused (some x) e next h = (x, refl, h)

module _ (sha256 : Bytes → Hash32) (bounded : (bytes : Bytes) → IsHash (sha256 bytes)) where
  -- What an accepted proof has shown.
  record Shown (proof : MmrProof) (root leaf : Hash32) : Type 0 where
    place : ℕ × ℕ × ℕ
    located : locate proof.leaf_index word_bits proof.leaf_count 0 0 ≡ some place
    peak : Hash32
    peak_count : length proof.peaks ≡ count_ones word_bits proof.leaf_count
    sibling_count : length proof.siblings ≡ ilog2 word_bits place.1
    is_peak : get_elem? proof.peaks place.0 ≡ some peak
    reaches : climb sha256 (proof.leaf_index - place.2) 0 proof.siblings leaf ≡ peak
    bags : bag_peaks sha256 proof.peaks ≡ root

  peak_accepted :
      (proof : MmrProof) (root leaf : Hash32) (place : ℕ × ℕ × ℕ)
      → locate proof.leaf_index word_bits proof.leaf_count 0 0 ≡ some place
      → length proof.peaks ≡ count_ones word_bits proof.leaf_count
      → verify_peak sha256 proof root leaf place ≡ accepted
      → Shown proof root leaf
  unfolding verify_peak
  peak_accepted proof root leaf (peak_idx, size, offset) located count h =
      let curr = climb sha256 (proof.leaf_index - offset) 0 proof.siblings leaf in
      let levels = ilog2 word_bits size in
      let bagged = bag_peaks sha256 proof.peaks in
      let (siblings, h1) =
        if_refused (not (length proof.siblings == levels))
          (sibling_count_mismatch levels (length proof.siblings)) _ h in
      let (peak, is_peak, h2) =
        found_refused (get_elem? proof.peaks peak_idx) (peak_mismatch none curr peak_idx)
          (λ expected.
            if not (curr == expected)
            then refused (peak_mismatch (some expected) curr peak_idx)
            else if not (bagged == root)
            then refused (root_mismatch root bagged)
            else accepted)
          h1 in
      let (same, h3) =
        if_refused (not (curr == peak)) (peak_mismatch (some peak) curr peak_idx) _ h2 in
      let (same_root, h4) =
        if_refused (not (bagged == root)) (root_mismatch root bagged) accepted h3 in
      record {
        place = (peak_idx, size, offset);
        located = located;
        peak = peak;
        peak_count = count;
        sibling_count = ==→eq _ _ (not→true _ siblings);
        is_peak = is_peak;
        reaches = ==→eq _ _ (not→true _ same);
        bags = ==→eq _ _ (not→true _ same_root);
      }

  verify_accepted :
      (proof : MmrProof) (root leaf : Hash32)
      → verify sha256 proof root leaf ≡ accepted
      → Shown proof root leaf
  unfolding verify
  verify_accepted proof root leaf h =
      let count = proof.leaf_count in
      let index = proof.leaf_index in
      let ones = count_ones word_bits count in
      let (some_leaf, h1) = if_refused (count == 0) empty_tree _ h in
      let (inside, h2) = if_refused (leb count index) (leaf_index_out_of_bounds index count) _ h1 in
      let (peaks, h3) =
        if_refused (not (length proof.peaks == ones))
          (peak_count_mismatch ones (length proof.peaks)) _ h2 in
      let (place, located, h4) =
        found_refused (locate index word_bits count 0 0) (leaf_index_out_of_bounds index count)
          (verify_peak sha256 proof root leaf) h3 in
      peak_accepted proof root leaf place located (==→eq _ _ (not→true _ peaks)) h4

  -- What is hashed for an accepted proof.
  hashed_inputs-Shown :
      (proof : MmrProof) (root leaf : Hash32) (shown : Shown proof root leaf)
      → climb_inputs sha256 (proof.leaf_index - shown.place.2) 0 proof.siblings leaf
          ++ bag_inputs sha256 proof.peaks
        ≡ hashed_inputs sha256 proof leaf
  unfolding hashed_inputs
  hashed_inputs-Shown proof root leaf shown = rw (hashed_inputs, shown.located) refl

  -- Where the peaks are the same, the ways up from the two leaves bind them.
  leaves_bind :
      (proof proof' : MmrProof) (root leaf leaf' : Hash32) (a : Shown proof root leaf)
      (b : Shown proof' root leaf')
      → a.place ≡ b.place
      → proof.leaf_index ≡ proof'.leaf_index
      → proof.peaks ≡ proof'.peaks
      → AreHashes proof.siblings
      → AreHashes proof'.siblings
      → IsHash leaf
      → IsHash leaf'
      → (leaf ≡ leaf')
        ⊎ Collision sha256
            (climb_inputs sha256 (proof.leaf_index - a.place.2) 0 proof.siblings leaf)
            (climb_inputs sha256 (proof'.leaf_index - b.place.2) 0 proof'.siblings leaf')
  leaves_bind proof proof' root leaf leaf' a b same_place same_index same_peaks s s' c c' =
      let local = proof.leaf_index - a.place.2 in
      let local' = proof'.leaf_index - b.place.2 in
      let same_local : local ≡ local' =
        ap₂ (λ index place. index - place) same_index (ap (λ place. place.2) same_place) in
      let same_peak : a.peak ≡ b.peak = some_injective _ _ (
        sym a.is_peak ∙ ap₂ (λ ps place. get_elem? ps place.0) same_peaks same_place ∙ b.is_peak) in
      let levels : length proof.siblings ≡ length proof'.siblings =
        a.sibling_count ∙ ap (λ place. ilog2 word_bits place.1) same_place ∙ sym b.sibling_count in
      let same_top =
        a.reaches
        ∙ same_peak
        ∙ sym b.reaches
        ∙ ap (λ at. climb sha256 at 0 proof'.siblings leaf') (sym same_local) in
      subst
        (λ at.
          (leaf ≡ leaf')
          ⊎ Collision sha256 (climb_inputs sha256 local 0 proof.siblings leaf)
              (climb_inputs sha256 at 0 proof'.siblings leaf'))
        same_local
        (climb_binds sha256 bounded local 0 proof.siblings proof'.siblings leaf leaf' levels s s' c
          c' same_top)

  -- Two accepted proofs of leaves at the same place, against the same root, show the same leaf, or
  -- two different inputs have the same hash, one of them hashed when the first proof is verified and
  -- one when the second is. All hashes are of 32 bytes.
  pub verify-binds :
      (proof proof' : MmrProof) (root leaf leaf' : Hash32)
      → proof.leaf_index ≡ proof'.leaf_index
      → proof.leaf_count ≡ proof'.leaf_count
      → AreHashes proof.siblings
      → AreHashes proof'.siblings
      → AreHashes proof.peaks
      → AreHashes proof'.peaks
      → IsHash leaf
      → IsHash leaf'
      → verify sha256 proof root leaf ≡ accepted
      → verify sha256 proof' root leaf' ≡ accepted
      → (leaf ≡ leaf')
        ⊎ Collision sha256 (hashed_inputs sha256 proof leaf) (hashed_inputs sha256 proof' leaf')
  verify-binds proof proof' root leaf leaf' same_index same_count s s' k k' c c' h h' =
      let a = verify_accepted proof root leaf h in
      let b = verify_accepted proof' root leaf' h' in
      let same_place : a.place ≡ b.place = some_injective _ _ (
        sym a.located
        ∙ ap₂ (λ index count. locate index word_bits count 0 0) same_index same_count
        ∙ b.located) in
      let given = hashed_inputs-Shown proof root leaf a in
      let given' = hashed_inputs-Shown proof' root leaf' b in
      elim (bag_binds sha256 bounded proof.peaks proof'.peaks
        (a.peak_count ∙ ap (count_ones word_bits) same_count ∙ sym b.peak_count) k k'
        (a.bags ∙ sym b.bags)) [
          | inr collision ↦ inr (
              subst₂ (Collision sha256) given given'
                (widen sha256 (λ _ m. append_right _ m) (λ _ m. append_right _ m) collision))
          | inl peaks ↦
              elim (leaves_bind proof proof' root leaf leaf' a b same_place same_index peaks s s' c
                c') [
                  | inl same ↦ inl same
                  | inr collision ↦ inr (
                      subst₂ (Collision sha256) given given'
                        (widen sha256 (λ _ m. append_left _ m) (λ _ m. append_left _ m) collision))
                ]
        ]
