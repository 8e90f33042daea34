-- ===== src/Merkle.antt =====
-- Inclusion proofs: crates/merkle/src/proof.rs and the hashes of hash.rs. A hash is the number that
-- its 32 bytes write, and the crate sha2 is a parameter.
pub mod Inputs
pub mod Paths
pub mod Binding
use trust_ledger.Common.{
  ℕ, zero, suc, ◌+◌, ◌-◌, ◌*◌, ◌/◌, ◌%◌, ◌^◌, Bool, true, false, not, ◌&&◌, ◌==◌, ltb, leb,
  if◌then◌else◌, Option, none, some, List, [], ◌∷◌, ◌++◌, length,
}
use trust_ledger.Wal.Bytes.{Bytes, to_le_bytes}

abbrev pub Hash32 : Type 0
Hash32 = ℕ

abbrev pub as_bytes : Hash32 → Bytes
as_bytes hash = to_le_bytes 32 hash

-- Where the proof's hashes are printed into an error's text, the error carries them.
pub data ProofError : Type 0 where
  root_mismatch : Hash32 → Hash32 → ProofError
  peak_mismatch : Option Hash32 → Hash32 → ℕ → ProofError
  leaf_index_out_of_bounds : ℕ → ℕ → ProofError
  sibling_count_mismatch : ℕ → ℕ → ProofError
  peak_count_mismatch : ℕ → ℕ → ProofError
  empty_tree : ProofError

pub data ProofResult : Type 0 where
  accepted : ProofResult
  refused : ProofError → ProofResult

pub record MmrProof : Type 0 where
  pub leaf_index : ℕ
  pub leaf_count : ℕ
  pub siblings : List Hash32
  pub peaks : List Hash32

abbrev pub get_elem? : {A : Type 0} → List A → ℕ → Option A
get_elem? [] n = none
get_elem? (x ∷ xs) zero = some x
get_elem? (x ∷ xs) (suc n) = get_elem? xs n

-- `usize::count_ones` and `63 - leading_zeros`, for a word of as many bits as the fuel.
unfoldable pub count_ones : ℕ → ℕ → ℕ
count_ones zero n = 0
count_ones (suc bits) n = n % 2 + count_ones bits (n / 2)

unfoldable pub ilog2 : ℕ → ℕ → ℕ
ilog2 zero n = 0
ilog2 (suc bits) n = let half = ilog2 bits (n / 2) in if ltb n 2 then 0 else suc half

abbrev pub word_bits : ℕ
word_bits = 64

-- The mountain that holds a leaf: its index among the peaks, its size and its first leaf. Each round
-- clears the highest bit of what remains, so a round for each bit is enough.
unfoldable pub locate : ℕ → ℕ → ℕ → ℕ → ℕ → Option (ℕ × ℕ × ℕ)
locate leaf_index zero rem offset peak_idx = none
locate leaf_index (suc rounds) rem offset peak_idx =
    let size = 2 ^ ilog2 word_bits rem in
    let rest = locate leaf_index rounds (rem - size) (offset + size) (peak_idx + 1) in
    if rem == 0
    then none
    else if leb offset leaf_index && ltb leaf_index (offset + size)
    then some (peak_idx, size, offset)
    else rest

module _ (sha256 : Bytes → Hash32) where
  unfoldable pub combine_nodes : Hash32 → Hash32 → Hash32
  combine_nodes left right = sha256 (1 ∷ (as_bytes left ++ as_bytes right))

  unfoldable pub combine_peaks : Hash32 → Hash32 → Hash32
  combine_peaks left_peak right_peak = sha256 (2 ∷ (as_bytes left_peak ++ as_bytes right_peak))

  -- `bag_peaks`, from the last peak to the first.
  unfoldable pub bag_peaks : List Hash32 → Hash32
  bag_peaks [] = 0
  bag_peaks (peak ∷ []) = peak
  bag_peaks (peak ∷ next ∷ peaks) = combine_peaks peak (bag_peaks (next ∷ peaks))

  -- The loop over the siblings, from the height `h` on; a bit of the index says which child it is.
  unfoldable pub climb : ℕ → ℕ → List Hash32 → Hash32 → Hash32
  climb local_index h [] curr = curr
  climb local_index h (sibling ∷ siblings) curr = climb local_index (h + 1) siblings (
      if (local_index / 2 ^ h) % 2 == 1
      then combine_nodes sibling curr
      else combine_nodes curr sibling)

  -- The part of `verify` behind the search for the mountain.
  unfoldable pub verify_peak : MmrProof → Hash32 → Hash32 → ℕ × ℕ × ℕ → ProofResult
  verify_peak proof expected_root leaf_hash (peak_idx, size, offset) =
      let expected_siblings = ilog2 word_bits size in
      let curr = climb (proof.leaf_index - offset) 0 proof.siblings leaf_hash in
      let computed_root = bag_peaks proof.peaks in
      if not (length proof.siblings == expected_siblings)
      then refused (sibling_count_mismatch expected_siblings (length proof.siblings))
      else elim (get_elem? proof.peaks peak_idx) [
        | none ↦ refused (peak_mismatch none curr peak_idx)
        | some expected_peak ↦
            if not (curr == expected_peak)
            then refused (peak_mismatch (some expected_peak) curr peak_idx)
            else if not (computed_root == expected_root)
            then refused (root_mismatch expected_root computed_root)
            else accepted
      ]

  unfoldable pub verify : MmrProof → Hash32 → Hash32 → ProofResult
  verify proof expected_root leaf_hash =
      let expected_peaks = count_ones word_bits proof.leaf_count in
      if proof.leaf_count == 0
      then refused empty_tree
      else if leb proof.leaf_count proof.leaf_index
      then refused (leaf_index_out_of_bounds proof.leaf_index proof.leaf_count)
      else if not (length proof.peaks == expected_peaks)
      then refused (peak_count_mismatch expected_peaks (length proof.peaks))
      else elim (locate proof.leaf_index word_bits proof.leaf_count 0 0) [
        | none ↦ refused (leaf_index_out_of_bounds proof.leaf_index proof.leaf_count)
        | some found ↦ verify_peak proof expected_root leaf_hash found
      ]
