-- ===== src/Tests/Settlement.antt =====
-- The theorems about inclusion proofs and the settlement program at concrete values.
use trust_ledger.Common.{
  ℕ, ◌+◌, ◌%◌, ◌≡◌, ◌⊎◌, refl, ap, true, Option, none, some, List, [], ◌∷◌, replicate, arith,
  if◌then◌else◌, ◌==◌,
}
use trust_ledger.Int.{ℤ, pos, negsuc}
use trust_ledger.Wal.Bytes.{Bytes, to_le_bytes, values}
use trust_ledger.Merkle.{
  Hash32, MmrProof, accepted, verify, combine_nodes, verify_peak, locate, climb, bag_peaks,
  count_ones, ilog2,
}
use trust_ledger.Merkle.Inputs.{Collision, hashed_inputs, hashes_nil, hashes_cons}
use trust_ledger.Merkle.Binding.{verify-binds}
use trust_ledger.Settle.{
  SettlementRoot, CommitParams, AccountInfo, Crates, initial_root, process_commit_settlement,
  commit_root,
}
use trust_ledger.Settle.History.{Submission, submit_all, Settles, submit_all-Settles}
use trust_ledger.Tests.Log.{sum}

-- A sum in the place of the hash function.
abbrev hashed : Bytes → Hash32
hashed bytes = sum bytes % values 32

abbrev top : Hash32
top = 13

-- The first of two leaves, 5 and 7.
abbrev first_leaf : MmrProof
first_leaf = record { leaf_index = 0; leaf_count = 2; siblings = 7 ∷ []; peaks = top ∷ [] }

first_leaf_accepted : verify hashed first_leaf top 5 ≡ accepted
unfolding verify verify_peak locate climb bag_peaks count_ones ilog2 combine_nodes to_le_bytes
first_leaf_accepted = refl

-- The second leaf in the place of the first is accepted too, since a sum forgets the order.
abbrev swapped : MmrProof
swapped = record { leaf_index = 0; leaf_count = 2; siblings = 5 ∷ []; peaks = top ∷ [] }

swapped_accepted : verify hashed swapped top 7 ≡ accepted
unfolding verify verify_peak locate climb bag_peaks count_ones ilog2 combine_nodes to_le_bytes
swapped_accepted = refl

abbrev leaf : Hash32
leaf = 5

abbrev other_leaf : Hash32
other_leaf = 7

verify-binds_example :
    (leaf ≡ other_leaf)
    ⊎ Collision hashed
        (hashed_inputs hashed first_leaf leaf)
        (hashed_inputs hashed swapped other_leaf)
verify-binds_example =
    verify-binds hashed (λ bytes. omega arith) first_leaf swapped top leaf other_leaf refl refl
      (hashes_cons 7 [] (omega arith) hashes_nil) (hashes_cons 5 [] (omega arith) hashes_nil)
      (hashes_cons top [] (omega arith) hashes_nil) (hashes_cons top [] (omega arith) hashes_nil)
      (omega arith) (omega arith) first_leaf_accepted swapped_accepted

-- A serialization with a number for each field.
abbrev sign : ℤ → ℕ
sign (pos n) = 0
sign (negsuc n) = 1

abbrev magnitude : ℤ → ℕ
magnitude (pos n) = n
magnitude (negsuc n) = n

abbrev signed : ℕ → ℕ → ℤ
signed s n = if s == 0 then pos n else negsuc n

signed-sign : (z : ℤ) → signed (sign z) (magnitude z) ≡ z
signed-sign (pos n) = refl
signed-sign (negsuc n) = refl

abbrev serialize : SettlementRoot → Bytes
serialize r =
    r.authority
    ∷ r.epoch
    ∷ r.batch_seq
    ∷ r.merkle_root
    ∷ r.previous_root
    ∷ r.transfer_count
    ∷ r.total_settled_amount
    ∷ r.chain_tip
    ∷ sign r.settled_at
    ∷ magnitude r.settled_at
    ∷ r.bump
    ∷ replicate 166 0

abbrev try_from_slice : Bytes → Option SettlementRoot
try_from_slice (a ∷ e ∷ b ∷ m ∷ p ∷ c ∷ t ∷ tip ∷ s ∷ n ∷ bump ∷ rest) = some (record {
  authority = a;
  epoch = e;
  batch_seq = b;
  merkle_root = m;
  previous_root = p;
  transfer_count = c;
  total_settled_amount = t;
  chain_tip = tip;
  settled_at = signed s n;
  bump = bump;
})
try_from_slice bytes = none

abbrev plain : Crates
plain = record {
  serialize = serialize;
  try_from_slice = try_from_slice;
  unpack = λ bytes. none;
  proof_from_bytes = λ bytes. none;
  create_program_address = λ authority bump program. some (authority + bump);
  unix_timestamp = λ info. none;
  sha256 = hashed;
  serialized_len = λ root. refl;
  reads_back =
      λ root. ap (λ z. some (record root { settled_at = z })) (signed-sign root.settled_at);
}

abbrev operator : AccountInfo
operator = record { key = 9; is_signer = true; account_data = [] }

abbrev batch : ℕ → ℕ → ℕ → CommitParams
batch seq root previous = record {
  epoch = 1;
  batch_seq = seq;
  merkle_root = root;
  previous_root = previous;
  transfer_count = 3;
  total_settled_amount = 500;
  chain_tip = 0;
}

abbrev submission : CommitParams → Submission
submission params = record { authority_info = operator; others = []; params = params }

-- Two batches, one of them sent twice, and one that names another root.
abbrev submissions : List Submission
submissions =
    submission (batch 1 41 0)
    ∷ submission (batch 1 41 0)
    ∷ submission (batch 2 42 40)
    ∷ submission (batch 2 42 41)
    ∷ []

went_through :
    (submit_all plain 20 submissions (serialize (initial_root plain 9 1), [])).1
    ≡ batch 2 42 41 ∷ batch 1 41 0 ∷ []
unfolding process_commit_settlement commit_root
went_through = refl

submit_all-Settles_example :
    Settles plain 9 (submit_all plain 20 submissions (serialize (initial_root plain 9 1), []))
submit_all-Settles_example = submit_all-Settles plain 9 1 20 submissions
