-- ===== src/Settle.antt =====
-- The settlement program: crates/solana-settle/src/processor.rs, state.rs, instruction.rs and
-- error.rs. Public keys and 32-byte hashes are numbers, only compared. What solana_program, borsh
-- and postcard do is a parameter; the texts of errors and of the log are left out, and a root in an
-- error is the root itself.
pub mod History
use trust_ledger.Common.{
  ℕ, zero, suc, ◌+◌, ◌^◌, ◌≡◌, ◌≤◌, ◌<◌, ◌⊎◌, Bool, true, false, not, ◌&&◌, ◌==◌, ltb,
  if◌then◌else◌, Option, none, some, List, [], ◌∷◌, ◌++◌, drop, length,
}
use trust_ledger.Int.{ℤ, pos}
use trust_ledger.Wal.Bytes.{Bytes}
use trust_ledger.Merkle.{Hash32, MmrProof, ProofError, ProofResult, accepted, refused, verify}

abbrev pub Pubkey : Type 0
Pubkey = ℕ

pub record SettlementRoot : Type 0 where
  pub authority : Pubkey
  pub epoch : ℕ
  pub batch_seq : ℕ
  pub merkle_root : Hash32
  pub previous_root : Hash32
  pub transfer_count : ℕ
  pub total_settled_amount : ℕ
  pub chain_tip : Hash32
  pub settled_at : ℤ
  pub bump : ℕ

abbrev pub len : ℕ
len = 177

pub record CommitParams : Type 0 where
  pub epoch : ℕ
  pub batch_seq : ℕ
  pub merkle_root : Hash32
  pub previous_root : Hash32
  pub transfer_count : ℕ
  pub total_settled_amount : ℕ
  pub chain_tip : Hash32

pub data SettlementInstruction : Type 0 where
  initialize : ℕ → SettlementInstruction
  commit_settlement : CommitParams → SettlementInstruction
  verify_inclusion : Hash32 → Bytes → SettlementInstruction

pub data SettlementProgramError : Type 0 where
  unauthorized_signer : SettlementProgramError
  invalid_pda : SettlementProgramError
  invalid_batch_sequence : ℕ → ℕ → SettlementProgramError
  previous_root_mismatch : Hash32 → Hash32 → SettlementProgramError
  empty_batch : SettlementProgramError
  total_settled_amount_overflow : SettlementProgramError
  inclusion_proof_failed : ProofError → SettlementProgramError
  deserialization_error : SettlementProgramError
  serialization_error : SettlementProgramError
  account_data_too_small : SettlementProgramError

-- The errors of solana_program that occur.
pub data ProgramError : Type 0 where
  missing_required_signature : ProgramError
  invalid_seeds : ProgramError
  custom : ℕ → ProgramError
  invalid_instruction_data : ProgramError
  account_data_too_small : ProgramError
  not_enough_account_keys : ProgramError

-- `From<SettlementProgramError> for ProgramError`
abbrev pub into_program_error : SettlementProgramError → ProgramError
into_program_error unauthorized_signer = missing_required_signature
into_program_error invalid_pda = invalid_seeds
into_program_error (invalid_batch_sequence expected actual) = custom 1001
into_program_error (previous_root_mismatch expected actual) = custom 1002
into_program_error empty_batch = custom 1003
into_program_error total_settled_amount_overflow = custom 1005
into_program_error (inclusion_proof_failed e) = custom 1004
into_program_error deserialization_error = invalid_instruction_data
into_program_error serialization_error = ProgramError.account_data_too_small
into_program_error SettlementProgramError.account_data_too_small =
    ProgramError.account_data_too_small

pub record AccountInfo : Type 0 where
  pub key : Pubkey
  pub is_signer : Bool
  pub account_data : Bytes

-- The crates around the program. A root takes `len` bytes, and exactly these are read back.
pub record Crates : Type 0 where
  pub serialize : SettlementRoot → Bytes
  pub try_from_slice : Bytes → Option SettlementRoot
  pub unpack : Bytes → Option SettlementInstruction
  pub proof_from_bytes : Bytes → Option MmrProof
  pub create_program_address : Pubkey → ℕ → Pubkey → Option Pubkey
  pub unix_timestamp : AccountInfo → Option ℤ
  pub sha256 : Bytes → Hash32
  pub serialized_len : (root : SettlementRoot) → length (serialize root) ≡ len
  pub reads_back : (root : SettlementRoot) → try_from_slice (serialize root) ≡ some root

-- A program's result: an error undoes what the transaction did; otherwise the data of the program's
-- account is given.
pub data Executed : Type 0 where
  failed : ProgramError → Executed
  stored : Bytes → Executed

abbrev pub refuse : SettlementProgramError → Executed
refuse e = failed (into_program_error e)

module _ (crates : Crates) where
  -- `serialize_into`: the front of the account's data is overwritten.
  abbrev pub serialize_into : SettlementRoot → Bytes → Executed
  serialize_into root output =
      if ltb (length output) len
      then refuse SettlementProgramError.account_data_too_small
      else stored (crates.serialize root ++ drop len output)

  -- The root that `process_initialize` writes.
  abbrev pub initial_root : Pubkey → ℕ → SettlementRoot
  initial_root authority bump = record {
    authority = authority;
    epoch = 0;
    batch_seq = 0;
    merkle_root = 0;
    previous_root = 0;
    transfer_count = 0;
    total_settled_amount = 0;
    chain_tip = 0;
    settled_at = pos 0;
    bump = bump;
  }

  unfoldable pub process_initialize : Pubkey → List AccountInfo → ℕ → Executed
  process_initialize program_id [] bump = failed not_enough_account_keys
  process_initialize program_id (authority_info ∷ []) bump = failed not_enough_account_keys
  process_initialize program_id (authority_info ∷ pda_info ∷ others) bump =
      if not authority_info.is_signer
      then refuse unauthorized_signer
      else elim (crates.create_program_address authority_info.key bump program_id) [
        | none ↦ refuse invalid_pda
        | some expected_pda ↦
            if not (expected_pda == pda_info.key)
            then refuse invalid_pda
            else serialize_into (initial_root authority_info.key bump) pda_info.account_data
      ]

  -- The time of the clock account, or 0 without one.
  abbrev pub timestamp_of : List AccountInfo → ℤ
  timestamp_of [] = pos 0
  timestamp_of (clock_info ∷ others) = elim (crates.unix_timestamp clock_info) [
    | none ↦ pos 0
    | some t ↦ t
  ]

  -- The root that a commit writes.
  abbrev pub next_root : SettlementRoot → CommitParams → ℕ → ℤ → SettlementRoot
  next_root current params total timestamp = record {
    authority = current.authority;
    epoch = params.epoch;
    batch_seq = params.batch_seq;
    merkle_root = params.merkle_root;
    previous_root = params.previous_root;
    transfer_count = params.transfer_count;
    total_settled_amount = total;
    chain_tip = params.chain_tip;
    settled_at = timestamp;
    bump = current.bump;
  }

  -- The part of `process_commit_settlement` behind the reading of the root.
  unfoldable pub commit_root : AccountInfo → CommitParams → ℤ → Bytes → SettlementRoot → Executed
  commit_root authority_info params timestamp output current =
      let expected_seq = current.batch_seq + 1 in
      let total = current.total_settled_amount + params.total_settled_amount in
      if not (current.authority == authority_info.key)
      then refuse unauthorized_signer
      else if not (params.batch_seq == expected_seq)
      then refuse (invalid_batch_sequence expected_seq params.batch_seq)
      else if ltb 0 current.batch_seq && not (params.previous_root == current.merkle_root)
      then refuse (previous_root_mismatch current.merkle_root params.previous_root)
      else if ltb total (2 ^ 128)
      then serialize_into (next_root current params total timestamp) output
      else refuse total_settled_amount_overflow

  unfoldable pub process_commit_settlement : List AccountInfo → CommitParams → Executed
  process_commit_settlement [] params = failed not_enough_account_keys
  process_commit_settlement (authority_info ∷ []) params = failed not_enough_account_keys
  process_commit_settlement (authority_info ∷ pda_info ∷ others) params =
      if not authority_info.is_signer
      then refuse unauthorized_signer
      else if params.transfer_count == 0
      then refuse empty_batch
      else elim (crates.try_from_slice pda_info.account_data) [
        | none ↦ refuse deserialization_error
        | some current ↦
            commit_root authority_info params (timestamp_of others) pda_info.account_data current
      ]

  abbrev pub proof_result : Bytes → ProofResult → Executed
  proof_result bytes accepted = stored bytes
  proof_result bytes (refused e) = refuse (inclusion_proof_failed e)

  unfoldable pub process_verify_inclusion : List AccountInfo → Hash32 → Bytes → Executed
  process_verify_inclusion [] leaf_hash proof_bytes = failed not_enough_account_keys
  process_verify_inclusion (pda_info ∷ others) leaf_hash proof_bytes =
      elim (crates.try_from_slice pda_info.account_data) [
        | none ↦ refuse deserialization_error
        | some current ↦ elim (crates.proof_from_bytes proof_bytes) [
          | none ↦ refuse deserialization_error
          | some proof ↦
              proof_result pda_info.account_data
                (verify crates.sha256 proof current.merkle_root leaf_hash)
        ]
      ]

  unfoldable pub process : Pubkey → List AccountInfo → Bytes → Executed
  process program_id accounts instruction_data = elim (crates.unpack instruction_data) [
    | none ↦ refuse deserialization_error
    | some instruction ↦ elim instruction [
      | initialize bump ↦ process_initialize program_id accounts bump
      | commit_settlement params ↦ process_commit_settlement accounts params
      | verify_inclusion leaf_hash proof_bytes ↦
          process_verify_inclusion accounts leaf_hash proof_bytes
    ]
  ]
