-- ===== src/Vocabulary.antt =====
-- The plain types of crates/ledger-core/src: identifiers and amounts (id.rs, amount.rs), the
-- account enums and flags (account.rs) and the transfer states (transfer.rs). The newtypes over
-- u128, u64 and u8 are numbers; their ranges stand in the checks and in the invariants.
use trust_ledger.Common.{ℕ, ◌^◌, Bool, true, false}

-- `AccountId(u128)`, only compared.
abbrev pub AccountId : Type 0
AccountId = ℕ

-- `TransferId(u128)`, only compared.
abbrev pub TransferId : Type 0
TransferId = ℕ

-- `Amount(u128)`, in base units.
abbrev pub Amount : Type 0
Amount = ℕ

-- `Scale(u8)`.
abbrev pub Scale : Type 0
Scale = ℕ

-- u64 timestamps.
abbrev pub Timestamp : Type 0
Timestamp = ℕ

abbrev pub u128_mod : ℕ
u128_mod = 2 ^ 128

abbrev pub i128_max : ℕ
i128_max = 170141183460469231731687303715884105727

pub data AccountType : Type 0 where
  asset liability equity revenue expense : AccountType

pub record AccountFlags : Type 0 where
  pub debits_must_not_exceed_credits : Bool
  pub credits_must_not_exceed_debits : Bool
  pub is_closed : Bool

pub data TransferState : Type 0 where
  pending posted voided : TransferState

-- The derived `==` of `TransferState`.
abbrev pub state_eq : TransferState → TransferState → Bool
state_eq TransferState.pending TransferState.pending = true
state_eq TransferState.posted TransferState.posted = true
state_eq TransferState.voided TransferState.voided = true
state_eq _ _ = false
