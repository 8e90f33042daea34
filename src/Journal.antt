-- ===== src/Journal.antt =====
-- The journal events of crates/ledger-core/src/journal.rs and the batch operations of ledger.rs.
use trust_ledger.Vocabulary.{
  AccountId, TransferId, Amount, Scale, Timestamp, AccountType, AccountFlags,
}
use trust_ledger.Transfer.{Transfer}

pub data LedgerEvent : Type 0 where
  account_created : AccountId → AccountType → AccountFlags → Scale → Timestamp → LedgerEvent
  account_closed : AccountId → Timestamp → LedgerEvent
  transfer_posted transfer_pending_created : Transfer → LedgerEvent
  transfer_pending_posted : TransferId → TransferId → Amount → Timestamp → LedgerEvent
  transfer_pending_voided : TransferId → Amount → Timestamp → LedgerEvent

pub data BatchOp : Type 0 where
  create_account : AccountId → AccountType → AccountFlags → Scale → Timestamp → BatchOp
  transfer pending_transfer : Transfer → BatchOp
  post_pending : TransferId → TransferId → Amount → Timestamp → BatchOp
  void_pending : TransferId → Timestamp → BatchOp
  close_account : AccountId → Timestamp → BatchOp
