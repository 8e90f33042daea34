-- ===== src/Ingest.antt =====
-- The commands of the ingress queue: crates/ingest/src/queue.rs and error.rs. A channel for one
-- answer is a value of a type of channels; the text of errors is a parameter.
pub mod Engine
pub mod Process
pub mod Logged
pub mod Durable
use Prim.Native.String.{String}
use trust_ledger.Common.{ℕ, suc, ◌+◌, ◌-◌, ◌==◌, if◌then◌else◌, max, min, List, [], ◌∷◌}
use trust_ledger.Vocabulary.{
  AccountId, TransferId, Amount, Scale, Timestamp, AccountType, AccountFlags,
}
use trust_ledger.LedgerError.{LedgerError, Result, ◌>>=◌}
use trust_ledger.Transfer.{Transfer, new_immediate, new_pending}
use trust_ledger.Account.{Account}
use trust_ledger.Journal.{BatchOp}
use trust_ledger.Wal.Bytes.{u64_mod}

pub data IngestError : Type 0 where
  ledger : LedgerError → IngestError
  wal : String → IngestError
  codec : String → IngestError
  queue_saturated : IngestError
  channel_closed : IngestError
  invalid_input : String → IngestError
  internal : String → IngestError

pub data IngestResult (A : Type 0) : Type 0 where
  ok : A → IngestResult A
  err : IngestError → IngestResult A

-- `map_err(IngestError::Ledger)`
abbrev pub from_ledger : {A : Type 0} → Result A → IngestResult A
from_ledger (Result.ok a) = ok a
from_ledger (Result.err e) = err (ledger e)

abbrev pub map_result : {A B : Type 0} → (A → B) → IngestResult A → IngestResult B
map_result f (ok a) = ok (f a)
map_result f (err e) = err e

pub data TargetEntity : Type 0 where
  account : AccountId → TargetEntity
  transfer : TransferId → TargetEntity

pub data IngestOp : Type 0 where
  create_account : AccountId → AccountType → AccountFlags → Scale → Timestamp → IngestOp
  create_transfer : TransferId → AccountId → AccountId → Amount → Timestamp → IngestOp
  create_pending : TransferId → AccountId → AccountId → Amount → Timestamp → IngestOp
  post_pending : TransferId → TransferId → Amount → Timestamp → IngestOp
  void_pending : TransferId → Timestamp → IngestOp

abbrev pub target : IngestOp → TargetEntity
target (create_account id account_type flags scale timestamp) = account id
target (create_transfer id debit_account_id credit_account_id amount timestamp) = transfer id
target (create_pending id debit_account_id credit_account_id amount timestamp) = transfer id
target (post_pending pending_id post_transfer_id amount timestamp) = transfer post_transfer_id
target (void_pending pending_id timestamp) = transfer pending_id

-- The watermark, and how often the clock has been read; a clock gives each reading's nanoseconds.
pub record Marks : Type 0 where
  pub watermark : Timestamp
  pub readings : ℕ

abbrev pub Clock : Type 0
Clock = ℕ → Timestamp

abbrev pub saturating_add : ℕ → ℕ → ℕ
saturating_add a b = min (a + b) (u64_mod - 1)

abbrev pub allocate_timestamp : Clock → Timestamp → Marks → Timestamp × Marks
allocate_timestamp now requested marks =
    let ts = max (now marks.readings) (saturating_add marks.watermark 1) in
    if requested == 0 then (ts, record { watermark = ts; readings = marks.readings + 1 }) else (
      requested,
      record { watermark = max marks.watermark requested; readings = marks.readings },
    )

-- The operation at the timestamp it was given.
abbrev pub batch_op_at : IngestOp → Timestamp → Result BatchOp
batch_op_at (create_account id account_type flags scale timestamp) ts =
    Result.ok (BatchOp.create_account id account_type flags scale ts)
batch_op_at (create_transfer id debit_account_id credit_account_id amount timestamp) ts = do
  t ← new_immediate id debit_account_id credit_account_id amount ts
  Result.ok (BatchOp.transfer t)
batch_op_at (create_pending id debit_account_id credit_account_id amount timestamp) ts = do
  t ← new_pending id debit_account_id credit_account_id amount ts
  Result.ok (BatchOp.pending_transfer t)
batch_op_at (post_pending pending_id post_transfer_id amount timestamp) ts =
    Result.ok (BatchOp.post_pending pending_id post_transfer_id amount ts)
batch_op_at (void_pending pending_id timestamp) ts = Result.ok (BatchOp.void_pending pending_id ts)

abbrev pub requested : IngestOp → Timestamp
requested (create_account id account_type flags scale timestamp) = timestamp
requested (create_transfer id debit_account_id credit_account_id amount timestamp) = timestamp
requested (create_pending id debit_account_id credit_account_id amount timestamp) = timestamp
requested (post_pending pending_id post_transfer_id amount timestamp) = timestamp
requested (void_pending pending_id timestamp) = timestamp

unfoldable pub into_batch_op : Clock → IngestOp → Marks → IngestResult BatchOp × Marks
into_batch_op now op marks =
    let allocated = allocate_timestamp now (requested op) marks in
    (from_ledger (batch_op_at op allocated.0), allocated.1)

pub data MutationResult : Type 0 where
  account : Account → MutationResult
  transfer : Transfer → MutationResult

pub data IngestCommand (Channel : Type 0) : Type 0 where
  mutate : IngestOp → Channel → IngestCommand Channel
  apply_batch : List IngestOp → Channel → IngestCommand Channel
  get_account : AccountId → Channel → IngestCommand Channel
  get_transfer : TransferId → Channel → IngestCommand Channel
