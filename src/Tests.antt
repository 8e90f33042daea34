-- ===== src/Tests.antt =====
-- Concrete ledgers, runs of the operations on them, and the theorems at these ledgers.
mod Bank
mod Examples
mod Promises
mod Amounts
mod Replication
mod Payments
mod Log
mod Ingest
mod Settlement
mod Requests
mod Webhooks
mod Audits
mod Logs
