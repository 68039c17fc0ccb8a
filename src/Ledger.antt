-- ===== src/Ledger.antt =====
-- The ledger of witness/benchmark/ledger.py: the tables and the state, the policy schedule, the
-- windows that open and close, and the transaction that takes in a finalized block.
pub mod Schedule
pub mod State
pub mod Open
pub mod Turn
pub mod Ingest
pub mod Log
pub mod Grows
pub mod Atomic
pub mod Tests
