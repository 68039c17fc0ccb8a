-- ===== src/Protocol.antt =====
-- The wire contract and the weight policy of witness/benchmark/protocol.py.
pub mod Codec
pub mod Record
pub mod Snapshot
pub mod Weights
pub mod Decide
pub mod Tests
