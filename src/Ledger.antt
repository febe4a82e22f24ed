-- ===== src/Ledger.antt =====
-- internal/ledger
pub mod Encoding
pub mod Json
pub mod Digest
pub mod Record
pub mod Canonical
pub mod Hashing
pub mod Chain
pub mod Merkle
pub mod Checkpoint
pub mod Checkpointer
pub mod Inputs
pub mod Package
