-- ===== src/Consensus/Safety.antt =====
-- What the votes of one replica promise: golden-dkg/src/consensus/replica.rs.
pub mod Effects
pub mod Exclusion
pub mod OneVote
pub mod Ledger
pub mod Finality
pub mod Hazards
pub mod Quorum
