-- ===== src/Consensus.antt =====
-- The Simplex consensus of one participant: golden-dkg/src/consensus/.
pub mod Types
pub mod Vrf
pub mod Replica
pub mod Safety
