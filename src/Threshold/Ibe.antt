-- ===== src/Threshold/Ibe.antt =====
-- Identity-based encryption with threshold key derivation: golden-dkg/src/threshold/ibe.rs.
pub mod Types
pub mod Masks
pub mod Transport
pub mod Encryption
