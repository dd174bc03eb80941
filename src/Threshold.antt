-- ===== src/Threshold.antt =====
-- Threshold BLS signatures: golden-dkg/src/threshold/.
pub mod Types
pub mod Signing
pub mod Beacon
pub mod Cache
pub mod Bootstrap
pub mod Ibe
