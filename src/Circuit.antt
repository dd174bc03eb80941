-- ===== src/Circuit.antt =====
-- The constraint systems of golden-dkg/src/zk_evrf.
pub mod Gadgets
pub mod Evrf
pub mod Prover
pub mod ConstraintSystem
pub mod BitDecompose
pub mod Adapter
