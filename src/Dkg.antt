-- ===== src/Dkg.antt =====
-- The distributed key generation of golden-dkg/src: its messages and errors, the two rounds of the
-- protocol, and the refresh of the shares.
pub mod Outcome
pub mod Types
pub mod Round0
pub mod Round1
pub mod Refresh
pub mod Reshare
pub mod Api
pub mod Agreement
pub mod Secret
pub mod Dealing
