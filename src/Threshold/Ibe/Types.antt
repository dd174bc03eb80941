-- ===== src/Threshold/Ibe/Types.antt =====
-- The keys, shares and ciphertexts of golden-dkg/src/threshold/ibe.rs.
use golden_rs.Common.{ℕ, Bytes}

pub record TransportPublicKey (G2 : Type 0) : Type 0 where
  pub point : G2

pub record TransportSecretKey (F : Type 0) : Type 0 where
  pub scalar : F

pub record EncryptedKeyShare (G1 G2 : Type 0) : Type 0 where
  pub c1 : G1
  pub c2 : G2
  pub c3 : G2
  pub signer : ℕ  -- NodeId

pub record EncryptedVetKey (G1 G2 : Type 0) : Type 0 where
  pub c1 : G1
  pub c2 : G2
  pub c3 : G2

pub record VetKey (G2 : Type 0) : Type 0 where
  pub point : G2

-- `IBECiphertext`.
pub record IbeCiphertext (G1 : Type 0) : Type 0 where
  pub u : G1
  pub v : Bytes
  pub w : Bytes
