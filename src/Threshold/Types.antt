-- ===== src/Threshold/Types.antt =====
-- The data of golden-dkg/src/threshold/types.rs.
use golden_rs.Common.{ℕ, Bytes, Option}

pub record GroupInfo (G1 : Type 0) : Type 0 where
  pub public_key : G1
  pub threshold : ℕ  -- u32
  pub num_nodes : ℕ  -- u32

pub record KeyShare (F G1 : Type 0) : Type 0 where
  pub id : ℕ  -- NodeId, u32
  pub secret : F
  pub group_info : GroupInfo G1

pub record PartialSignature (G2 : Type 0) : Type 0 where
  pub signer : ℕ  -- NodeId
  pub signature : G2

pub record ThresholdSignature (G2 : Type 0) : Type 0 where
  pub signature : G2

pub record Beacon : Type 0 where
  pub round : ℕ  -- u64
  pub previous_signature : Option Bytes
  pub signature : Bytes
  pub randomness : Bytes

pub data BeaconMode : Type 0 where
  chained unchained : BeaconMode
