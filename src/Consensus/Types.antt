-- ===== src/Consensus/Types.antt =====
-- The data of golden-dkg/src/consensus/types.rs and the hash of a block. A view is a `u64`, a
-- block hash 32 bytes, a node id a `u32`.
use golden_rs.Common.{ℕ, Bytes, ◌++◌, replicate, u64_be_bytes, u32_be_bytes}
use golden_rs.Algebra.{Hashing}
use golden_rs.Threshold.Types.{PartialSignature}

pub record Block : Type 0 where
  pub view : ℕ
  pub parent_hash : Bytes
  pub payload : Bytes
  pub proposer : ℕ

pub data CertKind : Type 0 where
  notarization : Bytes → CertKind
  nullification : CertKind
  finalization : Bytes → CertKind

pub record Certificate (G2 : Type 0) : Type 0 where
  pub view : ℕ
  pub kind : CertKind
  pub signature : G2

-- What a replica receives. The fields stand in the order of the source.
pub data Message (G2 : Type 0) : Type 0 where
  proposal : Block → Message G2
  vote : ℕ → Bytes → ℕ → PartialSignature G2 → Message G2
  timeout : ℕ → Message G2
  nullify_vote : ℕ → ℕ → PartialSignature G2 → Message G2
  finalize_vote : ℕ → ℕ → PartialSignature G2 → Message G2
  notarization : ℕ → Block → Certificate G2 → Message G2
  propose_request : ℕ → Bytes → Message G2

pub data RejectReason : Type 0 where
  wrong_leader bad_parent_hash wrong_view already_voted : RejectReason

pub data StateTransition : Type 0 where
  notarized : ℕ → Bytes → StateTransition
  finalized : ℕ → Bytes → StateTransition
  nullified : ℕ → StateTransition
  rejected : ℕ → RejectReason → StateTransition
  pending : StateTransition

-- What a replica broadcasts.
pub data Outgoing (G2 : Type 0) : Type 0 where
  vote : ℕ → Bytes → PartialSignature G2 → Outgoing G2
  nullify_vote : ℕ → PartialSignature G2 → Outgoing G2
  finalize_vote : ℕ → PartialSignature G2 → Outgoing G2
  relay_notarization : ℕ → Block → Certificate G2 → Outgoing G2
  proposal : Block → Outgoing G2

pub record NetworkConfig (G1 : Type 0) : Type 0 where
  pub n : ℕ
  pub t : ℕ
  pub f : ℕ
  pub group_pk : G1

pub record ChainState : Type 0 where
  pub tip_hash : Bytes
  pub vrf_seed : Bytes
  pub finalized_count : ℕ
  pub nullified_count : ℕ

-- `[0u8; 32]`.
abbrev pub zero_hash : Bytes
zero_hash = replicate 32 0

-- `ChainState::genesis`.
unfoldable pub genesis : ChainState
genesis = record {
  tip_hash = zero_hash;
  vrf_seed = zero_hash;
  finalized_count = 0;
  nullified_count = 0;
}

-- The bytes that `block_hash` feeds to SHA-256.
unfoldable pub block_bytes : Block → Bytes
block_bytes b = u64_be_bytes b.view ++ (b.parent_hash ++ (b.payload ++ u32_be_bytes b.proposer))

unfoldable pub block_hash : {G2 : Type 0} → Hashing G2 → Block → Bytes
block_hash h block = h.sha256 (block_bytes block)
