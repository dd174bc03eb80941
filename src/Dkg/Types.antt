-- ===== src/Dkg/Types.antt =====
-- The messages of golden-dkg/src/types.rs, the errors of golden-dkg/src/error.rs, and the proof
-- system of golden-dkg/src/zk_evrf as an interface.
use golden_rs.Common.{ℕ, Bool, Bytes, List, Option}
use golden_rs.Schnorr.{SchnorrPok}

pub record Ciphertext (F G : Type 0) : Type 0 where
  pub r_commitment : G
  pub encrypted_share : F

pub record MessageHeader (F G : Type 0) : Type 0 where
  pub session_id : Bytes  -- SessionId, 32 bytes
  pub sender : ℕ  -- `from`, a NodeId
  pub random_msg : Bytes
  pub vss_commitment : List G
  pub ciphertexts : List (ℕ × Ciphertext F G)

-- `P` is `EVRFProof`.
pub record Round0Msg (F G P : Type 0) : Type 0 where
  pub dkg_header : MessageHeader F G
  pub evrf_proofs : List (ℕ × P)
  pub batch_evrf_proof : Option P

pub record ReshareMsg (F G : Type 0) : Type 0 where
  pub reshare_header : MessageHeader F G

pub record DkgOutput (F G : Type 0) : Type 0 where
  pub public_key : G
  pub public_key_shares : List (ℕ × G)
  pub secret_share : F

pub record Participant (F G : Type 0) : Type 0 where
  pub id : ℕ
  pub sk : F  -- SecretScalar
  pub pk : G
  pub pok : SchnorrPok F G

pub record DkgConfig (F : Type 0) : Type 0 where
  pub n : ℕ
  pub t : ℕ
  pub beta : F
  pub session_id : Bytes

pub record DkgDealing (F G P : Type 0) : Type 0 where
  pub message : Round0Msg F G P
  pub private_share : F
  pub own_vss_commitment : List G

-- The texts of `ProofError`.
pub data ProofFailure : Type 0 where
  unknown_sender : ℕ → ProofFailure
  batch_failed : ℕ → ProofFailure
  verifier_error : Bytes → ProofFailure

pub data DkgError : Type 0 where
  ciphertext_verification_failed : ℕ → ℕ → DkgError
  missing_ciphertext : ℕ → ℕ → DkgError
  zero_secret_violation : ℕ → DkgError
  peer_count_mismatch : ℕ → ℕ → DkgError
  broadcast_receive_failed : ℕ → Bytes → DkgError
  registration_failed : ℕ → Bytes → DkgError
  session_mismatch : ℕ → DkgError
  proof_error : ProofFailure → DkgError

-- `Result<bool, String>`.
pub data Verdict : Type 0 where
  checked : Bool → Verdict
  failed : Bytes → Verdict

-- `prove_evrf_batch(..).ok()`, `verify_evrf_batch` and `verify_evrf`.
pub record ZkEvrf (F G P : Type 0) : Type 0 where
  pub prove_batch : F → G → List (ℕ × G) → List (ℕ × F × G) → F → Option P
  pub verify_batch : G → List (ℕ × G) → List (ℕ × G) → F → P → Verdict
  pub verify : G → G → G → F → P → Verdict
