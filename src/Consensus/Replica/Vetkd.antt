-- ===== src/Consensus/Replica/Vetkd.antt =====
-- The encrypted key share of a replica: `vetkd_encrypted_key_share` of
-- golden-dkg/src/consensus/replica.rs, which reads the replica only.
use golden_rs.Common.{Bytes}
use golden_rs.Algebra.{Field, Curve, Hashing, Rng}
use golden_rs.Threshold.Ibe.Types.{TransportPublicKey, EncryptedKeyShare}
use golden_rs.Threshold.Ibe.Transport.{encrypt_key_share}
use golden_rs.Consensus.Replica.State.{Replica}

module _ {F G1 G2 R : Type 0} {f : Field F} (g1 : Curve f G1) (g2 : Curve f G2) (h : Hashing G2)
    (rng : Rng R F) where
  unfoldable pub vetkd_encrypted_key_share :
      Replica F G1 G2 → Bytes → TransportPublicKey G2 → R → EncryptedKeyShare G1 G2 × R
  vetkd_encrypted_key_share r identity tpk rng_state =
      encrypt_key_share g1 g2 h rng r.share identity tpk rng_state
