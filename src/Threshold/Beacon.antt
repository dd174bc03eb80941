-- ===== src/Threshold/Beacon.antt =====
-- Message digests, hashing to G2 and randomness: golden-dkg/src/threshold/beacon.rs.
pub mod Verification
use golden_rs.Common.{ℕ, Bool, Bytes, Option, none, some, ◌++◌, u64_be_bytes, ◌>>=◌}
use golden_rs.Algebra.{Field, Curve, Pairing, Hashing}
use golden_rs.Threshold.Types.{Beacon, BeaconMode, ThresholdSignature}
use golden_rs.Threshold.Signing

module _ {G2 : Type 0} (h : Hashing G2) where
  unfoldable pub digest_message : ℕ → Option Bytes → Bytes
  digest_message round none = h.sha256 (u64_be_bytes round)
  digest_message round (some sig) = h.sha256 (sig ++ u64_be_bytes round)

  unfoldable pub hash_to_g2 : Bytes → G2
  hash_to_g2 digest = h.rand_g2 (h.sha256 digest)

  unfoldable pub derive_randomness : Bytes → Bytes
  derive_randomness signature = h.sha256 signature

  unfoldable pub g2_to_bytes : G2 → Bytes
  g2_to_bytes point = h.serialize_g2 point

  -- `Beacon::new`.
  unfoldable pub new : ℕ → Option Bytes → ThresholdSignature G2 → Beacon
  unfolding g2_to_bytes derive_randomness
  new round prev_sig threshold_sig =
      let sig_bytes = g2_to_bytes threshold_sig.signature in
      record {
        round = round;
        previous_signature = prev_sig;
        signature = sig_bytes;
        randomness = derive_randomness sig_bytes;
      }

-- The earlier signature that the digest takes in.
abbrev pub chained_signature : BeaconMode → Option Bytes → Option Bytes
chained_signature BeaconMode.chained previous = previous
chained_signature BeaconMode.unchained previous = none

module _ {F G1 G2 T : Type 0} {f : Field F} {g1 : Curve f G1} {g2 : Curve f G2}
    (e : Pairing g1 g2 T) (h : Hashing G2) (deserialize_compressed : Bytes → Option G2) where
  -- `Beacon::verify`; bytes that are no point panic.
  unfoldable pub verify : Beacon → G1 → BeaconMode → Option Bool
  verify beacon group_pk mode = do
    let prev = chained_signature mode beacon.previous_signature
    let msg_hash = hash_to_g2 h (digest_message h beacon.round prev)
    sig ← deserialize_compressed beacon.signature
    some (Signing.verify e msg_hash (record { signature = sig }) group_pk)
