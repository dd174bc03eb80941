-- ===== src/Threshold/Beacon/Verification.antt =====
-- A beacon made from a threshold signature, and its check (golden-dkg/src/threshold/beacon.rs).
use mathlib.Core.Option.{some-injective, some-ne-none}
use golden_rs.Common.{ℕ, ◌≡◌, ◌≢◌, ◌↔◌, ap, sym, ◌∙◌, Bytes, Option, some, none, true, ◌>>=◌}
use golden_rs.Algebra.{Field, Curve, Pairing, Hashing}
use golden_rs.Threshold.Types.{BeaconMode, ThresholdSignature}
use golden_rs.Threshold.Signing
use golden_rs.Threshold.Signing.Bls.{verify_exact}
use golden_rs.Threshold.Beacon.{
  digest_message, hash_to_g2, g2_to_bytes, new, chained_signature, verify,
}

module _ {F G1 G2 T : Type 0} {f : Field F} {g1 : Curve f G1} {g2 : Curve f G2}
    (e : Pairing g1 g2 T) (h : Hashing G2) (deserialize_compressed : Bytes → Option G2) where
  verify-chained_signature :
      (round : ℕ) (previous : Option Bytes) (sig : ThresholdSignature G2) (mode : BeaconMode)
      (secret : F)
      → ((p : G2) → deserialize_compressed (h.serialize_g2 p) ≡ some p)
      → let msg_hash = hash_to_g2 h (digest_message h round (chained_signature mode previous)) in
        let answer =
          verify e h deserialize_compressed
            (new h round previous sig)
            (g1.smul g1.generator secret)
            mode in
        (answer ≢ none) × ((answer ≡ some true) ↔ (sig.signature ≡ g2.smul msg_hash secret))
  unfolding verify new g2_to_bytes
  verify-chained_signature round previous sig mode secret decodes =
      let group_pk = g1.smul g1.generator secret in
      let msg_hash = hash_to_g2 h (digest_message h round (chained_signature mode previous)) in
      let exact = verify_exact e msg_hash sig secret in
      let checked : verify e h deserialize_compressed (new h round previous sig) group_pk mode
          ≡ some (Signing.verify e msg_hash sig group_pk) =
        ap (λ o. o >>= (λ p. some (Signing.verify e msg_hash (record { signature = p }) group_pk)))
          (decodes sig.signature) in
      (
        (λ panics. some-ne-none _ (sym checked ∙ panics)),
        (
          (λ accepted. exact.0 (some-injective _ _ (sym checked ∙ accepted))),
          (λ signed. checked ∙ ap some (exact.1 signed)),
        ),
      )

  -- If the decoding of points undoes their encoding: the check of a beacon made from a threshold
  -- signature does not panic, whatever the signature, and under the group key g1^secret it is accepted exactly when the
  -- signature is the hash of the round's digest (with the previous signature in chained mode only)
  -- to the secret.
  pub verify-new :
      (round : ℕ) (previous : Option Bytes) (sig : ThresholdSignature G2) (mode : BeaconMode)
      (secret : F)
      → ((p : G2) → deserialize_compressed (h.serialize_g2 p) ≡ some p)
      → let prev : Option Bytes = elim mode [
        | BeaconMode.chained ↦ previous
        | BeaconMode.unchained ↦ none
      ] in
        let msg_hash = hash_to_g2 h (digest_message h round prev) in
        let answer =
          verify e h deserialize_compressed
            (new h round previous sig)
            (g1.smul g1.generator secret)
            mode in
        (answer ≢ none) × ((answer ≡ some true) ↔ (sig.signature ≡ g2.smul msg_hash secret))
  verify-new round previous sig BeaconMode.chained secret decodes =
      verify-chained_signature round previous sig BeaconMode.chained secret decodes
  verify-new round previous sig BeaconMode.unchained secret decodes =
      verify-chained_signature round previous sig BeaconMode.unchained secret decodes
