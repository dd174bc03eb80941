-- ===== src/Threshold/Signing/Bls.antt =====
-- The pairing checks accept exactly the signatures that the secret makes.
use golden_rs.Common.{◌≡◌, sym, ap, ◌∙◌, ◌↔◌, true}
use golden_rs.Algebra.{Field, Curve, Pairing}
use golden_rs.Threshold.Types.{KeyShare, PartialSignature, ThresholdSignature}
use golden_rs.Threshold.Signing.{partial_sign, verify_partial, verify}

module _ {F G1 G2 T : Type 0} {f : Field F} {g1 : Curve f G1} {g2 : Curve f G2}
    (e : Pairing g1 g2 T) where
  pairing_check :
      (msg_hash signature : G2) (secret : F)
      → (e.eq.beq (e.pair (g1.smul g1.generator secret) msg_hash) (e.pair g1.generator signature)
          ≡ true)
        ↔ (signature ≡ g2.smul msg_hash secret)
  pairing_check msg_hash signature secret =
      let test =
        e.eq.beq_iff (e.pair (g1.smul g1.generator secret) msg_hash)
          (e.pair g1.generator signature) in
      let moved = e.pair-smul g1.generator msg_hash secret in
      (
        λ p. e.pair_injective signature (g2.smul msg_hash secret) (sym (test.0 p) ∙ moved),
        λ p. test.1 (moved ∙ ap (e.pair g1.generator) (sym p)),
      )

  -- A partial signature passes the check under the public key share g1^secret exactly when it is
  -- the one that the holder of the secret makes, the name of its signer aside.
  pub verify_partial_exact :
      (msg_hash : G2) (p : PartialSignature G2) (share : KeyShare F G1)
      → (verify_partial e msg_hash p (g1.smul g1.generator share.secret) ≡ true)
        ↔ (p.signature ≡ (partial_sign g2 msg_hash share).signature)
  unfolding verify_partial partial_sign
  verify_partial_exact msg_hash p share = pairing_check msg_hash p.signature share.secret

  -- A combined signature passes the check under the group key g1^secret exactly when it is the
  -- message hash to the secret.
  pub verify_exact :
      (msg_hash : G2) (sig : ThresholdSignature G2) (secret : F)
      → (verify e msg_hash sig (g1.smul g1.generator secret) ≡ true)
        ↔ (sig.signature ≡ g2.smul msg_hash secret)
  unfolding verify
  verify_exact msg_hash sig secret = pairing_check msg_hash sig.signature secret
