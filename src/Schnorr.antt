-- ===== src/Schnorr.antt =====
-- Proofs of knowledge of a discrete logarithm: golden-dkg/src/schnorr_pok.rs.
pub mod Completeness
use golden_rs.Common.{Bool, Bytes, List, [], ◌∷◌, ◌++◌, ◌==◌}
use golden_rs.Algebra.{Field, Curve, Rng, Encoding}

pub record SchnorrPok (F G : Type 0) : Type 0 where
  pub commitment : G
  pub response : F

-- b"golden-schnorr-pok"
abbrev schnorr_tag : Bytes
schnorr_tag =
    b'g' ∷ b'o' ∷ b'l' ∷ b'd' ∷ b'e' ∷ b'n' ∷ b'-' ∷ b's' ∷ b'c' ∷ b'h' ∷ b'n' ∷ b'o' ∷ b'r' ∷ b'r'
    ∷ b'-' ∷ b'p' ∷ b'o' ∷ b'k' ∷ []

module _ {F G : Type 0} {f : Field F} (g : Curve f G) (enc : Encoding F G) where
  unfoldable pub compute_challenge : G → G → F
  compute_challenge pk commitment = enc.from_le_bytes (
      enc.sha256 (
        schnorr_tag
        ++ (enc.serialize_g1 g.generator ++ (enc.serialize_g1 pk ++ enc.serialize_g1 commitment))))

  unfoldable pub verify : G → SchnorrPok F G → Bool
  verify pk proof =
      let challenge = compute_challenge pk proof.commitment in
      let lhs = g.smul g.generator proof.response in
      let rhs = g.add proof.commitment (g.smul pk challenge) in ◌==◌ ⦃e = g.eq⦄ lhs rhs

  module _ {R : Type 0} (rng : Rng R F) where
    unfoldable pub prove : F → G → R → SchnorrPok F G × R
    prove sk pk r =
        let (nonce, r1) = rng.rand_scalar r in
        let commitment = g.smul g.generator nonce in
        let challenge = compute_challenge pk commitment in
        (record { commitment = commitment; response = f.add nonce (f.mul challenge sk) }, r1)
