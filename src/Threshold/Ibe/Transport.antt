-- ===== src/Threshold/Ibe/Transport.antt =====
-- Encrypted key shares, their combination and their decryption: golden-dkg/src/threshold/ibe.rs.
pub mod Shares
pub mod Recovery
use golden_rs.Common.{
  ℕ, Bool, false, not, Bytes, List, [], ◌∷◌, Option, none, some, length, take, map, ltb,
  if◌then◌else◌, ◌==◌, ◌>>=◌,
}
use golden_rs.Algebra.{Field, Curve, Pairing, PairingGroup, Hashing, Rng}
use golden_rs.Algebra.Group.{minus}
use golden_rs.Threshold.Types.{KeyShare}
use golden_rs.Threshold.Signing.{lagrange_coeff}
use golden_rs.Threshold.Ibe.Types.{
  TransportPublicKey, TransportSecretKey, EncryptedKeyShare, EncryptedVetKey, VetKey,
}
use golden_rs.Threshold.Ibe.Masks.{hash_identity_to_g2}

module _ {F G2 R : Type 0} {f : Field F} (g2 : Curve f G2) (rng : Rng R F) where
  unfoldable pub transport_keygen : R → TransportPublicKey G2 × TransportSecretKey F × R
  transport_keygen r =
      let (tsk, r1) = rng.rand_scalar r in
      (record { point = g2.smul g2.generator tsk }, record { scalar = tsk }, r1)

module _ {F G1 G2 : Type 0} {f : Field F} (g1 : Curve f G1) (g2 : Curve f G2) (h : Hashing G2) where
  -- From the random scalar on.
  unfoldable pub encrypt_with :
      KeyShare F G1 → Bytes → TransportPublicKey G2 → F → EncryptedKeyShare G1 G2
  encrypt_with share identity tpk r =
      let sigma_i = g2.smul (hash_identity_to_g2 h identity) share.secret in
      record {
        c1 = g1.smul g1.generator r;
        c2 = g2.smul g2.generator r;
        c3 = g2.add (g2.smul tpk.point r) sigma_i;
        signer = share.id;
      }

  module _ {R : Type 0} (rng : Rng R F) where
    unfoldable pub encrypt_key_share :
        KeyShare F G1 → Bytes → TransportPublicKey G2 → R → EncryptedKeyShare G1 G2 × R
    unfolding encrypt_with
    encrypt_key_share share identity tpk r =
        let (scalar, r1) = rng.rand_scalar r in (encrypt_with share identity tpk scalar, r1)

module _ {F G1 G2 T : Type 0} {f : Field F} {g1 : Curve f G1} {g2 : Curve f G2}
    {e : Pairing g1 g2 T} (gt : PairingGroup e) (h : Hashing G2) where
  -- e(pk, H(id)) + e(c1, tpk) = e(g1, c3), the second check.
  unfoldable pub key_equation : G1 → G2 → Bytes → TransportPublicKey G2 → G1 → Bool
  key_equation c1 c3 identity tpk pk =
      let lhs = gt.sum (e.pair pk (hash_identity_to_g2 h identity)) (e.pair c1 tpk.point) in
      let rhs = e.pair g1.generator c3 in ◌==◌ ⦃e = e.eq⦄ lhs rhs

  unfoldable pub verify_encrypted_key_share :
      EncryptedKeyShare G1 G2 → Bytes → TransportPublicKey G2 → G1 → Bool
  unfolding key_equation
  verify_encrypted_key_share eks identity tpk pk_share =
      if not (◌==◌ ⦃e = e.eq⦄ (e.pair eks.c1 g2.generator) (e.pair g1.generator eks.c2))
      then false
      else key_equation eks.c1 eks.c3 identity tpk pk_share

  unfoldable pub verify_encrypted_vetkey :
      EncryptedVetKey G1 G2 → Bytes → TransportPublicKey G2 → G1 → Bool
  unfolding key_equation
  verify_encrypted_vetkey evk identity tpk group_pk =
      key_equation evk.c1 evk.c3 identity tpk group_pk

module _ {F G1 G2 : Type 0} {f : Field F} (g1 : Curve f G1) (g2 : Curve f G2) where
  -- The rounds over the shares left; the sums so far are `sum`.
  unfoldable pub combine_shares_loop :
      List ℕ
      → EncryptedVetKey G1 G2
      → List (EncryptedKeyShare G1 G2)
      → Option (EncryptedVetKey G1 G2)
  combine_shares_loop ids sum [] = some sum
  combine_shares_loop ids sum (s ∷ shares) = do
    li ← lagrange_coeff f s.signer ids
    combine_shares_loop ids
        (record {
          c1 = g1.add sum.c1 (g1.smul s.c1 li);
          c2 = g2.add sum.c2 (g2.smul s.c2 li);
          c3 = g2.add sum.c3 (g2.smul s.c3 li);
        })
        shares

  -- The first `threshold` shares, if there are more.
  unfoldable pub first_shares : List (EncryptedKeyShare G1 G2) → ℕ → List (EncryptedKeyShare G1 G2)
  first_shares shares threshold =
      if ltb threshold (length shares) then take threshold shares else shares

  unfoldable pub combine_encrypted_shares :
      List (EncryptedKeyShare G1 G2) → ℕ → Option (EncryptedVetKey G1 G2)
  unfolding first_shares combine_shares_loop
  combine_encrypted_shares shares threshold =
      let used = first_shares shares threshold in
      combine_shares_loop (map (λ s. s.signer) used)
        (record { c1 = g1.zero; c2 = g2.zero; c3 = g2.zero }) used

module _ {F G1 G2 T : Type 0} {f : Field F} {g1 : Curve f G1} {g2 : Curve f G2}
    (e : Pairing g1 g2 T) (h : Hashing G2) where
  unfoldable pub decrypt_vetkey :
      EncryptedVetKey G1 G2 → TransportSecretKey F → Bytes → G1 → Option (VetKey G2)
  decrypt_vetkey evk tsk identity group_pk =
      let sigma = minus g2 evk.c3 (g2.smul evk.c2 tsk.scalar) in
      if ◌==◌ ⦃e = e.eq⦄ (e.pair group_pk (hash_identity_to_g2 h identity))
        (e.pair g1.generator sigma)
      then some (record { point = sigma })
      else none
