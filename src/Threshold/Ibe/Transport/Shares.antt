-- ===== src/Threshold/Ibe/Transport/Shares.antt =====
-- The pairing checks of encrypted key shares and keys (golden-dkg/src/threshold/ibe.rs).
use golden_rs.Common.{ℕ, ◌≡◌, ◌↔◌, sym, ap, ap₂, ◌∙◌, Bytes, true, arith}
use golden_rs.Algebra.{Field, Curve, Pairing, PairingGroup, Hashing}
use golden_rs.Threshold.Types.{KeyShare}
use golden_rs.Threshold.Ibe.Types.{TransportPublicKey}
use golden_rs.Threshold.Ibe.Masks.{hash_identity_to_g2}
use golden_rs.Threshold.Ibe.Transport.{encrypt_with, key_equation, verify_encrypted_key_share}

module _ {F G1 G2 T : Type 0} {f : Field F} {g1 : Curve f G1} {g2 : Curve f G2}
    {e : Pairing g1 g2 T} (gt : PairingGroup e) (h : Hashing G2) where
  pub key_equation_lem :
      (secret r : F) (c3 : G2) (identity : Bytes) (tpk : TransportPublicKey G2)
      → (key_equation gt h (g1.smul g1.generator r) c3 identity tpk (g1.smul g1.generator secret)
          ≡ true)
        ↔ (c3 ≡ g2.add (g2.smul tpk.point r) (g2.smul (hash_identity_to_g2 h identity) secret))
  unfolding key_equation
  key_equation_lem secret r c3 identity tpk =
      let q = hash_identity_to_g2 h identity in
      let lhs =
        gt.sum (e.pair (g1.smul g1.generator secret) q)
          (e.pair (g1.smul g1.generator r) tpk.point) in
      let sealed = g2.add (g2.smul tpk.point r) (g2.smul q secret) in
      let folds : lhs ≡ e.pair g1.generator sealed =
        ap₂ gt.sum (e.pair-smul g1.generator q secret) (e.pair-smul g1.generator tpk.point r)
        ∙ sym (gt.pair-add g1.generator (g2.smul q secret) (g2.smul tpk.point r))
        ∙ ap (e.pair g1.generator) (g2.add_comm (g2.smul q secret) (g2.smul tpk.point r)) in
      let test = e.eq.beq_iff lhs (e.pair g1.generator c3) in
      (
        λ passes. sym (e.pair_injective sealed c3 (sym folds ∙ test.0 passes)),
        λ is. test.1 (folds ∙ ap (e.pair g1.generator) (sym is)),
      )

  -- An encrypted key share whose first part is g1^r passes the check under the key share g1^secret
  -- exactly when its other two parts are the ones that the holder of the secret makes with this r.
  pub verify_encrypted_key_share-exact :
      (share : KeyShare F G1) (identity : Bytes) (tpk : TransportPublicKey G2) (r : F) (c2 c3 : G2)
      (signer : ℕ)
      → let honest = encrypt_with g1 g2 h share identity tpk r in
        (verify_encrypted_key_share gt h
            (record { c1 = g1.smul g1.generator r; c2 = c2; c3 = c3; signer = signer })
            identity
            tpk
            (g1.smul g1.generator share.secret)
          ≡ true)
        ↔ ((c2 ≡ honest.c2) × (c3 ≡ honest.c3))
  unfolding verify_encrypted_key_share encrypt_with
  verify_encrypted_key_share-exact share identity tpk r c2 c3 signer =
      let first = e.pair (g1.smul g1.generator r) g2.generator in
      let test = e.eq.beq_iff first (e.pair g1.generator c2) in
      let moved = e.pair-smul g1.generator g2.generator r in
      let same : (c2 ≡ g2.smul g2.generator r) ↔ (first ≡ e.pair g1.generator c2) = (
        λ is. moved ∙ ap (e.pair g1.generator) (sym is),
        λ meets. sym (e.pair_injective _ _ (sym moved ∙ meets)),
      ) in
      ground (arith, test, same, key_equation_lem share.secret r c3 identity tpk)
