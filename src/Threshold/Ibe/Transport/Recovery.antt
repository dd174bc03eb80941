-- ===== src/Threshold/Ibe/Transport/Recovery.antt =====
-- Combined key shares decrypt to the key of the identity (golden-dkg/src/threshold/ibe.rs).
use mathlib.Core.Option.{some-injective}
use golden_rs.Common.{
  ℕ, ◌≤◌, ◌≡◌, refl, sym, ap, ap₂, ◌∙◌, Bytes, true, List, [], ◌∷◌, length, map, length-map, arith,
  some, suc, >>=-eq-some, le→ltb,
}
use golden_rs.Algebra.{Field, Curve, Pairing, PairingGroup, Hashing}
use golden_rs.Algebra.Group.{minus, add-minus, add_interchange}
use golden_rs.Shamir.{basis_loop, interpolate_loop, lagrange_interpolate_at_zero}
use golden_rs.Threshold.Types.{KeyShare}
use golden_rs.Threshold.Signing.{lagrange_coeff}
use golden_rs.Shamir.Interpolation.{ids, DistinctIds}
use golden_rs.Threshold.Signing.Coefficients.{
  LocatedFrom, LocatedFrom-DistinctIds, basis_loop-lagrange_loop,
}
use golden_rs.Threshold.Ibe.Types.{TransportPublicKey, EncryptedKeyShare, EncryptedVetKey}
use golden_rs.Threshold.Ibe.Masks.{hash_identity_to_g2}
use golden_rs.Threshold.Ibe.Transport.{
  encrypt_with, combine_shares_loop, first_shares, combine_encrypted_shares,
  verify_encrypted_vetkey, decrypt_vetkey,
}
use golden_rs.Threshold.Ibe.Transport.Shares.{key_equation_lem}

module _ {F G : Type 0} {f : Field F} (g : Curve f G) where
  smul-accumulate :
      (p : G) (acc x li : F)
      → g.add (g.smul p acc) (g.smul (g.smul p x) li) ≡ g.smul p (f.add acc (f.mul x li))
  smul-accumulate p acc x li =
      sym (g.smul-add p acc (f.mul x li) ∙ ap (g.add (g.smul p acc)) (g.smul-mul p x li))

module _ {F G1 : Type 0} where
  -- Key shares, each with the random scalar that encrypts it, and the points of the polynomial.
  abbrev pub points_of : List (KeyShare F G1 × F) → List (ℕ × F)
  points_of sealed = map (λ s. (s.0.id, s.0.secret)) sealed

module _ {F G1 G2 : Type 0} {f : Field F} (g1 : Curve f G1) (g2 : Curve f G2) (h : Hashing G2)
    (identity : Bytes) (tpk : TransportPublicKey G2) where
  -- The encryption of a secret with a random scalar.
  abbrev pub sealed_key : F → F → EncryptedVetKey G1 G2
  sealed_key secret r = record {
    c1 = g1.smul g1.generator r;
    c2 = g2.smul g2.generator r;
    c3 = g2.add (g2.smul tpk.point r) (g2.smul (hash_identity_to_g2 h identity) secret);
  }

  abbrev pub seal_all : List (KeyShare F G1 × F) → List (EncryptedKeyShare G1 G2)
  seal_all sealed = map (λ s. encrypt_with g1 g2 h s.0 identity tpk s.1) sealed

  signers-ids :
      (sealed : List (KeyShare F G1 × F))
      → map (λ s. s.signer) (seal_all sealed) ≡ ids (points_of sealed)
  unfolding encrypt_with
  signers-ids [] = refl
  signers-ids (s ∷ sealed) = ap (◌∷◌ s.0.id) (signers-ids sealed)

  sealed_key-accumulate :
      (acc r x y li : F)
      → let sum = sealed_key acc r in
        let s = sealed_key x y in
        record {
          c1 = g1.add sum.c1 (g1.smul s.c1 li);
          c2 = g2.add sum.c2 (g2.smul s.c2 li);
          c3 = g2.add sum.c3 (g2.smul s.c3 li);
        }
        ≡ sealed_key (f.add acc (f.mul x li)) (f.add r (f.mul y li))
  sealed_key-accumulate acc r x y li = λ z. record {
    c1 = smul-accumulate g1 g1.generator r y li z;
    c2 = smul-accumulate g2 g2.generator r y li z;
    c3 =
        (ap (g2.add (g2.add (g2.smul tpk.point r) (g2.smul (hash_identity_to_g2 h identity) acc)))
              (g2.add-smul (g2.smul tpk.point y) (g2.smul (hash_identity_to_g2 h identity) x) li)
            ∙ add_interchange g2 _ _ _ _
            ∙ ap₂ g2.add (smul-accumulate g2 tpk.point r y li)
                (smul-accumulate g2 (hash_identity_to_g2 h identity) acc x li))
          z;
  }

  sealed_key-zero : sealed_key f.zero f.zero ≡ record { c1 = g1.zero; c2 = g2.zero; c3 = g2.zero }
  sealed_key-zero = λ z. record {
    c1 = g1.smul-zero g1.generator z;
    c2 = g2.smul-zero g2.generator z;
    c3 =
        (ap₂ g2.add (g2.smul-zero tpk.point) (g2.smul-zero (hash_identity_to_g2 h identity))
            ∙ g2.zero-add g2.zero)
          z;
  }

  combine_shares_loop-sealed :
      (all : List (ℕ × F)) (i : ℕ) (acc r : F) (sealed : List (KeyShare F G1 × F)) {secret : F}
      → LocatedFrom all i (points_of sealed)
      → interpolate_loop f all i acc (points_of sealed) ≡ some secret
      → (r' : F) × (combine_shares_loop g1 g2 (ids all) (sealed_key acc r) (seal_all sealed)
          ≡ some (sealed_key secret r'))
  unfolding combine_shares_loop interpolate_loop lagrange_coeff encrypt_with
  combine_shares_loop-sealed all i acc r [] l e =
      (r, ap (λ x. some (sealed_key x r)) (some-injective _ _ e))
  combine_shares_loop-sealed all i acc r ((share, y) ∷ sealed) {secret} l e =
      let (li, finds, later) = >>=-eq-some (basis_loop f i (f.from_u64 share.id) 0 f.one all) _ e in
      let found = sym (basis_loop-lagrange_loop f i share.id 0 f.one all l.0) ∙ finds in
      let (r', ends) =
        combine_shares_loop-sealed all (suc i) (f.add acc (f.mul share.secret li))
          (f.add r (f.mul y li)) sealed {secret = secret} l.1 later in
      (
        r',
        rw found (
            ap (λ sum. combine_shares_loop g1 g2 (ids all) sum (seal_all sealed))
              (sealed_key-accumulate acc r share.secret y li)
            ∙ ends),
      )

  first_shares-all :
      (shares : List (EncryptedKeyShare G1 G2)) (threshold : ℕ)
      → length shares ≤ threshold
      → first_shares g1 g2 shares threshold ≡ shares
  unfolding first_shares
  first_shares-all shares threshold fits = ground (arith, le→ltb threshold (length shares) fits)

  combine_encrypted_shares-sealed :
      (sealed : List (KeyShare F G1 × F)) (threshold : ℕ) {secret : F}
      → length sealed ≤ threshold
      → DistinctIds (points_of sealed)
      → lagrange_interpolate_at_zero f (points_of sealed) ≡ some secret
      → (r' : F) × (combine_encrypted_shares g1 g2 (seal_all sealed) threshold
          ≡ some (sealed_key secret r'))
  unfolding combine_encrypted_shares lagrange_interpolate_at_zero
  combine_encrypted_shares-sealed sealed threshold {secret} fits distinct e =
      let (r', ends) =
        combine_shares_loop-sealed (points_of sealed) 0 f.zero f.zero sealed {secret = secret}
          (LocatedFrom-DistinctIds (points_of sealed) distinct) e in
      let all_of = first_shares-all (seal_all sealed) threshold (
        omega (
          arith,
          length-map (λ (s : KeyShare F G1 × F). encrypt_with g1 g2 h s.0 identity tpk s.1) sealed,
        )) in
      (
        r',
        ap
              (λ used.
                combine_shares_loop g1 g2 (map (λ s. s.signer) used)
                  (record { c1 = g1.zero; c2 = g2.zero; c3 = g2.zero }) used)
              all_of
            ∙ ap₂ (λ is sum. combine_shares_loop g1 g2 is sum (seal_all sealed))
                (signers-ids sealed) (sym sealed_key-zero)
            ∙ ends,
      )

module _ {F G1 G2 T : Type 0} {f : Field F} {g1 : Curve f G1} {g2 : Curve f G2}
    {e : Pairing g1 g2 T} (gt : PairingGroup e) (h : Hashing G2) where
  decrypt_vetkey-sealed :
      (secret r tsk : F) (identity : Bytes)
      → let tpk : TransportPublicKey G2 = record { point = g2.smul g2.generator tsk } in
        decrypt_vetkey e h
          (sealed_key g1 g2 h identity tpk secret r)
          (record { scalar = tsk })
          identity
          (g1.smul g1.generator secret)
        ≡ some (record { point = g2.smul (hash_identity_to_g2 h identity) secret })
  unfolding decrypt_vetkey
  decrypt_vetkey-sealed secret r tsk identity =
      let q = hash_identity_to_g2 h identity in
      let pad = g2.smul (g2.smul g2.generator tsk) r in
      let swap : g2.smul (g2.smul g2.generator r) tsk ≡ pad =
        sym (g2.smul-mul g2.generator r tsk)
        ∙ ap (g2.smul g2.generator) (f.mul_comm r tsk)
        ∙ g2.smul-mul g2.generator tsk r in
      let opens : minus g2 (g2.add pad (g2.smul q secret)) (g2.smul (g2.smul g2.generator r) tsk)
          ≡ g2.smul q secret =
        ap (minus g2 (g2.add pad (g2.smul q secret))) swap ∙ add-minus g2 (g2.smul q secret) pad in
      let test =
        (e.eq.beq_iff (e.pair (g1.smul g1.generator secret) q)
            (e.pair g1.generator (g2.smul q secret))).1
          (e.pair-smul g1.generator q secret) in
      rw (opens, test) refl

  -- Encrypted key shares of at most `threshold` holders with different ids, whose secrets
  -- interpolate to the master secret, combine to a key that passes its check under the group key
  -- g1^secret, and that the transport secret key opens to the key of the identity: its hash to the
  -- secret.
  pub decrypt_vetkey-combine :
      (sealed : List (KeyShare F G1 × F)) (threshold : ℕ) (secret tsk : F) (identity : Bytes)
      → length sealed ≤ threshold
      → DistinctIds (points_of sealed)
      → lagrange_interpolate_at_zero f (points_of sealed) ≡ some secret
      → let tpk : TransportPublicKey G2 = record { point = g2.smul g2.generator tsk } in
        let group_pk = g1.smul g1.generator secret in
        (evk : EncryptedVetKey G1 G2) × (combine_encrypted_shares g1 g2
            (seal_all g1 g2 h identity tpk sealed)
            threshold
          ≡ some evk)
        × (verify_encrypted_vetkey gt h evk identity tpk group_pk ≡ true)
        × (decrypt_vetkey e h evk (record { scalar = tsk }) identity group_pk
            ≡ some (record { point = g2.smul (hash_identity_to_g2 h identity) secret }))
  unfolding verify_encrypted_vetkey
  decrypt_vetkey-combine sealed threshold secret tsk identity fits distinct interpolates =
      let tpk : TransportPublicKey G2 = record { point = g2.smul g2.generator tsk } in
      let (r, combines) =
        combine_encrypted_shares-sealed g1 g2 h identity tpk sealed threshold {secret = secret} fits
          distinct interpolates in
      let evk = sealed_key g1 g2 h identity tpk secret r in
      (
        evk,
        combines,
        (key_equation_lem gt h secret r evk.c3 identity tpk).1 refl,
        decrypt_vetkey-sealed secret r tsk identity,
      )
