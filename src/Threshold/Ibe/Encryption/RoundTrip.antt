-- ===== src/Threshold/Ibe/Encryption/RoundTrip.antt =====
-- Decryption undoes encryption, and undoes nothing else (golden-dkg/src/threshold/ibe.rs).
use mathlib.Core.Option.{some-injective}
use golden_rs.Common.{
  ◌++◌, ◌⊎◌, ◌≡◌, ◌≢◌, ◌↔◌, refl, sym, subst, ap, ◌∙◌, Bytes, some, length, arith, Option-cases,
  inl, inr, nat_eq, ◌==◌, Bool-cases,
}
use golden_rs.Algebra.{Field, Curve, Pairing, PairingGroup, Hashing, Rng}
use golden_rs.Threshold.Ibe.Types.{VetKey, IbeCiphertext}
use golden_rs.Threshold.Ibe.Masks.{
  hash_identity_to_g2, hash_h2, hash_h3, hash_h4, xor_bytes, h2_tag,
}
use golden_rs.Threshold.Ibe.Masks.Lengths.{xor_bytes-twice, xor_bytes-back, length-hash_h4}
use golden_rs.Threshold.Ibe.Encryption.{
  message, rejected, panics, encrypt_seeded, ibe_encrypt, open_seeded, ibe_decrypt,
}

module _ {F G1 G2 T : Type 0} {f : Field F} {g1 : Curve f G1} {g2 : Curve f G2}
    (e : Pairing g1 g2 T) where
  -- The mask of the seed is the same on both sides.
  pairing_agrees :
      (s t : F) (q : G2)
      → e.pair (g1.smul (g1.smul g1.generator s) t) q
        ≡ e.pair (g1.smul g1.generator t) (g2.smul q s)
  pairing_agrees s t q =
      ap (λ p. e.pair p q)
        (sym (g1.smul-mul g1.generator s t)
          ∙ ap (g1.smul g1.generator) (f.mul_comm s t)
          ∙ g1.smul-mul g1.generator t s)
      ∙ e.pair-smul (g1.smul g1.generator t) q s

module _ {F G1 G2 T : Type 0} {f : Field F} {g1 : Curve f G1} {g2 : Curve f G2}
    {e : Pairing g1 g2 T} (gt : PairingGroup e) (h : Hashing G2) where
  length-hash_h2 : (x : T) → length (hash_h2 gt h x) ≡ 32
  unfolding hash_h2
  length-hash_h2 x = h.length-sha256 (h2_tag ++ gt.serialize_gt x)

  open_seeded-message :
      (ct : IbeCiphertext G1) (seed text : Bytes)
      → (open_seeded gt h ct seed ≡ message text) ↔ (
          (xor_bytes ct.w (hash_h4 h seed (length ct.w)) ≡ some text)
          × (g1.smul g1.generator (hash_h3 gt h seed text) ≡ ct.u))
  unfolding open_seeded
  open_seeded-message ct seed text =
      elim (Option-cases (xor_bytes ct.w (hash_h4 h seed (length ct.w)))) [
        | inl stops ↦ ground (arith, stops)
        | inr (found, returns) ↦
            let expected_u = g1.smul g1.generator (hash_h3 gt h seed found) in
            ground (arith, returns, g1.eq.beq_iff expected_u ct.u)
      ]

  ibe_decrypt-open :
      (vetkey : VetKey G2) (ct : IbeCiphertext G1) (seed : Bytes)
      → length ct.v ≡ 32
      → xor_bytes ct.v (hash_h2 gt h (e.pair ct.u vetkey.point)) ≡ some seed
      → ibe_decrypt gt h vetkey ct ≡ open_seeded gt h ct seed
  unfolding ibe_decrypt
  ibe_decrypt-open vetkey ct seed long shows = ground (arith, shows, long)

  ibe_decrypt-cases :
      (vetkey : VetKey G2) (ct : IbeCiphertext G1)
      → (ibe_decrypt gt h vetkey ct ≡ rejected)
        ⊎ ((seed : Bytes) × (length ct.v ≡ 32)
            × (xor_bytes ct.v (hash_h2 gt h (e.pair ct.u vetkey.point)) ≡ some seed))
  unfolding ibe_decrypt
  ibe_decrypt-cases vetkey ct =
      let mask = hash_h2 gt h (e.pair ct.u vetkey.point) in
      elim (Bool-cases (length ct.v == 32)) [
        | inl fits ↦
            let long : length ct.v ≡ 32 = ground (arith, fits) in
            let (seed, shows, as_long, back) =
              xor_bytes-twice ct.v mask
                (omega (arith, long, length-hash_h2 (e.pair ct.u vetkey.point))) in
            inr (seed, long, shows)
        | inr short ↦ inl (ground (arith, short))
      ]

  seeded_roundtrip :
      (s : F) (identity text seed : Bytes)
      → length seed ≡ 32
      → (ct : IbeCiphertext G1) × (encrypt_seeded gt h (g1.smul g1.generator s) identity text seed
          ≡ some ct)
        × (ibe_decrypt gt h (record { point = g2.smul (hash_identity_to_g2 h identity) s }) ct
            ≡ message text)
  unfolding encrypt_seeded
  seeded_roundtrip s identity text seed long =
      let t = hash_h3 gt h seed text in
      let q = hash_identity_to_g2 h identity in
      let val = e.pair (g1.smul (g1.smul g1.generator s) t) q in
      let (v, hides, long_v, shows) =
        xor_bytes-twice seed (hash_h2 gt h val) (omega (arith, long, length-hash_h2 val)) in
      let (w, covers, long_w, uncovers) =
        xor_bytes-twice text (hash_h4 h seed (length text))
          (omega (arith, length-hash_h4 h seed (length text))) in
      let ct : IbeCiphertext G1 = record { u = g1.smul g1.generator t; v = v; w = w } in
      (
        ct,
        rw (hides, covers) refl,
        ibe_decrypt-open (record { point = g2.smul q s }) ct seed (omega (arith, long, long_v))
              (rw (← pairing_agrees e s t q) shows)
            ∙ (open_seeded-message ct seed text).1 (rw long_w uncovers, refl),
      )

  open_seeded-ne-panics : (ct : IbeCiphertext G1) (seed : Bytes) → open_seeded gt h ct seed ≢ panics
  unfolding open_seeded
  open_seeded-ne-panics ct seed =
      let mask = hash_h4 h seed (length ct.w) in
      let (text, uncovers, as_long, back) =
        xor_bytes-twice ct.w mask (omega (arith, length-hash_h4 h seed (length ct.w))) in
      ground (arith, uncovers)

  -- A ciphertext that opens to a message is the one that its seed makes.
  reseal :
      (s : F) (identity text : Bytes) (ct : IbeCiphertext G1) (seed : Bytes)
      → length ct.v ≡ 32
      → xor_bytes ct.v (hash_h2 gt h (e.pair ct.u (g2.smul (hash_identity_to_g2 h identity) s)))
        ≡ some seed
      → xor_bytes ct.w (hash_h4 h seed (length ct.w)) ≡ some text
      → g1.smul g1.generator (hash_h3 gt h seed text) ≡ ct.u
      → encrypt_seeded gt h (g1.smul g1.generator s) identity text seed ≡ some ct
  unfolding encrypt_seeded
  reseal s identity text ct seed long shows uncovers same =
      let q = hash_identity_to_g2 h identity in
      let t = hash_h3 gt h seed text in
      let val = e.pair ct.u (g2.smul q s) in
      let (short, hides) =
        xor_bytes-back ct.v (hash_h2 gt h val) seed (omega (arith, long, length-hash_h2 val))
          shows in
      let (as_long, covers) =
        xor_bytes-back ct.w (hash_h4 h seed (length ct.w)) text
          (omega (arith, length-hash_h4 h seed (length ct.w))) uncovers in
      rw (pairing_agrees e s t q, same, hides, as_long, covers) refl

  -- Decryption never panics: the masks have the lengths of what they cover.
  pub ibe_decrypt-ne-panics :
      (vetkey : VetKey G2) (ct : IbeCiphertext G1) → ibe_decrypt gt h vetkey ct ≢ panics
  ibe_decrypt-ne-panics vetkey ct = elim (ibe_decrypt-cases vetkey ct) [
    | inl refused ↦ λ stops. cc
    | inr (seed, long, shows) ↦ λ stops.
        open_seeded-ne-panics ct seed (sym (ibe_decrypt-open vetkey ct seed long shows) ∙ stops)
  ]

  -- With the key of an identity, g2-hash to the master secret, a ciphertext decrypts to a message
  -- exactly when it is the encryption of this message to this identity from some seed of 32 bytes:
  -- everything else is rejected.
  pub ibe_decrypt-exact :
      (s : F) (identity text : Bytes) (ct : IbeCiphertext G1)
      → (ibe_decrypt gt h (record { point = g2.smul (hash_identity_to_g2 h identity) s }) ct
          ≡ message text)
        ↔ ((seed : Bytes) × (length seed ≡ 32)
            × (encrypt_seeded gt h (g1.smul g1.generator s) identity text seed ≡ some ct))
  ibe_decrypt-exact s identity text ct =
      let q = hash_identity_to_g2 h identity in
      let vetkey : VetKey G2 = record { point = g2.smul q s } in
      (
        λ opened. elim (ibe_decrypt-cases vetkey ct) [
          | inl refused ↦ absurd (cc)
          | inr (seed, long, shows) ↦
              let (uncovers, same) =
                (open_seeded-message ct seed text).0
                  (sym (ibe_decrypt-open vetkey ct seed long shows) ∙ opened) in
              let val = e.pair ct.u (g2.smul q s) in
              let (short, hides) =
                xor_bytes-back ct.v (hash_h2 gt h val) seed
                  (omega (arith, long, length-hash_h2 val)) shows in
              (seed, short ∙ long, reseal s identity text ct seed long shows uncovers same)
        ],
        λ (seed, long, seals).
            let (made, sealed, opens) = seeded_roundtrip s identity text seed long in
            subst (λ c. ibe_decrypt gt h vetkey c ≡ message text)
              (some-injective _ _ (sym sealed ∙ seals)) opens,
      )

module _ {F G1 G2 T R : Type 0} {f : Field F} {g1 : Curve f G1} {g2 : Curve f G2}
    {e : Pairing g1 g2 T} (gt : PairingGroup e) (h : Hashing G2) (rng : Rng R F) where
  -- If the generator fills the seed with 32 bytes: every message, the empty one included, can be
  -- encrypted to an identity under the group key g1^secret, and the key of the identity, its hash
  -- to the secret, decrypts it.
  pub ibe_decrypt-ibe_encrypt :
      (secret : F) (identity text : Bytes) (r : R)
      → length (rng.fill32 r).0 ≡ 32
      → (ct : IbeCiphertext G1) × ((ibe_encrypt gt h rng
            (g1.smul g1.generator secret)
            identity
            text
            r).0
          ≡ some ct)
        × (ibe_decrypt gt h (record { point = g2.smul (hash_identity_to_g2 h identity) secret }) ct
            ≡ message text)
  unfolding ibe_encrypt
  ibe_decrypt-ibe_encrypt secret identity text r long =
      seeded_roundtrip gt h secret identity text (rng.fill32 r).0 long
