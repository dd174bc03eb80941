-- ===== src/Threshold/Ibe/Encryption.antt =====
-- Boneh-Franklin encryption to an identity: golden-dkg/src/threshold/ibe.rs.
pub mod RoundTrip
use golden_rs.Common.{ℕ, Bytes, Option, none, some, not, length, if◌then◌else◌, ◌==◌, nat_eq, ◌>>=◌}
use golden_rs.Algebra.{Field, Curve, Pairing, PairingGroup, Hashing, Rng}
use golden_rs.Threshold.Ibe.Types.{VetKey, IbeCiphertext}
use golden_rs.Threshold.Ibe.Masks.{hash_identity_to_g2, hash_h2, hash_h3, hash_h4, xor_bytes}

-- What `ibe_decrypt` returns, or that it panics.
pub data Decryption : Type 0 where
  message : Bytes → Decryption
  rejected : Decryption
  panics : Decryption

module _ {F G1 G2 T : Type 0} {f : Field F} {g1 : Curve f G1} {g2 : Curve f G2}
    {e : Pairing g1 g2 T} (gt : PairingGroup e) (h : Hashing G2) where
  -- From the random seed on; a failed assertion of `xor_bytes` is `none`.
  unfoldable pub encrypt_seeded : G1 → Bytes → Bytes → Bytes → Option (IbeCiphertext G1)
  encrypt_seeded group_pk identity text seed = do
    let t = hash_h3 gt h seed text
    let pairing_val = e.pair (g1.smul group_pk t) (hash_identity_to_g2 h identity)
    v ← xor_bytes seed (hash_h2 gt h pairing_val)
    w ← xor_bytes text (hash_h4 h seed (length text))
    some (record { u = g1.smul g1.generator t; v = v; w = w })

  module _ {R : Type 0} (rng : Rng R F) where
    unfoldable pub ibe_encrypt : G1 → Bytes → Bytes → R → Option (IbeCiphertext G1) × R
    unfolding encrypt_seeded
    ibe_encrypt group_pk identity text r =
        let (seed, r1) = rng.fill32 r in (encrypt_seeded group_pk identity text seed, r1)

  -- From the recovered seed on: the message, and the check of Fujisaki and Okamoto.
  unfoldable pub open_seeded : IbeCiphertext G1 → Bytes → Decryption
  open_seeded ct seed = elim (xor_bytes ct.w (hash_h4 h seed (length ct.w))) [
    | none ↦ panics
    | some text ↦
        let expected_u = g1.smul g1.generator (hash_h3 gt h seed text) in
        if not (◌==◌ ⦃e = g1.eq⦄ expected_u ct.u) then rejected else message text
  ]

  unfoldable pub ibe_decrypt : VetKey G2 → IbeCiphertext G1 → Decryption
  unfolding open_seeded
  ibe_decrypt vetkey ct =
      let h2_mask = hash_h2 gt h (e.pair ct.u vetkey.point) in
      if not (length ct.v == 32)
      then rejected
      else elim (xor_bytes ct.v h2_mask) [ none ↦ panics | some seed ↦ open_seeded ct seed ]
