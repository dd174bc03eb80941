-- ===== src/Examples/Identities.antt =====
-- Keys and ciphertexts of identities.
use golden_rs.Common.{
  ℕ, ◌≡◌, ◌≢◌, ◌↔◌, refl, Bytes, [], ◌∷◌, some, true, length, replicate, unwrap_or, arith,
}
use golden_rs.Shamir.{lagrange_interpolate_at_zero}
use golden_rs.Threshold.Types.{KeyShare}
use golden_rs.Threshold.Ibe.Types.{TransportPublicKey, EncryptedVetKey, VetKey, IbeCiphertext}
use golden_rs.Threshold.Ibe.Masks.{
  hash_identity_to_g2, hash_h2, hash_h3, hash_h4, h4_loop, xor_bytes,
}
use golden_rs.Threshold.Ibe.Masks.Lengths.{length-hash_h4}
use golden_rs.Threshold.Ibe.Transport.{
  encrypt_with, combine_encrypted_shares, verify_encrypted_key_share, verify_encrypted_vetkey,
  decrypt_vetkey,
}
use golden_rs.Threshold.Ibe.Transport.Shares.{verify_encrypted_key_share-exact}
use golden_rs.Threshold.Ibe.Transport.Recovery.{seal_all, decrypt_vetkey-combine}
use golden_rs.Threshold.Ibe.Encryption.{message, panics, encrypt_seeded, ibe_encrypt, ibe_decrypt}
use golden_rs.Threshold.Ibe.Encryption.RoundTrip.{
  ibe_decrypt-ne-panics, ibe_decrypt-exact, ibe_decrypt-ibe_encrypt,
}
use golden_rs.Examples.Toy.{
  F5, z0, z1, z2, z3, z4, group5, pairing5, pairing_group5, hashing5, rng5,
}

abbrev alice : Bytes
alice = 7 ∷ 8 ∷ []

abbrev text : Bytes
text = 65 ∷ 66 ∷ 67 ∷ []

-- Shares of 3 + x.
abbrev share_of : ℕ → F5 → KeyShare F5 F5
share_of id secret = record {
  id = id;
  secret = secret;
  group_info = record { public_key = z3; threshold = 2; num_nodes = 3 };
}

abbrev tpk : TransportPublicKey F5
tpk = record { point = z2 }

length-hash_h4_example : length (hash_h4 hashing5 alice 3) ≡ 3
length-hash_h4_example = length-hash_h4 hashing5 alice 3

verify_encrypted_key_share-exact_example :
    let honest = encrypt_with group5 group5 hashing5 (share_of 1 z4) alice tpk z3 in
    (verify_encrypted_key_share pairing_group5 hashing5
        (record { c1 = z3; c2 = z3; c3 = z1; signer = 1 })
        alice
        tpk
        z4
      ≡ true)
    ↔ ((z3 ≡ honest.c2) × (z1 ≡ honest.c3))
verify_encrypted_key_share-exact_example =
    verify_encrypted_key_share-exact pairing_group5 hashing5 (share_of 1 z4) alice tpk z3 z3 z1 1

decrypt_vetkey-combine_example :
    (evk : EncryptedVetKey F5 F5) × (combine_encrypted_shares group5 group5
        (seal_all group5 group5 hashing5 alice tpk ((share_of 1 z4, z2) ∷ (share_of 3 z1, z3) ∷ []))
        2
      ≡ some evk)
    × (verify_encrypted_vetkey pairing_group5 hashing5 evk alice tpk z3 ≡ true)
    × (decrypt_vetkey pairing5 hashing5 evk (record { scalar = z2 }) alice z3
        ≡ some (record { point = group5.smul (hash_identity_to_g2 hashing5 alice) z3 }))
unfolding lagrange_interpolate_at_zero
decrypt_vetkey-combine_example =
    decrypt_vetkey-combine pairing_group5 hashing5 ((share_of 1 z4, z2) ∷ (share_of 3 z1, z3) ∷ [])
      2 z3 z2 alice (omega arith) (((λ e. omega (arith, e)), tt), (tt, tt)) refl

abbrev seed : Bytes
seed = replicate 32 5

abbrev sealed : IbeCiphertext F5
unfolding encrypt_seeded hash_h2 hash_h3 hash_h4 h4_loop xor_bytes hash_identity_to_g2
sealed =
    unwrap_or (encrypt_seeded pairing_group5 hashing5 z3 alice text seed)
      (record { u = z0; v = []; w = [] })

abbrev key_of_alice : VetKey F5
key_of_alice = record { point = group5.smul (hash_identity_to_g2 hashing5 alice) z3 }

ibe_decrypt-exact_example :
    (ibe_decrypt pairing_group5 hashing5 key_of_alice sealed ≡ message text) ↔ (
      (s : Bytes) × (length s ≡ 32)
      × (encrypt_seeded pairing_group5 hashing5 z3 alice text s ≡ some sealed))
ibe_decrypt-exact_example = ibe_decrypt-exact pairing_group5 hashing5 z3 alice text sealed

ibe_decrypt-ne-panics_example : ibe_decrypt pairing_group5 hashing5 key_of_alice sealed ≢ panics
ibe_decrypt-ne-panics_example = ibe_decrypt-ne-panics pairing_group5 hashing5 key_of_alice sealed

ibe_decrypt-ibe_encrypt_example :
    (ct : IbeCiphertext F5) × ((ibe_encrypt pairing_group5 hashing5 rng5 z3 alice text 4).0
      ≡ some ct)
    × (ibe_decrypt pairing_group5 hashing5 key_of_alice ct ≡ message text)
ibe_decrypt-ibe_encrypt_example =
    ibe_decrypt-ibe_encrypt pairing_group5 hashing5 rng5 z3 alice text 4 refl
