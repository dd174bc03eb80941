-- ===== src/Examples/Dealings.antt =====
-- Sharings, proofs of knowledge, pads and partial signatures.
use golden_rs.Common.{none, ◌≢◌, ℕ, ◌≡◌, ◌↔◌, some, true, [], ◌∷◌, map, arith, nat_eq}
use golden_rs.Shamir.{
  Polynomial, new_random, evaluate, generate_shares, lagrange_interpolate_at_zero,
}
use golden_rs.Vss.{commit, verify_share}
use golden_rs.Vss.Soundness.{verify_share-commit}
use golden_rs.Schnorr.{prove, verify, compute_challenge}
use golden_rs.Schnorr.Completeness.{verify-prove}
use golden_rs.Threshold.Types.{KeyShare}
use golden_rs.Threshold.Signing.{partial_sign, verify_partial, combine_dynamic}
use golden_rs.Threshold.Signing.Bls.{verify_partial_exact}
use golden_rs.Algebra.Polynomials.Roots.{Apart}
use golden_rs.Threshold.Signing.Reconstruction.{nodes}
use golden_rs.Threshold.Signing.Secret.{
  lagrange_interpolate_at_zero-generate_shares, combine_dynamic-evaluate,
}
use golden_rs.Threshold.Signing.Combination.{combine_dynamic-partial_sign}
use golden_rs.Common.{none, Option, Bytes, refl}
use golden_rs.Threshold.Types.{BeaconMode}
use golden_rs.Threshold.Beacon
use golden_rs.Threshold.Beacon.Verification.{verify-new}
use golden_rs.Examples.Toy.{
  hashing5, F5, z0, z1, z2, z3, z4, of, field5, group5, pairing5, rng5, encoding5,
}

-- 2 + 3 x + x^2
abbrev poly5 : Polynomial F5
poly5 = record { coefficients = z2 ∷ z3 ∷ z1 ∷ [] }

verify_share-commit_example :
    (verify_share group5 (commit group5 poly5) 2 z2 ≡ true) ↔ (z2 ≡ evaluate field5 poly5 z2)
verify_share-commit_example = verify_share-commit group5 poly5 2 z2

verify-prove_example :
    let proof = (prove group5 encoding5 rng5 z2 z2 3).0 in
    let c = compute_challenge group5 encoding5 z2 proof.commitment in
    (verify group5 encoding5 z2 proof ≡ true)
    ↔ (group5.smul z2 c ≡ group5.smul (group5.smul z1 z2) c)
verify-prove_example = verify-prove group5 encoding5 rng5 z2 z2 3

abbrev share_of : ℕ → F5 → KeyShare F5 F5
share_of id secret = record {
  id = id;
  secret = secret;
  group_info = record { public_key = z2; threshold = 2; num_nodes = 3 };
}

verify_partial_exact_example :
    (verify_partial pairing5 z3 (record { signer = 1; signature = z2 }) z4 ≡ true)
    ↔ (z2 ≡ (partial_sign group5 z3 (share_of 1 z4)).signature)
verify_partial_exact_example =
    verify_partial_exact pairing5 z3 (record { signer = 1; signature = z2 }) (share_of 1 z4)

combine_dynamic-partial_sign_example :
    combine_dynamic group5 (map (partial_sign group5 z3) (share_of 1 z4 ∷ share_of 3 z1 ∷ [])) 2
    ≡ some (record { signature = z4 })
unfolding lagrange_interpolate_at_zero
combine_dynamic-partial_sign_example =
    combine_dynamic-partial_sign group5 z3 (share_of 1 z4 ∷ share_of 3 z1 ∷ []) 2 (omega arith)
      (((λ e. omega (arith, e)), tt), (tt, tt))

nodes-Apart : Apart (nodes field5 (1 ∷ 2 ∷ 3 ∷ []))
nodes-Apart = (((λ e. cc), ((λ e. cc), tt)), (((λ e. cc), tt), (tt, tt)))

lagrange_interpolate_at_zero-generate_shares_example :
    lagrange_interpolate_at_zero field5 (generate_shares field5 (new_random rng5 z3 2 1).0 3)
    ≡ some z3
lagrange_interpolate_at_zero-generate_shares_example =
    lagrange_interpolate_at_zero-generate_shares field5 rng5 z3 2 3 1 nodes-Apart (omega arith)

-- 3 + x, shared to the nodes 1 and 3.
combine_dynamic-evaluate_example :
    combine_dynamic group5 (map (partial_sign group5 z2) (share_of 1 z4 ∷ share_of 3 z1 ∷ [])) 2
    ≡ some (record {
      signature = group5.smul z2 (evaluate field5 (record { coefficients = z3 ∷ z1 ∷ [] }) z0);
    })
combine_dynamic-evaluate_example =
    combine_dynamic-evaluate group5 (record { coefficients = z3 ∷ z1 ∷ [] }) z2
      (share_of 1 z4 ∷ share_of 3 z1 ∷ []) 2 (((λ e. cc), tt), (tt, tt)) (omega arith) (omega arith)
      (refl, (refl, tt))

abbrev decode5 : Bytes → Option F5
decode5 [] = none
decode5 (b ∷ bs) = some (of b)

decode5_lem : (p : F5) → decode5 (hashing5.serialize_g2 p) ≡ some p
decode5_lem z0 = refl
decode5_lem z1 = refl
decode5_lem z2 = refl
decode5_lem z3 = refl
decode5_lem z4 = refl

verify-new_example :
    let answer =
      Beacon.verify pairing5 hashing5 decode5
        (Beacon.new hashing5 7 (some (1 ∷ [])) (record { signature = z3 }))
        z2
        BeaconMode.chained in
    (answer ≢ none)
    × ((answer ≡ some true) ↔ (
        z3
        ≡ group5.smul
            (Beacon.hash_to_g2 hashing5 (Beacon.digest_message hashing5 7 (some (1 ∷ []))))
            z2))
verify-new_example =
    verify-new pairing5 hashing5 decode5 7 (some (1 ∷ [])) (record { signature = z3 })
      BeaconMode.chained z2 decode5_lem
