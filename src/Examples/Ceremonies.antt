-- ===== src/Examples/Ceremonies.antt =====
-- Three nodes share 3 + x, and two of them sign.
use golden_rs.Common.{
  ℕ, ◌≡◌, refl, some, true, List, [], ◌∷◌, map, filter, All, arith, nat_beq, Bool, not,
}
use golden_rs.Algebra.Polynomials.Roots.{Apart}
use golden_rs.Shamir.{Polynomial, evaluate, horner}
use golden_rs.Shamir.Interpolation.{ids}
use golden_rs.Dkg.Types.{DkgOutput}
use golden_rs.Threshold.Types.{GroupInfo, ThresholdSignature}
use golden_rs.Threshold.Signing.{partial_sign, combine_dynamic, verify}
use golden_rs.Threshold.Signing.Reconstruction.{nodes}
use golden_rs.Threshold.Bootstrap.{key_share, bootstrap}
use golden_rs.Threshold.Bootstrap.Signatures.{Shares, bootstrap_signs}
use golden_rs.Examples.Toy.{F5, z0, z1, z2, z3, z4, field5, group5, pairing5}

abbrev total : Polynomial F5
total = record { coefficients = z3 ∷ z1 ∷ [] }

abbrev output_of : F5 → DkgOutput F5 F5
output_of secret = record { public_key = z3; public_key_shares = []; secret_share = secret }

abbrev outputs : List (ℕ × DkgOutput F5 F5)
outputs = (1, output_of z4) ∷ (2, output_of z0) ∷ (3, output_of z1) ∷ []

abbrev group_info : GroupInfo F5
group_info = record { public_key = z3; threshold = 2; num_nodes = 3 }

nodes-Apart : Apart (nodes field5 (ids outputs))
nodes-Apart = (((λ e. cc), ((λ e. cc), tt)), (((λ e. cc), tt), (tt, tt)))

outputs-Shares : All (Shares group5 total) outputs
unfolding evaluate horner
outputs-Shares = ((refl, refl), ((refl, refl), ((refl, refl), tt)))

abbrev signs : ℕ → Bool
signs id = not (nat_beq id 2)

bootstrap_signs_example :
    let signers = filter (λ k. signs k.id) (map (key_share group_info) outputs) in
    (sig : ThresholdSignature F5) × (combine_dynamic group5 (map (partial_sign group5 z2) signers) 2
      ≡ some sig)
    × (verify pairing5 z2 sig z3 ≡ true)
unfolding bootstrap
bootstrap_signs_example =
    bootstrap_signs pairing5 total outputs 2 z2 signs {shares = map (key_share group_info) outputs}
      {group_info = group_info} nodes-Apart outputs-Shares refl (omega arith) (omega arith)
