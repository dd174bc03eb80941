-- ===== src/Threshold/Signing.antt =====
-- Partial signatures, Lagrange coefficients and their combination:
-- golden-dkg/src/threshold/signing.rs. A panic is `none`.
pub mod Bls
pub mod Coefficients
pub mod Reconstruction
pub mod Secret
pub mod Combination
use golden_rs.Common.{
  ℕ, Bool, Option, some, List, [], ◌∷◌, map, length, take, ltb, if◌then◌else◌, ◌>>=◌, ◌==◌, nat_eq,
  lookup,
}
use golden_rs.Algebra.{Field, Curve, Pairing}
use golden_rs.Threshold.Types.{KeyShare, PartialSignature, ThresholdSignature}

module _ {F : Type 0} (f : Field F) where
  -- One round of the loop of `lagrange_coeff`; `expect` panics if the difference has no inverse.
  unfoldable pub lagrange_step : ℕ → ℕ → F → Option F
  lagrange_step node_id id li = if id == node_id then some li else (do
    inv ← f.inverse (f.add (f.from_u64 id) (f.neg (f.from_u64 node_id)))
    some (f.mul li (f.mul (f.from_u64 id) inv)))

  unfoldable pub lagrange_loop : ℕ → F → List ℕ → Option F
  lagrange_loop node_id li [] = some li
  lagrange_loop node_id li (id ∷ ids) = do
    li' ← lagrange_step node_id id li
    lagrange_loop node_id li' ids

  unfoldable pub lagrange_coeff : ℕ → List ℕ → Option F
  lagrange_coeff node_id all_ids = lagrange_loop node_id f.one all_ids

module _ {F G1 G2 : Type 0} {f : Field F} (g : Curve f G2) where
  unfoldable pub partial_sign : G2 → KeyShare F G1 → PartialSignature G2
  partial_sign msg_hash share = record {
    signer = share.id;
    signature = g.smul msg_hash share.secret;
  }

module _ {F G2 : Type 0} {f : Field F} (g : Curve f G2) where
  unfoldable pub combine_one_loop : List (ℕ × F) → List (ℕ × G2) → G2 → Option G2
  combine_one_loop [] partials combined = some combined
  combine_one_loop ((id, li) ∷ rest) partials combined = do
    sig_i ← lookup id partials
    combine_one_loop rest partials (g.add combined (g.smul sig_i li))

  -- `partials[&id]` panics on a missing signer.
  unfoldable pub combine_one : List (ℕ × F) → List (ℕ × G2) → Option G2
  combine_one subset_coeffs partials = combine_one_loop subset_coeffs partials g.zero

  unfoldable pub combine_loop : List ℕ → G2 → List (PartialSignature G2) → Option G2
  combine_loop signer_ids combined [] = some combined
  combine_loop signer_ids combined (p ∷ ps) = do
    li ← lagrange_coeff f p.signer signer_ids
    combine_loop signer_ids (g.add combined (g.smul p.signature li)) ps

  -- The first `threshold` partial signatures, if there are more.
  unfoldable pub first_partials : List (PartialSignature G2) → ℕ → List (PartialSignature G2)
  first_partials partials threshold =
      if ltb threshold (length partials) then take threshold partials else partials

  unfoldable pub combine_dynamic : List (PartialSignature G2) → ℕ → Option (ThresholdSignature G2)
  combine_dynamic partials threshold = do
    let ps = first_partials partials threshold
    combined ← combine_loop (map (λ p. p.signer) ps) g.zero ps
    some (record { signature = combined })

module _ {F G1 G2 T : Type 0} {f : Field F} {g1 : Curve f G1} {g2 : Curve f G2}
    (e : Pairing g1 g2 T) where
  unfoldable pub verify_partial : G2 → PartialSignature G2 → G1 → Bool
  verify_partial msg_hash p pk_share =
      ◌==◌ ⦃e = e.eq⦄ (e.pair pk_share msg_hash) (e.pair g1.generator p.signature)

  unfoldable pub verify : G2 → ThresholdSignature G2 → G1 → Bool
  verify msg_hash sig group_pk =
      ◌==◌ ⦃e = e.eq⦄ (e.pair group_pk msg_hash) (e.pair g1.generator sig.signature)
