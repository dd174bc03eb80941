-- ===== src/Vss.antt =====
-- Feldman commitments: golden-dkg/src/vss.rs.
pub mod Soundness
use golden_rs.Common.{ℕ, Bool, List, [], ◌∷◌, map, ◌==◌}
use golden_rs.Algebra.{Field, Curve}
use golden_rs.Shamir.{Polynomial}

module _ {F G : Type 0} {f : Field F} (g : Curve f G) where
  unfoldable pub commit : Polynomial F → List G
  commit poly = map (λ coeff. g.smul g.generator coeff) poly.coefficients

  -- The loop of `verify_share` and `expected_share_commitment`.
  unfoldable pub share_loop : List G → F → G → F → G
  share_loop [] x result x_pow = result
  share_loop (c ∷ commitment) x result x_pow =
      share_loop commitment x (g.add result (g.smul c x_pow)) (f.mul x_pow x)

  unfoldable pub verify_share : List G → ℕ → F → Bool
  verify_share commitment index share =
      let expected = share_loop commitment (f.from_u64 index) g.zero f.one in
      let actual = g.smul g.generator share in ◌==◌ ⦃e = g.eq⦄ expected actual

  unfoldable pub expected_share_commitment : List G → ℕ → G
  expected_share_commitment commitment index = share_loop commitment (f.from_u64 index) g.zero f.one
