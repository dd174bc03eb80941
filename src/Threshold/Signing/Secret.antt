-- ===== src/Threshold/Signing/Secret.antt =====
-- The secret that shares determine: interpolation at zero against the polynomial that was shared
-- (golden-dkg/src/shamir.rs, golden-dkg/src/threshold/signing.rs).
use golden_rs.Common.{
  ℕ, ◌≤◌, ◌<◌, subst, ◌≡◌, sym, ap, ◌∙◌, List, [], ◌∷◌, length, map, length-map, arith, All, some,
  ◌>>=◌,
}
use golden_rs.Algebra.{Field, Curve, Rng}
use golden_rs.Algebra.Polynomials.{
  value, plus, scale, value-plus, value-scale, length-plus, neg-mul, sub-zero,
}
use golden_rs.Algebra.Polynomials.Roots.{Apart, vanishes}
use golden_rs.Shamir.{
  Polynomial, evaluate, new_random, generate_shares, lagrange_interpolate_at_zero,
}
use golden_rs.Shamir.Evaluation.{evaluate-value}
use golden_rs.Shamir.Sharing.{
  new_random_hides, range_after, length-range_after, generate_shares_lem,
}
use golden_rs.Shamir.Interpolation.{ids, through, through-points, length-through}
use golden_rs.Threshold.Types.{KeyShare}
use golden_rs.Threshold.Signing.{partial_sign, combine_dynamic}
use golden_rs.Threshold.Signing.Combination.{points, combine_dynamic-partial_sign}
use golden_rs.Threshold.Signing.Reconstruction.{
  nodes, OnNodes-Apart, DistinctIds-Apart, lagrange_interpolate_at_zero-through,
}

module _ {F : Type 0} (f : Field F) where
  value-difference :
      (xs ys : List F) (z : F)
      → value f (plus f xs (scale f (f.neg f.one) ys)) z
        ≡ f.add (value f xs z) (f.neg (value f ys z))
  value-difference xs ys z =
      value-plus f xs (scale f (f.neg f.one) ys) z
      ∙ ap (f.add (value f xs z)) (
          value-scale f (f.neg f.one) ys z
          ∙ neg-mul f f.one (value f ys z)
          ∙ ap f.neg (f.one-mul (value f ys z)))

  difference_zeros :
      (xs ys : List F) (shares : List (ℕ × F))
      → All (λ s. value f xs (f.from_u64 s.0) ≡ s.1) shares
      → All (λ s. s.1 ≡ value f ys (f.from_u64 s.0)) shares
      → All (λ y. value f (plus f xs (scale f (f.neg f.one) ys)) y ≡ f.zero) (nodes f (ids shares))
  difference_zeros xs ys [] p q = tt
  difference_zeros xs ys ((x, y) ∷ shares) p q = (
    value-difference xs ys (f.from_u64 x)
        ∙ ap (λ t. f.add t (f.neg (value f ys (f.from_u64 x)))) (p.0 ∙ q.0)
        ∙ f.add-neg (value f ys (f.from_u64 x)),
    difference_zeros xs ys shares p.1 q.1,
  )

  -- The polynomial through enough points of a polynomial has its values.
  pub through_unique :
      (cs : List F) (shares : List (ℕ × F)) (z : F)
      → Apart (nodes f (ids shares))
      → length cs ≤ length shares
      → All (λ s. s.1 ≡ value f cs (f.from_u64 s.0)) shares
      → value f (through f (ids shares) shares) z ≡ value f cs z
  through_unique cs shares z apart enough values =
      let t = through f (ids shares) shares in
      let on = OnNodes-Apart f shares apart in
      sub-zero f (value f t z) (value f cs z) (
        sym (value-difference t cs z)
        ∙ vanishes f (plus f t (scale f (f.neg f.one) cs)) (nodes f (ids shares)) z
            (omega (
              arith,
              length-map f.from_u64 (ids shares),
              length-map (λ s. s.0) shares,
              length-plus f (length shares) t (scale f (f.neg f.one) cs)
                  (omega
                    (arith, length-through f (ids shares) shares on, length-map (λ s. s.0) shares))
                  (omega (arith, length-map (f.mul (f.neg f.one)) cs)),
            ))
            apart
            (difference_zeros t cs shares
              (through-points f (ids shares) shares on (DistinctIds-Apart f shares apart)) values))

  -- At least as many shares of a polynomial as it has coefficients, with different nodes,
  -- give its value at zero, and `lagrange_interpolate_at_zero` does not panic on them.
  pub lagrange_interpolate_at_zero-evaluate :
      (poly : Polynomial F) (shares : List (ℕ × F))
      → Apart (nodes f (ids shares))
      → length poly.coefficients ≤ length shares
      → All (λ s. s.1 ≡ value f poly.coefficients (f.from_u64 s.0)) shares
      → lagrange_interpolate_at_zero f shares ≡ some (evaluate f poly f.zero)
  lagrange_interpolate_at_zero-evaluate poly shares apart enough values =
      lagrange_interpolate_at_zero-through f shares apart
      ∙ ap some (
          through_unique poly.coefficients shares f.zero apart enough values
          ∙ sym (evaluate-value f poly f.zero))

module _ {F G1 G2 : Type 0} {f : Field F} (g : Curve f G2) where
  -- The partial signatures of key shares that are values of one polynomial, for different nodes,
  -- at least as many as it has coefficients and no more than the threshold: `combine_dynamic` puts
  -- them together without a panic, and the result is the signature with the value of the polynomial
  -- at zero, whoever the signers are.
  pub combine_dynamic-evaluate :
      (poly : Polynomial F) (m : G2) (shares : List (KeyShare F G1)) (threshold : ℕ)
      → Apart (nodes f (ids (points shares)))
      → length poly.coefficients ≤ length shares
      → length shares ≤ threshold
      → All (λ s. s.1 ≡ value f poly.coefficients (f.from_u64 s.0)) (points shares)
      → combine_dynamic g (map (partial_sign g m) shares) threshold
        ≡ some (record { signature = g.smul m (evaluate f poly f.zero) })
  combine_dynamic-evaluate poly m shares threshold apart enough few values =
      combine_dynamic-partial_sign g m shares threshold few
        (DistinctIds-Apart f (points shares) apart)
      ∙ ap (λ o. do secret ← o; some (record { signature = g.smul m secret }))
          (lagrange_interpolate_at_zero-evaluate f poly (points shares) apart
            (omega (arith, length-map {B = ℕ × F} (λ k. (k.id, k.secret)) shares)) values)

module _ {F R : Type 0} (f : Field F) (rng : Rng R F) where
  -- Whatever the generator draws: the shares of a secret at the nodes 1, ..., n, at least one more
  -- than the degree and with different nodes, give the secret back.
  pub lagrange_interpolate_at_zero-generate_shares :
      (secret : F) (degree n : ℕ) (r : R)
      → Apart (nodes f (range_after 0 n))
      → degree < n
      → lagrange_interpolate_at_zero f (generate_shares f (new_random rng secret degree r).0 n)
        ≡ some secret
  lagrange_interpolate_at_zero-generate_shares secret degree n r apart enough =
      let poly = (new_random rng secret degree r).0 in
      let (size, hides) = new_random_hides f rng secret degree r in
      let (nodes_of, values) = generate_shares_lem f poly n in
      lagrange_interpolate_at_zero-evaluate f poly (generate_shares f poly n)
        (subst (λ xs. Apart (nodes f xs)) (sym nodes_of) apart)
        (omega (
          arith,
          size,
          length-range_after 0 n,
          ap length nodes_of,
          length-map (λ s. s.0) (generate_shares f poly n),
        ))
        values
      ∙ ap some hides
