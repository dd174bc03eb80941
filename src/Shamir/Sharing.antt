-- ===== src/Shamir/Sharing.antt =====
-- The polynomial that is drawn hides the secret at zero, and the shares are its values at 1, ..., n.
use golden_rs.Common.{
  ℕ, zero, suc, ◌+◌, ◌≡◌, refl, ap, ◌∙◌, List, [], ◌∷◌, ◌++◌, length, length-append, map, arith,
  All,
}
use golden_rs.Algebra.{Field, Rng}
use golden_rs.Algebra.Group.{add-zero, zero-mul}
use golden_rs.Shamir.{Polynomial, draw, new_random, evaluate, shares_from, generate_shares}
use golden_rs.Algebra.Polynomials.{value}
use golden_rs.Shamir.Evaluation.{evaluate-value}

module _ {F R : Type 0} (rng : Rng R F) where
  draw-cons :
      (k : ℕ) (c : F) (cs : List F) (r : R)
      → (rest : List F) × ((draw rng k (c ∷ cs) r).0 ≡ c ∷ rest) × (length rest ≡ length cs + k)
  unfolding draw
  draw-cons zero c cs r = (cs, refl, omega arith)
  draw-cons (suc k) c cs r =
      let a = (rng.rand_scalar r).0 in
      let (rest, e, n) = draw-cons k c (cs ++ (a ∷ [])) (rng.rand_scalar r).1 in
      (rest, e, omega (arith, n, length-append cs (a ∷ [])))

  -- The first coefficient that is drawn is the secret.
  pub new_random-cons :
      (secret : F) (degree : ℕ) (r : R)
      → (rest : List F) × ((new_random rng secret degree r).0.coefficients ≡ secret ∷ rest)
  unfolding new_random
  new_random-cons secret degree r = let (rest, e, n) = draw-cons degree secret [] r in (rest, e)

module _ {F R : Type 0} (f : Field F) (rng : Rng R F) where
  -- Whatever the generator draws, the polynomial of a degree has one coefficient more than the
  -- degree says, and its value at zero is the secret.
  pub new_random_hides :
      (secret : F) (degree : ℕ) (r : R)
      → let poly = (new_random rng secret degree r).0 in
        (length poly.coefficients ≡ degree + 1) × (evaluate f poly f.zero ≡ secret)
  unfolding new_random
  new_random_hides secret degree r =
      let (rest, e, n) = draw-cons rng degree secret [] r in
      (
        ap length e ∙ omega (arith, n),
        evaluate-value f _ f.zero
            ∙ ap (λ cs. value f cs f.zero) e
            ∙ ap (f.add secret) (zero-mul f (value f rest f.zero))
            ∙ add-zero f secret,
      )

-- k + 1, k + 2, ..., k + n.
abbrev pub range_after : ℕ → ℕ → List ℕ
range_after k zero = []
range_after k (suc n) = (k + 1) ∷ range_after (suc k) n

pub length-range_after : (k n : ℕ) → length (range_after k n) ≡ n
length-range_after k zero = refl
length-range_after k (suc n) = omega (arith, length-range_after (suc k) n)

module _ {F : Type 0} (f : Field F) where
  shares_from_lem :
      (poly : Polynomial F) (k n : ℕ)
      → (map (λ s. s.0) (shares_from f poly k n) ≡ range_after k n)
        × All (λ s. s.1 ≡ value f poly.coefficients (f.from_u64 s.0)) (shares_from f poly k n)
  unfolding shares_from
  shares_from_lem poly k zero = (refl, tt)
  shares_from_lem poly k (suc n) =
      let (ids, values) = shares_from_lem poly (suc k) n in
      (ap (◌∷◌ (k + 1)) ids, (evaluate-value f poly (f.from_u64 (k + 1)), values))

  -- The shares are for the nodes 1, ..., n in this order, and each is the value of the polynomial
  -- at its node.
  pub generate_shares_lem :
      (poly : Polynomial F) (n : ℕ)
      → (map (λ s. s.0) (generate_shares f poly n) ≡ range_after 0 n)
        × All (λ s. s.1 ≡ value f poly.coefficients (f.from_u64 s.0)) (generate_shares f poly n)
  unfolding generate_shares
  generate_shares_lem poly n = shares_from_lem poly 0 n
