-- ===== src/Shamir.antt =====
-- Polynomials, shares and interpolation at zero: golden-dkg/src/shamir.rs. The random generator is
-- a state with an operation that draws a scalar.
pub mod Evaluation
pub mod Interpolation
pub mod Sharing
use golden_rs.Common.{
  ℕ, zero, suc, ◌+◌, ◌-◌, Option, some, none, List, [], ◌∷◌, ◌++◌, length, get_or, if◌then◌else◌,
  ◌==◌, nat_eq, ◌>>=◌,
}
use golden_rs.Algebra.{Field, Rng}

pub record Polynomial (F : Type 0) : Type 0 where
  pub coefficients : List F

module _ {F R : Type 0} (rng : Rng R F) where
  -- `for _ in 0..degree { coefficients.push(Scalar::rand(rng)) }`.
  unfoldable pub draw : ℕ → List F → R → List F × R
  draw zero coefficients r = (coefficients, r)
  draw (suc k) coefficients r =
      let (a, r1) = rng.rand_scalar r in draw k (coefficients ++ (a ∷ [])) r1

  unfoldable pub new_random : F → ℕ → R → Polynomial F × R
  unfolding draw
  new_random secret degree r =
      let (coefficients, r1) = draw degree (secret ∷ []) r in
      (record { coefficients = coefficients }, r1)

module _ {F : Type 0} (f : Field F) where
  -- The rounds of Horner's loop that are left: the next one reads `coefficients[k - 1]`, an index
  -- that is always in range.
  unfoldable pub horner : List F → F → ℕ → F → F
  horner coefficients x zero result = result
  horner coefficients x (suc k) result =
      horner coefficients x k (f.add (f.mul result x) (get_or coefficients k f.zero))

  unfoldable pub evaluate : Polynomial F → F → F
  unfolding horner
  evaluate poly x = horner poly.coefficients x (length poly.coefficients) f.zero

  -- `degree`: a `usize` subtraction, which panics on the empty list.
  unfoldable pub degree : Polynomial F → Option ℕ
  degree poly = elim poly.coefficients [ [] ↦ none | c ∷ cs ↦ some (length cs) ]

  -- The rounds left after `idx`.
  unfoldable pub shares_from : Polynomial F → ℕ → ℕ → List (ℕ × F)
  shares_from poly idx zero = []
  shares_from poly idx (suc left) =
      (idx + 1, evaluate poly (f.from_u64 (idx + 1))) ∷ shares_from poly (suc idx) left

  unfoldable pub generate_shares : Polynomial F → ℕ → List (ℕ × F)
  unfolding shares_from
  generate_shares poly n = shares_from poly 0 n

  -- One round of the inner loop; `expect` panics on two shares with one x value.
  unfoldable pub basis_step : ℕ → ℕ → F → ℕ × F → F → Option F
  basis_step i j xi (xj_id, _) li = if i == j then some li else (do
    inv ← f.inverse (f.add (f.from_u64 xj_id) (f.neg xi))
    some (f.mul li (f.mul (f.from_u64 xj_id) inv)))

  unfoldable pub basis_loop : ℕ → F → ℕ → F → List (ℕ × F) → Option F
  basis_loop i xi j li [] = some li
  basis_loop i xi j li (share ∷ rest) = do
    li' ← basis_step i j xi share li
    basis_loop i xi (suc j) li' rest

  -- The rounds of the outer loop: `i` is the index of the first share that is left.
  unfoldable pub interpolate_loop : List (ℕ × F) → ℕ → F → List (ℕ × F) → Option F
  interpolate_loop shares i result [] = some result
  interpolate_loop shares i result ((xi_id, yi) ∷ rest) = do
    li ← basis_loop i (f.from_u64 xi_id) 0 f.one shares
    interpolate_loop shares (suc i) (f.add result (f.mul yi li)) rest

  unfoldable pub lagrange_interpolate_at_zero : List (ℕ × F) → Option F
  unfolding interpolate_loop basis_loop basis_step
  lagrange_interpolate_at_zero shares = interpolate_loop shares 0 f.zero shares
