-- ===== src/Vss/Soundness.antt =====
-- A share passes the check exactly when it lies on the committed polynomial.
use golden_rs.Common.{ℕ, ◌≡◌, sym, ap, ◌∙◌, ◌↔◌, true, List, [], ◌∷◌, map}
use golden_rs.Algebra.{Field, Curve}
use golden_rs.Algebra.Group.{mul-zero, add_identity}
use golden_rs.Shamir.{Polynomial, evaluate}
use golden_rs.Algebra.Polynomials.{value}
use golden_rs.Shamir.Evaluation.{evaluate-value}
use golden_rs.Vss.{commit, share_loop, verify_share, expected_share_commitment}

module _ {F G : Type 0} {f : Field F} (g : Curve f G) where
  -- g^{c * p} * g^{(p * x) * v} is g^{p * (c + x * v)}.
  next_term :
      (c p x v : F)
      → g.add (g.smul (g.smul g.generator c) p) (g.smul g.generator (f.mul (f.mul p x) v))
        ≡ g.smul g.generator (f.mul p (f.add c (f.mul x v)))
  next_term c p x v = rw (
    ← g.smul-mul g.generator c p,
    f.mul_comm c p,
    f.mul_assoc p x v,
    ← g.smul-add g.generator (f.mul p c) (f.mul p (f.mul x v)),
    ← f.mul-add p c (f.mul x v),
  )

  share_loop-value :
      (cs : List F) (x : F) (result : G) (p : F)
      → share_loop g (map (λ c. g.smul g.generator c) cs) x result p
        ≡ g.add result (g.smul g.generator (f.mul p (value f cs x)))
  unfolding share_loop
  share_loop-value [] x result p = rw (mul-zero f p, g.smul-zero g.generator, add_identity g result)
  share_loop-value (c ∷ cs) x result p =
      share_loop-value cs x (g.add result (g.smul (g.smul g.generator c) p)) (f.mul p x)
      ∙ g.add_assoc result _ _
      ∙ ap (g.add result) (next_term c p x (value f cs x))

  -- The commitment to the share of a node, computed from the commitments to the coefficients, is
  -- the commitment to the value of the polynomial at the node.
  pub expected_share_commitment-commit :
      (poly : Polynomial F) (index : ℕ)
      → expected_share_commitment g (commit g poly) index
        ≡ g.smul g.generator (evaluate f poly (f.from_u64 index))
  unfolding expected_share_commitment commit
  expected_share_commitment-commit poly index =
      share_loop-value poly.coefficients (f.from_u64 index) g.zero f.one
      ∙ g.zero-add _
      ∙ ap (g.smul g.generator) (f.one-mul _ ∙ sym (evaluate-value f poly (f.from_u64 index)))

  -- A share passes the check against the commitment to a polynomial exactly when it is the value
  -- of that polynomial at the node.
  pub verify_share-commit :
      (poly : Polynomial F) (index : ℕ) (share : F)
      → (verify_share g (commit g poly) index share ≡ true)
        ↔ (share ≡ evaluate f poly (f.from_u64 index))
  unfolding verify_share expected_share_commitment
  verify_share-commit poly index share =
      let expected = expected_share_commitment-commit poly index in
      let actual = g.smul g.generator share in
      let test = g.eq.beq_iff (expected_share_commitment g (commit g poly) index) actual in
      (
        λ e. g.generator_injective share _ (sym (test.0 e) ∙ expected),
        λ e. test.1 (expected ∙ ap (g.smul g.generator) (sym e)),
      )
