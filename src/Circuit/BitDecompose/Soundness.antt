-- ===== src/Circuit/BitDecompose/Soundness.antt =====
-- What a satisfied bit decomposition says of its variables
-- (golden-dkg/src/zk_evrf/bit_decompose.rs).
use mathlib.Core.Option.{some-injective}
use golden_rs.Common.{
  ℕ, suc, ◌+◌, ◌≡◌, ◌⊎◌, sym, ap, ap₂, ◌∙◌, Bool, true, Bool-cases, List, [], ◌∷◌, ◌++◌, map, All,
  All-append, get_or, get_elem?, get_or-get_elem?, some, arith, >>=-eq-some, inl, inr,
}
use golden_rs.Algebra.{Field}
use golden_rs.Algebra.Group.{add-zero, mul-one}
use golden_rs.Algebra.Polynomials.{no_zero_divisors, sub-zero, neg-mul}
use golden_rs.Circuit.ConstraintSystem.{
  VarIndex, Constraint, ConstraintSystem, eval_terms, eval_lc, check_constraints, constrain,
}
use golden_rs.Circuit.ConstraintSystem.Satisfaction.{Meets, check_constraints-All}
use golden_rs.Circuit.BitDecompose.{recomp_terms, bit_decompose}
use golden_rs.Circuit.BitDecompose.Layout.{span, bool_constraint, bit_decompose-extended}

module _ {F : Type 0} (f : Field F) where
  -- The value of a variable.
  abbrev pub at : List F → VarIndex → F
  at witness i = get_or witness i f.zero

  -- p * k_0 + 2 p * k_1 + 4 p * k_2 + ...
  abbrev pub weighted : List F → F → List VarIndex → F
  weighted witness p [] = f.zero
  weighted witness p (b ∷ bits) = f.add (f.mul (at witness b) p) (weighted witness (f.add p p) bits)

  eval_terms-weighted :
      (witness : List F) (p sum : F) (bits : List VarIndex) {v : F}
      → eval_terms f (recomp_terms f p bits) witness sum ≡ some v
      → v ≡ f.add sum (weighted witness p bits)
  unfolding eval_terms recomp_terms
  eval_terms-weighted witness p sum [] e = sym (some-injective _ _ e) ∙ sym (add-zero f sum)
  eval_terms-weighted witness p sum (b ∷ bits) {v} e =
      let (x, found, later) = >>=-eq-some (get_elem? witness b) _ e in
      eval_terms-weighted witness (f.add p p) (f.add sum (f.mul x p)) bits {v = v} later
      ∙ f.add_assoc sum (f.mul x p) (weighted witness (f.add p p) bits)
      ∙ ap (λ t. f.add sum (f.add (f.mul t p) (weighted witness (f.add p p) bits)))
          (sym (get_or-get_elem? witness b f.zero {a = x} found))

  pub eval_lc-variable :
      (witness : List F) (i : VarIndex) {v : F}
      → eval_lc f ((i, f.one) ∷ []) witness ≡ some v
      → v ≡ at witness i
  unfolding eval_lc eval_terms
  eval_lc-variable witness i e =
      let (x, found, later) = >>=-eq-some (get_elem? witness i) _ e in
      sym (some-injective _ _ later)
      ∙ ap₂ f.add f.from_u64-zero (mul-one f x)
      ∙ f.zero-add x
      ∙ sym (get_or-get_elem? witness i f.zero {a = x} found)

  idempotent : (x : F) → f.mul x x ≡ x → (x ≡ f.zero) ⊎ (x ≡ f.one)
  idempotent x e = elim (Bool-cases (f.eq.beq x f.zero)) [
    | inl empty ↦ inl ((f.eq.beq_iff x f.zero).0 empty)
    | inr set ↦ inr (
        sub-zero f x f.one (
          no_zero_divisors f x (f.add x (f.neg f.one))
            (λ z. ground (arith, set, (f.eq.beq_iff x f.zero).1 z))
            (f.mul-add x x (f.neg f.one)
              ∙ ap₂ f.add e
                  (f.mul_comm x (f.neg f.one) ∙ neg-mul f f.one x ∙ ap f.neg (f.one-mul x))
              ∙ f.add-neg x)))
  ]

  bits_boolean :
      (witness : List F) (bits : List VarIndex)
      → All (Meets f witness) (map (bool_constraint f) bits)
      → All (λ b. (at witness b ≡ f.zero) ⊎ (at witness b ≡ f.one)) bits
  bits_boolean witness [] m = tt
  bits_boolean witness (b ∷ bits) m =
      let is = eval_lc-variable witness b {v = m.0.a_val} m.0.a_is in
      let same = eval_lc-variable witness b {v = m.0.b_val} m.0.b_is in
      let squared = eval_lc-variable witness b {v = m.0.c_val} m.0.c_is in
      (
        idempotent (at witness b) (ap₂ f.mul (sym is) (sym same) ∙ m.0.product ∙ squared),
        bits_boolean witness bits m.1,
      )

  -- Whatever witness satisfies the constraints after `bit_decompose`, the prover's or another one,
  -- with the constant 1 in variable 0: every bit variable is 0 or 1, and the variable of the value is
  -- the sum of the bits, weighted with the powers of two.
  pub bit_decompose_sound :
      (to_bits_le : F → List Bool) (cs : ConstraintSystem F) (value : F) (lambda : ℕ)
      (witness : List F)
      → at witness 0 ≡ f.one
      → let (decomposition, after) = bit_decompose f to_bits_le cs value lambda in
        check_constraints f after.constraints witness ≡ some true
        → All (λ b. (at witness b ≡ f.zero) ⊎ (at witness b ≡ f.one)) decomposition.bits
          × (at witness decomposition.value_var ≡ weighted witness f.one decomposition.bits)
  unfolding constrain eval_lc
  bit_decompose_sound to_bits_le cs value lambda witness one satisfied =
      let bits = span (cs.num_vars + 1) (suc lambda) in
      let r : Constraint F = record {
        a = recomp_terms f f.one bits;
        b = (0, f.one) ∷ [];
        c = (cs.num_vars, f.one) ∷ [];
      } in
      let shape = bit_decompose-extended f to_bits_le cs value lambda in
      let met =
        check_constraints-All f ((cs.constraints ++ map (bool_constraint f) bits) ++ (r ∷ []))
          witness (ap (λ d. check_constraints f d.1.constraints witness) (sym shape) ∙ satisfied) in
      let (front, last) =
        (All-append (Meets f witness) (cs.constraints ++ map (bool_constraint f) bits) (r ∷ [])).0
          met in
      let booleans =
        ((All-append (Meets f witness) cs.constraints (map (bool_constraint f) bits)).0 front).1 in
      let m = last.0 in
      let sum =
        eval_terms-weighted witness f.one (f.from_u64 0) bits {v = m.a_val} m.a_is
        ∙ ap (λ t. f.add t (weighted witness f.one bits)) f.from_u64-zero
        ∙ f.zero-add (weighted witness f.one bits) in
      let unit = eval_lc-variable witness 0 {v = m.b_val} m.b_is ∙ one in
      rw shape (
        bits_boolean witness bits booleans,
        sym (eval_lc-variable witness cs.num_vars {v = m.c_val} m.c_is)
            ∙ sym m.product
            ∙ ap₂ f.mul sum unit
            ∙ mul-one f (weighted witness f.one bits),
      )
