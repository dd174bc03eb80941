-- ===== src/Circuit/ConstraintSystem/Satisfaction.antt =====
-- What it means that the constraints are satisfied, and that allocating keeps it
-- (golden-dkg/src/zk_evrf/nonnative.rs).
use golden_rs.Common.{
  ◌≡◌, refl, ap, ◌∙◌, true, List, [], ◌∷◌, ◌++◌, some, All, get_elem?, get_elem?-append, arith,
  >>=-eq-some, inl, inr, Bool-cases,
}
use golden_rs.Algebra.{Field}
use golden_rs.Circuit.ConstraintSystem.{
  Constraint, VarIndex, eval_terms, eval_lc, check_constraint, check_constraints,
}

module _ {F : Type 0} (f : Field F) where
  -- The constraint <a, z> * <b, z> = <c, z>, for the witness z.
  pub record Meets (witness : List F) (k : Constraint F) : Type 0 where
    pub a_val : F
    pub b_val : F
    pub c_val : F
    pub a_is : eval_lc f k.a witness ≡ some a_val
    pub b_is : eval_lc f k.b witness ≡ some b_val
    pub c_is : eval_lc f k.c witness ≡ some c_val
    pub product : f.mul a_val b_val ≡ c_val

  check_constraint-Meets :
      (k : Constraint F) (witness : List F)
      → check_constraint f k witness ≡ some true
      → Meets witness k
  unfolding check_constraint
  check_constraint-Meets k witness e =
      let (x, a_is, e1) = >>=-eq-some (eval_lc f k.a witness) _ e in
      let (y, b_is, e2) = >>=-eq-some (eval_lc f k.b witness) _ e1 in
      let (z, c_is, e3) = >>=-eq-some (eval_lc f k.c witness) _ e2 in
      record {
        a_val = x;
        b_val = y;
        c_val = z;
        a_is = a_is;
        b_is = b_is;
        c_is = c_is;
        product = ground (arith, e3, f.eq.beq_iff (f.mul x y) z);
      }

  Meets-check_constraint :
      (k : Constraint F) (witness : List F)
      → Meets witness k
      → check_constraint f k witness ≡ some true
  unfolding check_constraint
  Meets-check_constraint k witness m =
      rw (m.a_is, m.b_is, m.c_is)
        (ap some ((f.eq.beq_iff (f.mul m.a_val m.b_val) m.c_val).1 m.product))

  pub check_constraints-All :
      (ks : List (Constraint F)) (witness : List F)
      → check_constraints f ks witness ≡ some true
      → All (Meets witness) ks
  unfolding check_constraints
  check_constraints-All [] witness e = tt
  check_constraints-All (k ∷ ks) witness e =
      let (holds, now, later) = >>=-eq-some (check_constraint f k witness) _ e in
      elim (Bool-cases holds) [
        | inl met ↦ (
          check_constraint-Meets k witness (now ∙ ap some met),
          check_constraints-All ks witness (ground (arith, later, met)),
        )
        | inr missed ↦ absurd (ground (arith, later, missed))
      ]

  pub All-check_constraints :
      (ks : List (Constraint F)) (witness : List F)
      → All (Meets witness) ks
      → check_constraints f ks witness ≡ some true
  unfolding check_constraints
  All-check_constraints [] witness m = refl
  All-check_constraints (k ∷ ks) witness m =
      rw (Meets-check_constraint k witness m.0) (All-check_constraints ks witness m.1)

  eval_terms-append :
      (lc : List (VarIndex × F)) (witness more : List F) (sum : F) {v : F}
      → eval_terms f lc witness sum ≡ some v
      → eval_terms f lc (witness ++ more) sum ≡ some v
  unfolding eval_terms
  eval_terms-append [] witness more sum e = e
  eval_terms-append ((idx, coeff) ∷ lc) witness more sum {v} e =
      let (x, found, later) = >>=-eq-some (get_elem? witness idx) _ e in
      rw (get_elem?-append witness more idx {a = x} found)
        (eval_terms-append lc witness more (f.add sum (f.mul x coeff)) {v = v} later)

  -- New variables do not disturb a constraint.
  pub Meets-append :
      (k : Constraint F) (witness more : List F) → Meets witness k → Meets (witness ++ more) k
  unfolding eval_lc
  Meets-append k witness more m = record {
    a_val = m.a_val;
    b_val = m.b_val;
    c_val = m.c_val;
    a_is = eval_terms-append k.a witness more (f.from_u64 0) {v = m.a_val} m.a_is;
    b_is = eval_terms-append k.b witness more (f.from_u64 0) {v = m.b_val} m.b_is;
    c_is = eval_terms-append k.c witness more (f.from_u64 0) {v = m.c_val} m.c_is;
    product = m.product;
  }
