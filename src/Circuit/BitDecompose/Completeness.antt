-- ===== src/Circuit/BitDecompose/Completeness.antt =====
-- The prover's witness satisfies a bit decomposition of a value that fits
-- (golden-dkg/src/zk_evrf/bit_decompose.rs).
use mathlib.Core.List.{append_assoc}
use golden_rs.Common.{
  ℕ, zero, suc, ◌+◌, ◌≡◌, sym, ap, ap₂, subst, ◌∙◌, Bool, true, false, List, [], ◌∷◌, ◌++◌, length,
  length-append, map, All, All-append, All-zip_with, get_or, get_elem?, get_elem?-append,
  get_elem?-length, some, arith,
}
use golden_rs.Algebra.{Field}
use golden_rs.Algebra.Group.{add-zero, mul-one, zero-mul}
use golden_rs.Circuit.ConstraintSystem.{
  VarIndex, Constraint, ConstraintSystem, eval_terms, eval_lc, check_constraints, is_satisfied,
  constrain,
}
use golden_rs.Circuit.ConstraintSystem.Satisfaction.{
  Meets, Meets-append, check_constraints-All, All-check_constraints,
}
use golden_rs.Circuit.BitDecompose.{recomp_terms, bit_decompose}
use golden_rs.Circuit.BitDecompose.Layout.{
  span, bool_constraint, bit, bit_vals, bit_decompose-extended,
}

module _ {F : Type 0} (f : Field F) where
  eval_lc-one :
      (witness : List F) (i : VarIndex) (v : F)
      → get_elem? witness i ≡ some v
      → eval_lc f ((i, f.one) ∷ []) witness ≡ some v
  unfolding eval_lc eval_terms
  eval_lc-one witness i v found =
      rw found (ap some (ap₂ f.add f.from_u64-zero (mul-one f v) ∙ f.zero-add v))

  bit_squared : (b : Bool) → f.mul (bit f b) (bit f b) ≡ bit f b
  bit_squared true = f.one-mul f.one
  bit_squared false = zero-mul f f.zero

  Meets-bool_constraint :
      (witness : List F) (i : VarIndex) (b : Bool)
      → get_elem? witness i ≡ some (bit f b)
      → Meets f witness (bool_constraint f i)
  Meets-bool_constraint witness i b found =
      let is = eval_lc-one witness i (bit f b) found in
      record {
        a_val = bit f b;
        b_val = bit f b;
        c_val = bit f b;
        a_is = is;
        b_is = is;
        c_is = is;
        product = bit_squared b;
      }

  -- The bits of the span stand behind the variables before them.
  Meets-bits :
      (before : List F) (value_bits : List Bool) (i left : ℕ)
      → All
          (Meets f (before ++ bit_vals f value_bits i left))
          (map (bool_constraint f) (span (length before) left))
  Meets-bits before value_bits i zero = tt
  Meets-bits before value_bits i (suc left) =
      let v = bit f (get_or value_bits i false) in
      let rest = bit_vals f value_bits (suc i) left in
      (
        Meets-bool_constraint (before ++ (v ∷ rest)) (length before) (get_or value_bits i false)
            (get_elem?-length before rest v),
        subst (λ w. All (Meets f w) (map (bool_constraint f) (span (length before + 1) left)))
            (append_assoc before (v ∷ []) rest)
            (subst
              (λ n.
                All (Meets f ((before ++ (v ∷ [])) ++ rest))
                  (map (bool_constraint f) (span n left)))
              (length-append before (v ∷ []))
              (Meets-bits (before ++ (v ∷ [])) value_bits (suc i) left)),
      )

  -- p * b_i + 2 p * b_(i + 1) + ...: the number that the bits from the i-th on spell.
  abbrev pub spelled : List Bool → F → ℕ → ℕ → F
  spelled value_bits p i zero = f.zero
  spelled value_bits p i (suc left) =
      f.add (f.mul (bit f (get_or value_bits i false)) p)
        (spelled value_bits (f.add p p) (suc i) left)

  eval_terms-spelled :
      (before : List F) (value_bits : List Bool) (p sum : F) (i left : ℕ)
      → eval_terms f
          (recomp_terms f p (span (length before) left))
          (before ++ bit_vals f value_bits i left)
          sum
        ≡ some (f.add sum (spelled value_bits p i left))
  unfolding eval_terms recomp_terms
  eval_terms-spelled before value_bits p sum i zero = ap some (sym (add-zero f sum))
  eval_terms-spelled before value_bits p sum i (suc left) =
      let v = bit f (get_or value_bits i false) in
      let rest = bit_vals f value_bits (suc i) left in
      rw (get_elem?-length before rest v) (
        ap₂
          (λ n w. eval_terms f (recomp_terms f (f.add p p) (span n left)) w (f.add sum (f.mul v p)))
          (sym (length-append before (v ∷ []))) (sym (append_assoc before (v ∷ []) rest))
        ∙ eval_terms-spelled (before ++ (v ∷ [])) value_bits (f.add p p) (f.add sum (f.mul v p))
            (suc i) left
        ∙ ap some (f.add_assoc sum (f.mul v p) (spelled value_bits (f.add p p) (suc i) left)))

  Meets-recomposition :
      (before : List F) (value_bits : List Bool) (n : ℕ) (value : F) (lambda : ℕ)
      → length before ≡ n + 1
      → get_elem? before 0 ≡ some f.one
      → get_elem? before n ≡ some value
      → spelled value_bits f.one 0 (suc lambda) ≡ value
      → Meets f (before ++ bit_vals f value_bits 0 (suc lambda)) (record {
        a = recomp_terms f f.one (span (n + 1) (suc lambda));
        b = (0, f.one) ∷ [];
        c = (n, f.one) ∷ [];
      })
  unfolding eval_lc
  Meets-recomposition before value_bits n value lambda start unit here fits =
      let bits = bit_vals f value_bits 0 (suc lambda) in
      let w = before ++ bits in
      record {
        a_val = value;
        b_val = f.one;
        c_val = value;
        a_is =
            ap (λ k. eval_terms f (recomp_terms f f.one (span k (suc lambda))) w (f.from_u64 0))
              (sym start)
            ∙ eval_terms-spelled before value_bits f.one (f.from_u64 0) 0 (suc lambda)
            ∙ ap some (ap₂ f.add f.from_u64-zero fits ∙ f.zero-add value);
        b_is = eval_lc-one w 0 f.one (get_elem?-append before bits 0 {a = f.one} unit);
        c_is = eval_lc-one w n value (get_elem?-append before bits n {a = value} here);
        product = mul-one f value;
      }

  -- A satisfied system, with its variables counted and the constant 1 in variable 0, stays satisfied
  -- after `bit_decompose` of a value that its first lambda + 1 bits spell.
  pub bit_decompose_complete :
      (to_bits_le : F → List Bool) (cs : ConstraintSystem F) (value : F) (lambda : ℕ)
      → cs.num_vars ≡ length cs.witness
      → get_elem? cs.witness 0 ≡ some f.one
      → spelled (to_bits_le value) f.one 0 (suc lambda) ≡ value
      → is_satisfied f cs ≡ some true
      → is_satisfied f (bit_decompose f to_bits_le cs value lambda).1 ≡ some true
  unfolding is_satisfied constrain
  bit_decompose_complete to_bits_le cs value lambda counted unit fits satisfied =
      let value_bits = to_bits_le value in
      let before = cs.witness ++ (value ∷ []) in
      let bits = bit_vals f value_bits 0 (suc lambda) in
      let w = before ++ bits in
      let vars = span (cs.num_vars + 1) (suc lambda) in
      let start : length before ≡ cs.num_vars + 1 =
        omega (arith, length-append cs.witness (value ∷ []), counted) in
      let r : Constraint F = record {
        a = recomp_terms f f.one vars;
        b = (0, f.one) ∷ [];
        c = (cs.num_vars, f.one) ∷ [];
      } in
      let olds : All (Meets f w) cs.constraints =
        All-zip_with (Meets f cs.witness) (Meets f cs.witness) (Meets f w) cs.constraints
          (λ k m _. Meets-append f k before bits (Meets-append f k cs.witness (value ∷ []) m))
          (check_constraints-All f cs.constraints cs.witness satisfied)
          (check_constraints-All f cs.constraints cs.witness satisfied) in
      let bools : All (Meets f w) (map (bool_constraint f) vars) =
        subst (λ n. All (Meets f w) (map (bool_constraint f) (span n (suc lambda)))) start
          (Meets-bits before value_bits 0 (suc lambda)) in
      let front =
        (All-append (Meets f w) cs.constraints (map (bool_constraint f) vars)).1 (olds, bools) in
      let whole =
        (All-append (Meets f w) (cs.constraints ++ map (bool_constraint f) vars) (r ∷ [])).1 (
          front,
          (
            Meets-recomposition before value_bits cs.num_vars value lambda start unit_there
                value_there fits,
            tt,
          ),
        ) in
      ap (λ d. check_constraints f d.1.constraints d.1.witness)
        (bit_decompose-extended f to_bits_le cs value lambda)
      ∙ All-check_constraints f ((cs.constraints ++ map (bool_constraint f) vars) ++ (r ∷ [])) w
          whole
    where
      unit_there : get_elem? (cs.witness ++ (value ∷ [])) 0 ≡ some f.one
      unit_there = get_elem?-append cs.witness (value ∷ []) 0 {a = f.one} unit

      value_there : get_elem? (cs.witness ++ (value ∷ [])) cs.num_vars ≡ some value
      value_there =
          ap (get_elem? (cs.witness ++ (value ∷ []))) counted ∙ get_elem?-length cs.witness [] value
