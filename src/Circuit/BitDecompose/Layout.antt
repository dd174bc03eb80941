-- ===== src/Circuit/BitDecompose/Layout.antt =====
-- The variables and constraints that a bit decomposition adds
-- (golden-dkg/src/zk_evrf/bit_decompose.rs).
use mathlib.Core.List.{append_assoc, append-nil}
use golden_rs.Common.{
  ℕ, zero, suc, ◌+◌, ◌≡◌, refl, sym, ap, ◌∙◌, Bool, false, List, [], ◌∷◌, ◌++◌, length,
  length-append, length-map, map, get_or, if◌then◌else◌, arith,
}
use golden_rs.Algebra.{Field}
use golden_rs.Circuit.ConstraintSystem.{
  VarIndex, Constraint, ConstraintSystem, alloc_witness, constrain, num_constraints,
}
use golden_rs.Circuit.BitDecompose.{bit_loop, recomp_terms, bit_decompose, constraint_count}

-- n, n + 1, ..., as many as told.
abbrev pub span : ℕ → ℕ → List ℕ
span n zero = []
span n (suc k) = n ∷ span (n + 1) k

length-span : (n k : ℕ) → length (span n k) ≡ k
length-span n zero = refl
length-span n (suc k) = omega (arith, length-span (n + 1) k)

module _ {F : Type 0} (f : Field F) where
  -- k * k = k
  abbrev pub bool_constraint : VarIndex → Constraint F
  bool_constraint v = record { a = (v, f.one) ∷ []; b = (v, f.one) ∷ []; c = (v, f.one) ∷ [] }

  -- A bit in the field, and the bits from the i-th on.
  abbrev pub bit : Bool → F
  bit b = if b then f.one else f.zero

  abbrev pub bit_vals : List Bool → ℕ → ℕ → List F
  bit_vals value_bits i zero = []
  bit_vals value_bits i (suc left) =
      bit (get_or value_bits i false) ∷ bit_vals value_bits (suc i) left

  -- The system with the variables and the constraints of the loop.
  abbrev pub extended : ConstraintSystem F → List Bool → ℕ → ℕ → ConstraintSystem F
  extended cs value_bits i left = record {
    num_vars = cs.num_vars + left;
    num_inputs = cs.num_inputs;
    constraints = cs.constraints ++ map bool_constraint (span cs.num_vars left);
    witness = cs.witness ++ bit_vals value_bits i left;
  }

  pub bit_loop-extended :
      (value_bits : List Bool) (left i : ℕ) (cs : ConstraintSystem F) (bits : List VarIndex)
      → bit_loop f value_bits left i cs bits
        ≡ (bits ++ span cs.num_vars left, extended cs value_bits i left)
  unfolding bit_loop alloc_witness constrain
  bit_loop-extended value_bits zero i cs bits =
      let same : cs.num_vars ≡ cs.num_vars + 0 = omega arith in
      λ z. (
        sym (append-nil bits) z,
        record {
          num_vars = same z;
          num_inputs = cs.num_inputs;
          constraints = sym (append-nil cs.constraints) z;
          witness = sym (append-nil cs.witness) z;
        },
      )
  bit_loop-extended value_bits (suc left) i cs bits =
      let n = cs.num_vars in
      let v = bit (get_or value_bits i false) in
      let (bit_var, cs1) = alloc_witness cs v in
      let term = (bit_var, f.one) ∷ [] in
      let count : n + 1 + left ≡ n + suc left = omega arith in
      bit_loop-extended value_bits left (suc i) (constrain cs1 term term term) (bits ++ (n ∷ []))
      ∙ (λ z. (
        append_assoc bits (n ∷ []) (span (n + 1) left) z,
        record {
          num_vars = count z;
          num_inputs = cs.num_inputs;
          constraints =
              append_assoc cs.constraints (bool_constraint n ∷ [])
                (map bool_constraint (span (n + 1) left)) z;
          witness = append_assoc cs.witness (v ∷ []) (bit_vals value_bits (suc i) left) z;
        },
      ))

  abbrev pub with_value : ConstraintSystem F → F → ConstraintSystem F
  with_value cs value = record {
    num_vars = cs.num_vars + 1;
    num_inputs = cs.num_inputs;
    constraints = cs.constraints;
    witness = cs.witness ++ (value ∷ []);
  }

  pub bit_decompose-extended :
      (to_bits_le : F → List Bool) (cs : ConstraintSystem F) (value : F) (lambda : ℕ)
      → let bits = span (cs.num_vars + 1) (suc lambda) in
        bit_decompose f to_bits_le cs value lambda ≡ (
          record { bits = bits; value_var = cs.num_vars },
          constrain
              (extended (with_value cs value) (to_bits_le value) 0 (suc lambda))
              (recomp_terms f f.one bits)
              ((0, f.one) ∷ [])
              ((cs.num_vars, f.one) ∷ []),
        )
  unfolding bit_decompose alloc_witness
  bit_decompose-extended to_bits_le cs value lambda =
      ap
        (λ (made : List VarIndex × ConstraintSystem F). (
          record { bits = made.0; value_var = cs.num_vars },
          constrain made.1 (recomp_terms f f.one made.0) ((0, f.one) ∷ [])
              ((cs.num_vars, f.one) ∷ []),
        ))
        (bit_loop-extended (to_bits_le value) (suc lambda) 0 (with_value cs value) [])

  -- A decomposition adds as many constraints as `constraint_count` says, and lambda + 2 variables:
  -- the value and its bits.
  pub bit_decompose-constraint_count :
      (to_bits_le : F → List Bool) (cs : ConstraintSystem F) (value : F) (lambda : ℕ)
      → let (decomposition, after) = bit_decompose f to_bits_le cs value lambda in
        (num_constraints after ≡ num_constraints cs + constraint_count lambda)
        × (after.num_vars ≡ cs.num_vars + (lambda + 2))
        × (length decomposition.bits ≡ lambda + 1)
  unfolding num_constraints constraint_count constrain
  bit_decompose-constraint_count to_bits_le cs value lambda =
      let bits = span (cs.num_vars + 1) (suc lambda) in
      rw (bit_decompose-extended to_bits_le cs value lambda) (
        omega (
          arith,
          length-append (cs.constraints ++ map bool_constraint bits) (
              record {
                a = recomp_terms f f.one bits;
                b = (0, f.one) ∷ [];
                c = (cs.num_vars, f.one) ∷ [];
              }
              ∷ []),
          length-append cs.constraints (map bool_constraint bits),
          length-map bool_constraint bits,
          length-span (cs.num_vars + 1) (suc lambda),
        ),
        omega arith,
        omega (arith, length-span (cs.num_vars + 1) (suc lambda)),
      )
