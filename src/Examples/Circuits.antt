-- ===== src/Examples/Circuits.antt =====
-- The bits of a number of the field, and a converted matrix.
use golden_rs.Common.{
  ◌≡◌, ◌⊎◌, ◌+◌, refl, some, true, false, Bool, List, [], ◌∷◌, length, get_or, All, arith,
}
use golden_rs.Dkg.Outcome.{ok}
use golden_rs.Circuit.ConstraintSystem.{
  ConstraintSystem, new_system, alloc_witness, constrain, num_constraints, eval_terms, eval_lc,
  check_constraint, check_constraints, is_satisfied,
}
use golden_rs.Circuit.BitDecompose.{bit_loop, recomp_terms, bit_decompose, constraint_count}
use golden_rs.Circuit.BitDecompose.Layout.{bit_decompose-constraint_count}
use golden_rs.Circuit.BitDecompose.Soundness.{at, weighted, bit_decompose_sound}
use golden_rs.Circuit.BitDecompose.Completeness.{bit_decompose_complete}
use golden_rs.Circuit.Adapter.{Matrix, convert_matrix, split_assignment}
use golden_rs.Circuit.Adapter.Rows.{row_value, triples_value, convert_matrix-same}
use golden_rs.Examples.Toy.{F5, z0, z1, z2, z3, z4, field5}

abbrev bits_of : F5 → List Bool
bits_of z0 = false ∷ false ∷ false ∷ []
bits_of z1 = true ∷ false ∷ false ∷ []
bits_of z2 = false ∷ true ∷ false ∷ []
bits_of z3 = true ∷ true ∷ false ∷ []
bits_of z4 = false ∷ false ∷ true ∷ []

-- The system after the decomposition of 3 into two bits.
abbrev after : ConstraintSystem F5
unfolding bit_decompose bit_loop alloc_witness constrain recomp_terms new_system
after = (bit_decompose field5 bits_of (new_system field5) z3 1).1

bit_decompose_sound_example :
    All
      (λ b.
        (at field5 (z1 ∷ z2 ∷ z0 ∷ z1 ∷ []) b ≡ z0) ⊎ (at field5 (z1 ∷ z2 ∷ z0 ∷ z1 ∷ []) b ≡ z1))
      (bit_decompose field5 bits_of (new_system field5) z3 1).0.bits
    × (at field5
          (z1 ∷ z2 ∷ z0 ∷ z1 ∷ [])
          (bit_decompose field5 bits_of (new_system field5) z3 1).0.value_var
        ≡ weighted field5
            (z1 ∷ z2 ∷ z0 ∷ z1 ∷ [])
            z1
            (bit_decompose field5 bits_of (new_system field5) z3 1).0.bits)
unfolding bit_decompose bit_loop alloc_witness constrain recomp_terms new_system check_constraints
    check_constraint eval_lc eval_terms
bit_decompose_sound_example =
    bit_decompose_sound field5 bits_of (new_system field5) z3 1 (z1 ∷ z2 ∷ z0 ∷ z1 ∷ []) refl refl

bit_decompose_complete_example :
    is_satisfied field5 (bit_decompose field5 bits_of (new_system field5) z3 1).1 ≡ some true
unfolding new_system is_satisfied check_constraints
bit_decompose_complete_example =
    bit_decompose_complete field5 bits_of (new_system field5) z3 1 refl refl refl refl

bit_decompose-constraint_count_example :
    (num_constraints after ≡ num_constraints (new_system field5) + constraint_count 1)
    × (after.num_vars ≡ 1 + 3)
    × (length (bit_decompose field5 bits_of (new_system field5) z3 1).0.bits ≡ 2)
unfolding bit_decompose bit_loop alloc_witness constrain recomp_terms new_system
bit_decompose-constraint_count_example =
    bit_decompose-constraint_count field5 bits_of (new_system field5) z3 1

-- One row: 2 * (constant) + 3 * (input) + 4 * (witness).
abbrev matrix : Matrix F5
matrix = ((z2, 0) ∷ (z3, 1) ∷ (z4, 2) ∷ []) ∷ []

convert_matrix-same_example :
    (split_assignment 2 (z1 ∷ z3 ∷ z2 ∷ []) ≡ ok (z3 ∷ [], z2 ∷ []))
    × (triples_value field5 0 (convert_matrix 1 2 0 matrix) (z2 ∷ z1 ∷ z3 ∷ [])
        ≡ row_value field5 (get_or matrix 0 []) (z1 ∷ z3 ∷ z2 ∷ []))
convert_matrix-same_example =
    convert_matrix-same field5 (z3 ∷ []) (z2 ∷ []) matrix 0
      ((omega arith, (omega arith, (omega arith, tt))), tt)
