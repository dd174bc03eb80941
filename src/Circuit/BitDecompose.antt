-- ===== src/Circuit/BitDecompose.antt =====
-- The bit decomposition of golden-dkg/src/zk_evrf/bit_decompose.rs.
pub mod Layout
pub mod Soundness
pub mod Completeness
use golden_rs.Common.{ℕ, zero, suc, ◌+◌, Bool, false, List, [], ◌∷◌, ◌++◌, get_or, if◌then◌else◌}
use golden_rs.Algebra.{Field}
use golden_rs.Circuit.ConstraintSystem.{VarIndex, ConstraintSystem, alloc_witness, constrain}

pub record BitDecomposition : Type 0 where
  pub bits : List VarIndex
  pub value_var : VarIndex

module _ {F : Type 0} (f : Field F) where
  -- The loop over the bits: `left` rounds, the next one for bit `i`.
  unfoldable pub bit_loop :
      List Bool → ℕ → ℕ → ConstraintSystem F → List VarIndex → List VarIndex × ConstraintSystem F
  bit_loop value_bits zero i cs bits = (bits, cs)
  bit_loop value_bits (suc left) i cs bits =
      let bit_val = if get_or value_bits i false then f.one else f.zero in
      let (bit_var, cs1) = alloc_witness cs bit_val in
      let term = (bit_var, f.one) ∷ [] in
      bit_loop value_bits left (suc i) (constrain cs1 term term term) (bits ++ (bit_var ∷ []))

  -- The terms of the recomposition, the next one with this power of two.
  unfoldable pub recomp_terms : F → List VarIndex → List (VarIndex × F)
  recomp_terms power_of_two [] = []
  recomp_terms power_of_two (bit_var ∷ bits) =
      (bit_var, power_of_two) ∷ recomp_terms (f.add power_of_two power_of_two) bits

  -- `to_bits_le` is `value.into_bigint().to_bits_le()` of ark-ff.
  unfoldable pub bit_decompose :
      (F → List Bool) → ConstraintSystem F → F → ℕ → BitDecomposition × ConstraintSystem F
  bit_decompose to_bits_le cs value lambda =
      let (value_var, cs1) = alloc_witness cs value in
      let (bits, cs2) = bit_loop (to_bits_le value) (suc lambda) 0 cs1 [] in
      (
        record { bits = bits; value_var = value_var },
        constrain cs2 (recomp_terms f.one bits) ((0, f.one) ∷ []) ((value_var, f.one) ∷ []),
      )

unfoldable pub constraint_count : ℕ → ℕ
constraint_count lambda = lambda + 2
