-- ===== src/Circuit/ConstraintSystem.antt =====
-- The rank-1 constraint system of golden-dkg/src/zk_evrf/nonnative.rs. An index out of range
-- panics: `none`.
pub mod Satisfaction
use golden_rs.Common.{
  ℕ, suc, ◌+◌, Bool, true, false, List, [], ◌∷◌, ◌++◌, Option, some, length, get_elem?,
  if◌then◌else◌, ◌==◌, ◌>>=◌,
}
use golden_rs.Algebra.{Field}

abbrev pub VarIndex : Type 0
VarIndex = ℕ

-- Sparse vectors of indices and coefficients.
pub record Constraint (F : Type 0) : Type 0 where
  pub a : List (VarIndex × F)
  pub b : List (VarIndex × F)
  pub c : List (VarIndex × F)

pub record ConstraintSystem (F : Type 0) : Type 0 where
  pub num_vars : ℕ
  pub num_inputs : ℕ
  pub constraints : List (Constraint F)
  pub witness : List F

module _ {F : Type 0} (f : Field F) where
  -- Variable 0 is the constant 1.
  unfoldable pub new_system : ConstraintSystem F
  new_system = record {
    num_vars = 1;
    num_inputs = 0;
    constraints = [];
    witness = f.from_u64 1 ∷ [];
  }

module _ {F : Type 0} where
  unfoldable pub alloc_input : ConstraintSystem F → F → VarIndex × ConstraintSystem F
  alloc_input cs value = (
    cs.num_vars,
    record {
      num_vars = cs.num_vars + 1;
      num_inputs = cs.num_inputs + 1;
      constraints = cs.constraints;
      witness = cs.witness ++ (value ∷ []);
    },
  )

  unfoldable pub alloc_witness : ConstraintSystem F → F → VarIndex × ConstraintSystem F
  alloc_witness cs value = (
    cs.num_vars,
    record {
      num_vars = cs.num_vars + 1;
      num_inputs = cs.num_inputs;
      constraints = cs.constraints;
      witness = cs.witness ++ (value ∷ []);
    },
  )

  unfoldable pub constrain :
      ConstraintSystem F
      → List (VarIndex × F)
      → List (VarIndex × F)
      → List (VarIndex × F)
      → ConstraintSystem F
  constrain cs a b c = record {
    num_vars = cs.num_vars;
    num_inputs = cs.num_inputs;
    constraints = cs.constraints ++ (record { a = a; b = b; c = c } ∷ []);
    witness = cs.witness;
  }

  unfoldable pub num_constraints : ConstraintSystem F → ℕ
  num_constraints cs = length cs.constraints

module _ {F : Type 0} (f : Field F) where
  unfoldable pub enforce_equal_constant : ConstraintSystem F → VarIndex → F → ConstraintSystem F
  enforce_equal_constant cs var constant =
      constrain cs ((var, f.from_u64 1) ∷ []) ((0, f.from_u64 1) ∷ []) ((0, constant) ∷ [])

  unfoldable pub enforce_mul :
      ConstraintSystem F → VarIndex → VarIndex → VarIndex → ConstraintSystem F
  enforce_mul cs a b c =
      constrain cs ((a, f.from_u64 1) ∷ []) ((b, f.from_u64 1) ∷ []) ((c, f.from_u64 1) ∷ [])

  unfoldable pub enforce_add :
      ConstraintSystem F → VarIndex → VarIndex → VarIndex → ConstraintSystem F
  enforce_add cs a b c =
      constrain cs ((a, f.from_u64 1) ∷ (b, f.from_u64 1) ∷ []) ((0, f.from_u64 1) ∷ [])
        ((c, f.from_u64 1) ∷ [])

  unfoldable pub enforce_lc_equals :
      ConstraintSystem F → List (VarIndex × F) → VarIndex → ConstraintSystem F
  enforce_lc_equals cs terms result =
      constrain cs terms ((0, f.from_u64 1) ∷ []) ((result, f.from_u64 1) ∷ [])

  unfoldable pub mul :
      ConstraintSystem F → VarIndex → VarIndex → Option (VarIndex × ConstraintSystem F)
  mul cs a b = do
    a_val ← get_elem? cs.witness a
    b_val ← get_elem? cs.witness b
    let (c, cs1) = alloc_witness cs (f.mul a_val b_val)
    some (c, enforce_mul cs1 a b c)

  -- The fold, from the sum so far.
  unfoldable pub eval_terms : List (VarIndex × F) → List F → F → Option F
  eval_terms [] witness sum = some sum
  eval_terms ((idx, coeff) ∷ lc) witness sum = do
    v ← get_elem? witness idx
    eval_terms lc witness (f.add sum (f.mul v coeff))

  unfoldable pub eval_lc : List (VarIndex × F) → List F → Option F
  eval_lc lc witness = eval_terms lc witness (f.from_u64 0)

  unfoldable pub check_constraint : Constraint F → List F → Option Bool
  check_constraint constraint witness = do
    a_val ← eval_lc constraint.a witness
    b_val ← eval_lc constraint.b witness
    c_val ← eval_lc constraint.c witness
    some (◌==◌ ⦃e = f.eq⦄ (f.mul a_val b_val) c_val)

  -- The loop of `is_satisfied`.
  unfoldable pub check_constraints : List (Constraint F) → List F → Option Bool
  check_constraints [] witness = some true
  check_constraints (constraint ∷ rest) witness =
      let later = check_constraints rest witness in
      (do holds ← check_constraint constraint witness; if holds then later else some false)

  unfoldable pub is_satisfied : ConstraintSystem F → Option Bool
  is_satisfied cs = check_constraints cs.constraints cs.witness
