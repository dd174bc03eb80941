-- ===== src/Circuit/Adapter.antt =====
-- From a constraint system of arkworks to Spartan's: golden-dkg/src/zk_evrf/adapter.rs.
pub mod Rows
use golden_rs.Common.{
  ℕ, suc, ◌+◌, ◌-◌, ltb, Bytes, List, [], ◌∷◌, ◌++◌, length, take, drop, map, if◌then◌else◌, ◌==◌,
  nat_eq,
}
use golden_rs.Dkg.Outcome.{Outcome, ok, panic, ◌>>=◌}

-- `ark_relations::r1cs::Matrix`: rows of coefficients and columns.
abbrev pub Matrix : Type 0 → Type 0
Matrix F = List (List (F × ℕ))

-- `ConstraintMatrices`, its three matrices.
pub record Matrices (F : Type 0) : Type 0 where
  pub a : Matrix F
  pub b : Matrix F
  pub c : Matrix F

pub record CapturedR1cs (F : Type 0) : Type 0 where
  pub num_inputs : ℕ
  pub num_witness : ℕ
  pub num_constraints : ℕ
  pub matrices : Matrices F
  pub assignment : List F

-- A row, a column and a coefficient.
abbrev pub Triple : Type 0 → Type 0
Triple F = ℕ × ℕ × F

-- What ark-spartan takes: the constructors of an instance and of the two assignments, with the
-- texts of their errors.
pub record Spartan (F I V P : Type 0) : Type 0 where
  pub new_instance :
      ℕ → ℕ → ℕ → List (Triple F) → List (Triple F) → List (Triple F) → Outcome Bytes I
  pub new_vars : List F → Outcome Bytes V
  pub new_inputs : List F → Outcome Bytes P

pub record SpartanData (I V P : Type 0) : Type 0 where
  pub spartan_instance : I
  pub vars : V
  pub inputs : P
  pub num_cons : ℕ
  pub num_vars : ℕ
  pub num_inputs : ℕ

unfoldable pub spartan_col : ℕ → ℕ → ℕ → ℕ
spartan_col num_witness num_instance_vars ark_col =
    if ark_col == 0
    then num_witness
    else if ltb ark_col num_instance_vars
    then num_witness + ark_col
    else ark_col - num_instance_vars

module _ {F : Type 0} where
  unfoldable pub convert_row : ℕ → ℕ → ℕ → List (F × ℕ) → List (Triple F)
  convert_row num_witness num_instance_vars row row_entries =
      map (λ e. (row, spartan_col num_witness num_instance_vars e.1, e.0)) row_entries

  -- The rows from `row` on.
  unfoldable pub convert_matrix : ℕ → ℕ → ℕ → Matrix F → List (Triple F)
  convert_matrix num_witness num_instance_vars row [] = []
  convert_matrix num_witness num_instance_vars row (row_entries ∷ rest) =
      convert_row num_witness num_instance_vars row row_entries
      ++ convert_matrix num_witness num_instance_vars (suc row) rest

  -- `assignment[1..num_instance_vars]` and `assignment[num_instance_vars..]`, which panic out of range.
  unfoldable pub split_assignment : ℕ → List F → Outcome Bytes (List F × List F)
  split_assignment num_instance_vars assignment =
      if ltb (length assignment) num_instance_vars
      then panic
      else ok (drop 1 (take num_instance_vars assignment), drop num_instance_vars assignment)

module _ {F I V P : Type 0} (s : Spartan F I V P) where
  unfoldable pub to_spartan : CapturedR1cs F → Outcome Bytes (SpartanData I V P)
  to_spartan captured = do
    let num_instance_vars = captured.num_inputs + 1
    let num_witness = captured.num_witness
    let convert = convert_matrix num_witness num_instance_vars 0
    made ←
        s.new_instance captured.num_constraints num_witness captured.num_inputs
          (convert captured.matrices.a) (convert captured.matrices.b) (convert captured.matrices.c)
    split ← split_assignment num_instance_vars captured.assignment
    vars ← s.new_vars split.1
    inputs ← s.new_inputs split.0
    ok (record {
      spartan_instance = made;
      vars = vars;
      inputs = inputs;
      num_cons = captured.num_constraints;
      num_vars = num_witness;
      num_inputs = captured.num_inputs;
    })

  unfoldable pub to_spartan_instance_only : CapturedR1cs F → Outcome Bytes (I × ℕ × ℕ × ℕ)
  to_spartan_instance_only captured = do
    data_ ← to_spartan captured
    ok (data_.spartan_instance, data_.num_cons, data_.num_vars, data_.num_inputs)
