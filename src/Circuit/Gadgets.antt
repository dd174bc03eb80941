-- ===== src/Circuit/Gadgets.antt =====
-- What the circuits take from ark-r1cs-std and ark-relations: the constraint system under
-- construction, its allocations and its gadgets; and the coordinates of affine points.
use golden_rs.Common.{ℕ, Bool, Bytes, List, Option}
use golden_rs.Dkg.Outcome.{Outcome}
use golden_rs.Circuit.Adapter.{Matrices}

-- `S` is `ConstraintSystemRef<Fr>`, `V` is `FpVar<Fr>`, and `Q` the base field. A variable of the
-- emulated base field is not read again, so its allocation returns the system only. A
-- `SynthesisError` is its text.
pub record Gadgets (F Q S V : Type 0) : Type 0 where
  pub new_system : S
  pub new_input : F → S → Outcome Bytes (V × S)
  pub new_witness : F → S → Outcome Bytes (V × S)
  pub new_emulated_input : Q → S → Outcome Bytes S
  pub new_emulated_witness : Q → S → Outcome Bytes S
  pub to_bits_le : V → S → Outcome Bytes (List Bool × S)
  pub product : V → V → S → S
  pub finalize : S → S
  pub is_satisfied : S → Outcome Bytes Bool
  pub num_instance_variables : S → ℕ
  pub num_witness_variables : S → ℕ
  pub num_constraints : S → ℕ
  pub to_matrices : S → Option (Matrices F)
  pub instance_assignment : S → List F
  pub witness_assignment : S → List F

-- `G1Affine`: the coordinates, which a point at infinity has no use for.
pub record Affine (G Q : Type 0) : Type 0 where
  pub infinity : G → Bool
  pub x : G → Q
  pub y : G → Q
  pub zero : Q
