-- ===== src/Circuit/Evrf.antt =====
-- The eVRF circuits: golden-dkg/src/zk_evrf/circuit.rs, and `capture_circuit` of
-- golden-dkg/src/zk_evrf/adapter.rs.
pub mod Synthesis
pub mod Verifier
use golden_rs.Common.{
  ℕ, ◌-◌, Bool, true, false, Bytes, List, [], ◌∷◌, ◌++◌, Option, none, some, length, map, ltb,
  if◌then◌else◌, ◌==◌, nat_eq,
}
use golden_rs.Algebra.{Field, Curve}
use golden_rs.Dkg.Outcome.{Outcome, ok, err, panic, ◌>>=◌, ok_or, map_err}
use golden_rs.Circuit.Adapter.{CapturedR1cs}
use golden_rs.Circuit.Gadgets.{Gadgets, Affine}

pub record EvrfCircuit (F G : Type 0) : Type 0 where
  pub pk1 : G
  pub pk2 : G
  pub r_commitment : G
  pub beta : F
  pub sk1 : F
  pub dh_shared : G
  pub r_value : F

pub record BatchEvrfCircuit (F G : Type 0) : Type 0 where
  pub sk1 : F
  pub my_pk : G
  pub peers : List (ℕ × G)
  pub pads : List (ℕ × (F × G))
  pub beta : F

module _ {F G : Type 0} {f : Field F} (g : Curve f G) where
  -- `EVRFCircuit::new`.
  unfoldable pub new_circuit : F → G → G → F → G → F → EvrfCircuit F G
  new_circuit sk1 pk1 pk2 r_value r_commitment beta = record {
    pk1 = pk1;
    pk2 = pk2;
    r_commitment = r_commitment;
    beta = beta;
    sk1 = sk1;
    dh_shared = g.smul pk2 sk1;
    r_value = r_value;
  }

  -- `EVRFCircuit::for_verification`; `G1Affine::default()` is the point at infinity.
  unfoldable pub circuit_for_verification : G → G → G → F → EvrfCircuit F G
  circuit_for_verification pk1 pk2 r_commitment beta = record {
    pk1 = pk1;
    pk2 = pk2;
    r_commitment = r_commitment;
    beta = beta;
    sk1 = f.zero;
    dh_shared = g.zero;
    r_value = f.zero;
  }

module _ {F G : Type 0} (f : Field F) where
  -- `BatchEVRFCircuit::new`.
  unfoldable pub new_batch_circuit :
      F → G → List (ℕ × G) → List (ℕ × (F × G)) → F → BatchEvrfCircuit F G
  new_batch_circuit sk1 my_pk peers pads beta = record {
    sk1 = sk1;
    my_pk = my_pk;
    peers = peers;
    pads = pads;
    beta = beta;
  }

  -- `BatchEVRFCircuit::for_verification`.
  unfoldable pub batch_circuit_for_verification :
      G → List (ℕ × G) → List (ℕ × G) → F → BatchEvrfCircuit F G
  batch_circuit_for_verification my_pk peers pad_commitments beta = record {
    sk1 = f.zero;
    my_pk = my_pk;
    peers = peers;
    pads = map (λ c. (c.0, (f.zero, c.1))) pad_commitments;
    beta = beta;
  }

module _ {F G Q S V : Type 0} (gadgets : Gadgets F Q S V) (affine : Affine G Q) where
  -- A coordinate of a point, zero at infinity.
  unfoldable pub x_of : G → Q
  x_of p = if affine.infinity p then affine.zero else affine.x p

  unfoldable pub y_of : G → Q
  y_of p = if affine.infinity p then affine.zero else affine.y p

  -- The two coordinates of a public point.
  unfoldable pub point_input : G → S → Outcome Bytes S
  point_input p s = do
    s1 ← gadgets.new_emulated_input (x_of p) s
    gadgets.new_emulated_input (y_of p) s1

  -- The two coordinates of a private point.
  unfoldable pub point_witness : G → S → Outcome Bytes S
  point_witness p s = do
    s1 ← gadgets.new_emulated_witness (x_of p) s
    gadgets.new_emulated_witness (y_of p) s1

  -- `EVRFCircuit::generate_constraints`; the assertion on the number of bits panics.
  unfoldable pub generate_constraints : EvrfCircuit F G → S → Outcome Bytes S
  generate_constraints circuit s = do
    s1 ← point_input circuit.pk1 s
    s2 ← point_input circuit.pk2 s1
    s3 ← point_input circuit.r_commitment s2
    beta ← gadgets.new_input circuit.beta s3
    sk1 ← gadgets.new_witness circuit.sk1 beta.1
    r ← gadgets.new_witness circuit.r_value sk1.1
    s4 ← point_witness circuit.dh_shared r.1
    bits ← gadgets.to_bits_le sk1.0 s4
    (if ltb (length bits.0) 255 then panic else ok (gadgets.product sk1.0 r.0 bits.1))

module _ {F G : Type 0} where
  -- `pads.iter().find(|(pid, _, _)| pid == peer_id)`.
  unfoldable pub find_pad : ℕ → List (ℕ × (F × G)) → Option (F × G)
  find_pad peer_id [] = none
  find_pad peer_id ((pid, pad) ∷ rest) = if pid == peer_id then some pad else find_pad peer_id rest

module _ {F G Q S V : Type 0} {f : Field F} (g : Curve f G) (gadgets : Gadgets F Q S V)
    (affine : Affine G Q) where
  -- The evaluation for one peer, if it has a pad.
  unfoldable pub peer_constraints : F → V → G → Option (F × G) → S → Outcome Bytes S
  peer_constraints sk1 sk1_var peer_pk none s = ok s
  peer_constraints sk1 sk1_var peer_pk (some (r_value, r_commitment)) s = do
    s1 ← point_input gadgets affine r_commitment s
    r ← gadgets.new_witness r_value s1
    s2 ← point_witness gadgets affine (g.smul peer_pk sk1) r.1
    ok (gadgets.product sk1_var r.0 s2)

  -- The loop over the peers.
  unfoldable pub peers_constraints : F → V → List (ℕ × (F × G)) → List (ℕ × G) → S → Outcome Bytes S
  peers_constraints sk1 sk1_var pads [] s = ok s
  peers_constraints sk1 sk1_var pads ((peer_id, peer_pk) ∷ rest) s = do
    s1 ← point_input gadgets affine peer_pk s
    s2 ← peer_constraints sk1 sk1_var peer_pk (find_pad peer_id pads) s1
    peers_constraints sk1 sk1_var pads rest s2

  -- `BatchEVRFCircuit::generate_constraints`.
  unfoldable pub generate_batch_constraints : BatchEvrfCircuit F G → S → Outcome Bytes S
  generate_batch_constraints circuit s = do
    sk1 ← gadgets.new_witness circuit.sk1 s
    bits ← gadgets.to_bits_le sk1.0 sk1.1
    s1 ← point_input gadgets affine circuit.my_pk bits.1
    beta ← gadgets.new_input circuit.beta s1
    peers_constraints circuit.sk1 sk1.0 circuit.pads circuit.peers beta.1

-- The errors of `capture_circuit`, each text a constructor.
pub data CaptureError : Type 0 where
  synthesis_failed : Bytes → CaptureError
  satisfaction_check_failed : Bytes → CaptureError
  not_satisfied : CaptureError
  no_matrices : CaptureError

module _ {F Q S V : Type 0} (gadgets : Gadgets F Q S V) where
  -- What is read off a finished system, when it is satisfied.
  unfoldable pub capture_system : S → Bool → Outcome CaptureError (CapturedR1cs F)
  capture_system s false = err not_satisfied
  capture_system s true = do
    matrices ← ok_or (gadgets.to_matrices s) no_matrices
    ok (record {
      num_inputs = gadgets.num_instance_variables s - 1;
      num_witness = gadgets.num_witness_variables s;
      num_constraints = gadgets.num_constraints s;
      matrices = matrices;
      assignment = gadgets.instance_assignment s ++ gadgets.witness_assignment s;
    })

  -- `capture_circuit`, for a circuit that is given by its synthesis.
  unfoldable pub capture_circuit : (S → Outcome Bytes S) → Outcome CaptureError (CapturedR1cs F)
  capture_circuit synthesize = do
    built ← map_err synthesis_failed (synthesize gadgets.new_system)
    let s = gadgets.finalize built
    satisfied ← map_err satisfaction_check_failed (gadgets.is_satisfied s)
    capture_system s satisfied
