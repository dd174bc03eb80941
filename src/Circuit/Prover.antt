-- ===== src/Circuit/Prover.antt =====
-- The proofs of the eVRF circuits: golden-dkg/src/zk_evrf/mod.rs.
pub mod Agreement
use golden_rs.Common.{ℕ, Bool, true, false, Bytes, List, [], ◌∷◌, if◌then◌else◌}
use golden_rs.Algebra.{Field, Curve}
use golden_rs.Dkg.Outcome.{Outcome, ok, err, ◌>>=◌, map_err}
use golden_rs.Circuit.Adapter.{Spartan, SpartanData, to_spartan}
use golden_rs.Circuit.Gadgets.{Gadgets, Affine}
use golden_rs.Circuit.Evrf.{
  CaptureError, capture_circuit, new_circuit, circuit_for_verification, generate_constraints,
  new_batch_circuit, batch_circuit_for_verification, generate_batch_constraints,
}

-- What the proofs take from ark-spartan: `NIZKGens::new`, `NIZK::prove` and `verify` with the label
-- of the transcript, and the compressed serialization.
pub record Nizk (I W P N Gens : Type 0) : Type 0 where
  pub new_gens : ℕ → ℕ → ℕ → Gens
  pub prove : I → W → P → Gens → Bytes → N
  pub verify : N → I → P → Bytes → Gens → Bool
  pub serialize : N → Outcome Bytes Bytes
  pub deserialize : Bytes → Outcome Bytes N

pub record EvrfProof : Type 0 where
  pub proof_bytes : Bytes
  pub num_constraints : ℕ
  pub num_vars : ℕ
  pub num_inputs : ℕ
  pub is_batch : Bool

-- The texts of the errors, each a constructor.
pub data EvrfError : Type 0 where
  capture_failed : CaptureError → EvrfError
  spartan_failed : Bytes → EvrfError
  serialize_failed : Bytes → EvrfError
  deserialize_failed : Bytes → EvrfError
  deserialize_batch_failed : Bytes → EvrfError
  use_verify_evrf_batch : EvrfError

abbrev pub proof_label : Bytes
proof_label =
    b'g' ∷ b'o' ∷ b'l' ∷ b'd' ∷ b'e' ∷ b'n' ∷ b'-' ∷ b'e' ∷ b'v' ∷ b'r' ∷ b'f' ∷ b'-' ∷ b'p' ∷ b'r'
    ∷ b'o' ∷ b'o' ∷ b'f' ∷ []

abbrev pub batch_label : Bytes
batch_label =
    b'g' ∷ b'o' ∷ b'l' ∷ b'd' ∷ b'e' ∷ b'n' ∷ b'-' ∷ b'e' ∷ b'v' ∷ b'r' ∷ b'f' ∷ b'-' ∷ b'b' ∷ b'a'
    ∷ b't' ∷ b'c' ∷ b'h' ∷ b'-' ∷ b'p' ∷ b'r' ∷ b'o' ∷ b'o' ∷ b'f' ∷ []

module _ {F Q S V I W P N Gens : Type 0} (gadgets : Gadgets F Q S V) (spartan : Spartan F I W P)
    (nizk : Nizk I W P N Gens) where
  -- `NIZKGens::new` of the sizes of an instance.
  unfoldable pub gens_of : SpartanData I W P → Gens
  gens_of d = nizk.new_gens d.num_cons d.num_vars d.num_inputs

  -- The body that `prove_evrf` and `prove_evrf_batch` share.
  unfoldable pub prove_circuit : Bool → Bytes → (S → Outcome Bytes S) → Outcome EvrfError EvrfProof
  prove_circuit is_batch label synthesize = do
    captured ← map_err capture_failed (capture_circuit gadgets synthesize)
    d ← map_err spartan_failed (to_spartan spartan captured)
    proof_bytes ←
        map_err serialize_failed
          (nizk.serialize (nizk.prove d.spartan_instance d.vars d.inputs (gens_of d) label))
    ok (record {
      proof_bytes = proof_bytes;
      num_constraints = d.num_cons;
      num_vars = d.num_vars;
      num_inputs = d.num_inputs;
      is_batch = is_batch;
    })

  -- The body that `verify_evrf` and `verify_evrf_batch` share.
  unfoldable pub verify_circuit :
      (Bytes → EvrfError) → Bytes → (S → Outcome Bytes S) → EvrfProof → Outcome EvrfError Bool
  verify_circuit failed label synthesize proof = do
    captured ← map_err capture_failed (capture_circuit gadgets synthesize)
    d ← map_err spartan_failed (to_spartan spartan captured)
    nizk_proof ← map_err failed (nizk.deserialize proof.proof_bytes)
    ok (nizk.verify nizk_proof d.spartan_instance d.inputs label (gens_of d))

module _ {F G Q S V I W P N Gens : Type 0} {f : Field F} (g : Curve f G) (gadgets : Gadgets F Q S V)
    (affine : Affine G Q) (spartan : Spartan F I W P) (nizk : Nizk I W P N Gens) where
  unfoldable pub prove_evrf : F → G → G → F → G → F → Outcome EvrfError EvrfProof
  prove_evrf sk1 pk1 pk2 r_value r_commitment beta =
      prove_circuit gadgets spartan nizk false proof_label
        (generate_constraints gadgets affine (new_circuit g sk1 pk1 pk2 r_value r_commitment beta))

  unfoldable pub prove_evrf_batch :
      F → G → List (ℕ × G) → List (ℕ × (F × G)) → F → Outcome EvrfError EvrfProof
  prove_evrf_batch sk1 my_pk peers pads beta =
      prove_circuit gadgets spartan nizk true batch_label (
        generate_batch_constraints g gadgets affine (new_batch_circuit f sk1 my_pk peers pads beta))

  unfoldable pub verify_evrf : G → G → G → F → EvrfProof → Outcome EvrfError Bool
  verify_evrf pk1 pk2 r_commitment beta proof =
      if proof.is_batch
      then err use_verify_evrf_batch
      else verify_circuit gadgets spartan nizk deserialize_failed proof_label
          (generate_constraints gadgets affine
            (circuit_for_verification g pk1 pk2 r_commitment beta))
          proof

  unfoldable pub verify_evrf_batch :
      G → List (ℕ × G) → List (ℕ × G) → F → EvrfProof → Outcome EvrfError Bool
  verify_evrf_batch pk1 peers pad_commitments beta proof =
      verify_circuit gadgets spartan nizk deserialize_batch_failed batch_label
        (generate_batch_constraints g gadgets affine
          (batch_circuit_for_verification f pk1 peers pad_commitments beta))
        proof
