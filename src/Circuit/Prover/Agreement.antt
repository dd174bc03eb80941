-- ===== src/Circuit/Prover/Agreement.antt =====
-- What a verifier of an eVRF proof checks it against (golden-dkg/src/zk_evrf/mod.rs).
use golden_rs.Common.{
  ℕ, ◌+◌, ◌≡◌, refl, ap, ◌∙◌, sym, Bool, true, Bytes, List, ◌++◌, length, map, drop, subst,
  take-append, drop-append, length-append, le→ltb, arith,
}
use golden_rs.Algebra.{Field, Curve}
use golden_rs.Dkg.Outcome.{Outcome, ok, err, panic, >>=-eq-ok, map_err, ok_value}
use golden_rs.Circuit.Adapter.{
  CapturedR1cs, Spartan, SpartanData, split_assignment, to_spartan, convert_matrix, Matrix, Triple,
}
use golden_rs.Circuit.Gadgets.{Gadgets, Affine}
use golden_rs.Circuit.Evrf.{capture_circuit, new_batch_circuit, generate_batch_constraints}
use golden_rs.Circuit.Evrf.Synthesis.{SameOutcome, SameStatement, Uniform}
use golden_rs.Circuit.Evrf.Verifier.{capture_circuit-generate_batch_constraints}
use golden_rs.Circuit.Prover.{
  Nizk, EvrfProof, EvrfError, capture_failed, spartan_failed, serialize_failed, gens_of,
  prove_circuit, verify_circuit, prove_evrf_batch, verify_evrf_batch, batch_label,
  deserialize_batch_failed,
}

map_err-eq-ok :
    {D E A : Type 0} (h : D → E) (m : Outcome D A) {a : A} → map_err h m ≡ ok a → m ≡ ok a
map_err-eq-ok h (ok b) e = cc
map_err-eq-ok h (err x) e = cc
map_err-eq-ok h panic e = cc

SameOutcome-ok :
    {E A : Type 0} (R : A → A → Type 0) (m n : Outcome E A) (a : A)
    → m ≡ ok a
    → SameOutcome R m n
    → (b : A) × (n ≡ ok b) × R a b
SameOutcome-ok R (ok x) (ok b) a e same = (b, refl, subst (λ y. R y b) (ok_value x a e) same)
SameOutcome-ok R (ok x) (err y) a e same = absurd same
SameOutcome-ok R (ok x) panic a e same = absurd same
SameOutcome-ok R (err x) n a e same = cc
SameOutcome-ok R panic n a e same = cc

module _ {F : Type 0} where
  split_assignment_lem :
      (public witness : List F) (n : ℕ)
      → length public ≡ n
      → split_assignment n (public ++ witness) ≡ ok (drop 1 public, witness)
  unfolding split_assignment
  split_assignment_lem public witness n e =
      rw
        (
          sym e,
          le→ltb (length (public ++ witness)) (length public)
              (omega (arith, length-append public witness)),
          take-append public witness,
          drop-append public witness,
        )
        refl

-- What ark-spartan documents: the assignments are vectors of any length, and a serialized proof is
-- read back.
pub record Faithful {F I W P N Gens : Type 0} (spartan : Spartan F I W P) (nizk : Nizk I W P N Gens)
    : Type 0 where
  pub new_vars-ok : (values : List F) → (vars : W) × (spartan.new_vars values ≡ ok vars)
  pub serialize-round_trip :
      (proof : N) (bytes : Bytes)
      → nizk.serialize proof ≡ ok bytes
      → nizk.deserialize bytes ≡ ok proof

-- Two conversions to Spartan that agree but for the witnesses.
abbrev SameSpartan : {I W P : Type 0} → SpartanData I W P → SpartanData I W P → Type 0
SameSpartan d d' =
    (d.spartan_instance ≡ d'.spartan_instance)
    × (d.inputs ≡ d'.inputs)
    × (d.num_cons ≡ d'.num_cons)
    × (d.num_vars ≡ d'.num_vars)
    × (d.num_inputs ≡ d'.num_inputs)

module _ {F Q S V I W P N Gens : Type 0} (gadgets : Gadgets F Q S V) (spartan : Spartan F I W P)
    (nizk : Nizk I W P N Gens) (faithful : Faithful spartan nizk) where
  to_spartan-SameStatement :
      (c c' : CapturedR1cs F) (d : SpartanData I W P)
      → SameStatement c c'
      → to_spartan spartan c ≡ ok d
      → (d' : SpartanData I W P) × (to_spartan spartan c' ≡ ok d') × SameSpartan d d'
  unfolding to_spartan
  to_spartan-SameStatement c c' d
        (e_in, e_wit, e_con, e_mat, (public, witness, witness', len, e, e')) made =
      let convert : Matrix F → List (Triple F) =
        convert_matrix c.num_witness (c.num_inputs + 1) 0 in
      let (m, em, made1) =
        >>=-eq-ok
          (spartan.new_instance c.num_constraints c.num_witness c.num_inputs (convert c.matrices.a)
            (convert c.matrices.b) (convert c.matrices.c))
          _ made in
      let (parts, ep, made2) =
        >>=-eq-ok (split_assignment (c.num_inputs + 1) c.assignment) _ made1 in
      let (vars, ev, made3) = >>=-eq-ok (spartan.new_vars parts.1) _ made2 in
      let (inputs, ei, made4) = >>=-eq-ok (spartan.new_inputs parts.0) _ made3 in
      let length_public : length public ≡ c.num_inputs + 1 = omega (arith, len) in
      let split : parts ≡ (drop 1 public, witness) =
        ok_value parts (drop 1 public, witness)
          (sym ep ∙ rw e (split_assignment_lem public witness (c.num_inputs + 1) length_public)) in
      let given : spartan.new_inputs (drop 1 public) ≡ ok inputs =
        subst (λ x. spartan.new_inputs x.0 ≡ ok inputs) split ei in
      let (vars', ev') = faithful.new_vars-ok witness' in
      let same_data = ok_value _ d made4 in
      (
        record {
          spartan_instance = m;
          vars = vars';
          inputs = inputs;
          num_cons = c'.num_constraints;
          num_vars = c'.num_witness;
          num_inputs = c'.num_inputs;
        },
        rw
            (
              sym e_in,
              sym e_wit,
              sym e_con,
              sym e_mat,
              em,
              e',
              split_assignment_lem public witness' (c.num_inputs + 1) length_public,
              ev',
              given,
            )
            refl,
        (
          sym (ap (λ x. x.spartan_instance) same_data),
          sym (ap (λ x. x.inputs) same_data),
          sym (ap (λ x. x.num_cons) same_data) ∙ e_con,
          sym (ap (λ x. x.num_vars) same_data) ∙ e_wit,
          sym (ap (λ x. x.num_inputs) same_data) ∙ e_in,
        ),
      )

  -- A proof that is read back, against the data of the verifier.
  verify_circuit-SameSpartan :
      (failed : Bytes → EvrfError) (label : Bytes) (synthesize : S → Outcome Bytes S)
      (proof : EvrfProof) (c : CapturedR1cs F) (d d' : SpartanData I W P) (n : N)
      → capture_circuit gadgets synthesize ≡ ok c
      → to_spartan spartan c ≡ ok d'
      → nizk.deserialize proof.proof_bytes ≡ ok n
      → SameSpartan d d'
      → verify_circuit gadgets spartan nizk failed label synthesize proof
        ≡ ok (nizk.verify n d.spartan_instance d.inputs label (gens_of gadgets spartan nizk d))
  unfolding verify_circuit gens_of
  verify_circuit-SameSpartan failed label synthesize proof c d d' n ec ed en
        (s_inst, s_in, s_con, s_var, s_num) =
      rw (ec, ed, en, s_inst, s_in, s_con, s_var, s_num) refl

  verify_circuit-prove_circuit :
      (is_batch : Bool) (failed : Bytes → EvrfError) (label : Bytes)
      (synthesize synthesize' : S → Outcome Bytes S) (proof : EvrfProof)
      → SameOutcome SameStatement
          (capture_circuit gadgets synthesize)
          (capture_circuit gadgets synthesize')
      → prove_circuit gadgets spartan nizk is_batch label synthesize ≡ ok proof
      → (c : CapturedR1cs F) × (d : SpartanData I W P) × (capture_circuit gadgets synthesize ≡ ok c)
        × (to_spartan spartan c ≡ ok d)
        × (verify_circuit gadgets spartan nizk failed label synthesize' proof
            ≡ ok (
                nizk.verify
                  (nizk.prove d.spartan_instance d.vars d.inputs
                    (gens_of gadgets spartan nizk d)
                    label)
                  d.spartan_instance
                  d.inputs
                  label
                  (gens_of gadgets spartan nizk d)))
  unfolding prove_circuit gens_of
  verify_circuit-prove_circuit is_batch failed label synthesize synthesize' proof same proved =
      let (c, ec, proved1) =
        >>=-eq-ok (map_err capture_failed (capture_circuit gadgets synthesize)) _ proved in
      let (d, ed, proved2) = >>=-eq-ok (map_err spartan_failed (to_spartan spartan c)) _ proved1 in
      let made : to_spartan spartan c ≡ ok d = map_err-eq-ok spartan_failed _ ed in
      let (bytes, eb, proved3) =
        >>=-eq-ok
          (map_err serialize_failed (
            nizk.serialize (
              nizk.prove d.spartan_instance d.vars d.inputs
                (nizk.new_gens d.num_cons d.num_vars d.num_inputs) label)))
          _ proved2 in
      let captured = map_err-eq-ok capture_failed _ ec in
      let (c', ec', statement) = SameOutcome-ok SameStatement _ _ c captured same in
      let (d', ed', agree) = to_spartan-SameStatement c c' d statement made in
      let read = faithful.serialize-round_trip _ bytes (map_err-eq-ok serialize_failed _ eb) in
      let same_bytes = ap (λ x. nizk.deserialize x.proof_bytes) (ok_value _ proof proved3) in
      (
        c,
        d,
        captured,
        made,
        verify_circuit-SameSpartan failed label synthesize' proof c' d d' _ ec' ed'
            (sym same_bytes ∙ read) agree,
      )

module _ {F G Q S V I W P N Gens : Type 0} {f : Field F} (g : Curve f G) (gadgets : Gadgets F Q S V)
    (affine : Affine G Q) (Same : S → S → Type 0) (SameVar : V → V → Type 0)
    (laws : Uniform gadgets Same SameVar) (spartan : Spartan F I W P) (nizk : Nizk I W P N Gens)
    (faithful : Faithful spartan nizk) where
  -- When prove_evrf_batch gives a proof, verify_evrf_batch on the public values and the commitments
  -- of the pads does not fail: it answers what NIZK::verify says of the proof that NIZK::prove made,
  -- for the prover's own instance, public inputs, generators and label.
  pub verify_evrf_batch-prove_evrf_batch :
      (sk1 : F) (my_pk : G) (peers : List (ℕ × G)) (pads : List (ℕ × (F × G))) (beta : F)
      (proof : EvrfProof)
      → prove_evrf_batch g gadgets affine spartan nizk sk1 my_pk peers pads beta ≡ ok proof
      → (c : CapturedR1cs F) × (d : SpartanData I W P) × (capture_circuit gadgets (
            generate_batch_constraints g gadgets affine
              (new_batch_circuit f sk1 my_pk peers pads beta))
          ≡ ok c)
        × (to_spartan spartan c ≡ ok d)
        × (verify_evrf_batch g gadgets affine spartan nizk my_pk peers
              (map (λ p. (p.0, p.1.1)) pads)
              beta
              proof
            ≡ ok (
                nizk.verify
                  (nizk.prove d.spartan_instance d.vars d.inputs
                    (gens_of gadgets spartan nizk d)
                    batch_label)
                  d.spartan_instance
                  d.inputs
                  batch_label
                  (gens_of gadgets spartan nizk d)))
  unfolding prove_evrf_batch verify_evrf_batch
  verify_evrf_batch-prove_evrf_batch sk1 my_pk peers pads beta proof =
      verify_circuit-prove_circuit gadgets spartan nizk faithful true deserialize_batch_failed
        batch_label _ _ proof
        (capture_circuit-generate_batch_constraints g gadgets affine Same SameVar laws sk1 my_pk
          peers pads beta)
