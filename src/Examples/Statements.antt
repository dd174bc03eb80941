-- ===== src/Examples/Statements.antt =====
-- A constraint system that counts, and the two batch circuits in it.
use golden_rs.Common.{
  ℕ, suc, ◌+◌, ◌≡◌, refl, sym, ap, true, false, nat_beq, Bytes, List, [], ◌∷◌, ◌++◌, length, some,
  arith,
}
use golden_rs.Dkg.Outcome.{Outcome, err, ok_value, ok}
use golden_rs.Circuit.Adapter.{
  CapturedR1cs, Spartan, SpartanData, to_spartan, split_assignment, convert_matrix,
}
use golden_rs.Circuit.Prover.{
  Nizk, EvrfProof, prove_circuit, prove_evrf_batch, verify_evrf_batch, batch_label, gens_of,
}
use golden_rs.Circuit.Prover.Agreement.{Faithful, verify_evrf_batch-prove_evrf_batch}
use golden_rs.Circuit.Gadgets.{Gadgets, Affine}
use golden_rs.Circuit.Evrf.{
  peers_constraints, peer_constraints, find_pad, point_input, point_witness, x_of, y_of,
  capture_system, new_batch_circuit, batch_circuit_for_verification, generate_batch_constraints,
  capture_circuit,
}
use golden_rs.Circuit.Evrf.Synthesis.{SameOutcome, SameStatement, Uniform}
use golden_rs.Circuit.Evrf.Verifier.{capture_circuit-generate_batch_constraints}
use golden_rs.Examples.Toy.{F5, z0, z1, z2, z3, z4, beq, field5, group5}

-- The values of the instance after the constant 1, those of the witnesses, and the number of
-- constraints.
record Counted : Type 0 where
  given : List F5
  hidden : List F5
  count : ℕ

abbrev counting : Gadgets F5 F5 Counted ℕ
counting = record {
  new_system = record { given = []; hidden = []; count = 0 };
  new_input = λ x s.
      ok (
        length s.given,
        record { given = s.given ++ (x ∷ []); hidden = s.hidden; count = s.count },
      );
  new_witness = λ x s.
      ok (length s.hidden, record { given = s.given; hidden = x ∷ s.hidden; count = s.count });
  new_emulated_input =
      λ q s. ok (record { given = s.given ++ (q ∷ []); hidden = s.hidden; count = s.count });
  new_emulated_witness =
      λ q s. ok (record { given = s.given; hidden = q ∷ s.hidden; count = suc s.count });
  to_bits_le = λ v s. ok (
    true ∷ false ∷ true ∷ [],
    record { given = s.given; hidden = s.hidden; count = 4 + s.count },
  );
  product = λ v w s. record { given = s.given; hidden = z0 ∷ s.hidden; count = suc s.count };
  finalize = λ s. s;
  is_satisfied = λ s. ok true;
  num_instance_variables = λ s. suc (length s.given);
  num_witness_variables = λ s. length s.hidden;
  num_constraints = λ s. s.count;
  to_matrices = λ s. some (record { a = []; b = []; c = [] });
  instance_assignment = λ s. z1 ∷ s.given;
  witness_assignment = λ s. s.hidden;
}

abbrev coordinates : Affine F5 F5
coordinates = record { infinity = λ p. beq p z0; x = λ p. p; y = λ p. p; zero = z0 }

-- Systems that differ in the values of their witnesses.
abbrev SameCounted : Counted → Counted → Type 0
SameCounted s t = (s.given ≡ t.given) × (length s.hidden ≡ length t.hidden) × (s.count ≡ t.count)

counting-Uniform : Uniform counting SameCounted (λ v w. v ≡ w)
counting-Uniform = record {
  new_system-same = (refl, refl, refl);
  new_input-same =
      λ x s t same. (ap length same.0, (ap (λ g. g ++ (x ∷ [])) same.0, same.1, same.2));
  new_witness-same = λ x y s t same. (same.1, (same.0, ap suc same.1, same.2));
  new_emulated_input-same = λ q s t same. (ap (λ g. g ++ (q ∷ [])) same.0, same.1, same.2);
  new_emulated_witness-same = λ q r s t same. (same.0, ap suc same.1, ap suc same.2);
  to_bits_le-same = λ v w s t var same. (refl, (same.0, same.1, ap (λ n. 4 + n) same.2));
  product-same = λ v w v' w' s t var var' same. (same.0, ap suc same.1, ap suc same.2);
  finalize-same = λ s t same. same;
  is_satisfied-same = λ s t same. refl;
  num_instance_variables-same = λ s t same. ap (λ g. suc (length g)) same.0;
  num_witness_variables-same = λ s t same. same.1;
  num_constraints-same = λ s t same. same.2;
  to_matrices-same = λ s t same. refl;
  instance_assignment-same = λ s t same. ap (λ g. z1 ∷ g) same.0;
  length-instance_assignment = λ s. refl;
  num_instance_variables-positive = λ s. omega arith;
}

-- The commitment 4 of the pad is not that of its value 1, and one peer has no pad.
capture_circuit-generate_batch_constraints_example :
    SameOutcome SameStatement
      (capture_circuit counting (
        generate_batch_constraints group5 counting coordinates
          (new_batch_circuit field5 z2 z3 ((2, z3) ∷ (3, z4) ∷ []) ((2, (z1, z4)) ∷ []) z1)))
      (capture_circuit counting (
        generate_batch_constraints group5 counting coordinates
          (batch_circuit_for_verification field5 z3 ((2, z3) ∷ (3, z4) ∷ []) ((2, z4) ∷ []) z1)))
capture_circuit-generate_batch_constraints_example =
    capture_circuit-generate_batch_constraints group5 counting coordinates SameCounted
      (λ v w. v ≡ w) counting-Uniform z2 z3 ((2, z3) ∷ (3, z4) ∷ []) ((2, (z1, z4)) ∷ []) z1

-- A proof system whose proof is a number.
abbrev spartan5 : Spartan F5 ℕ (List F5) (List F5)
spartan5 = record {
  new_instance = λ cons vars inputs a b c. ok cons;
  new_vars = λ values. ok values;
  new_inputs = λ values. ok values;
}

abbrev read_proof : Bytes → Outcome Bytes ℕ
read_proof [] = err []
read_proof (n ∷ rest) = ok n

abbrev nizk5 : Nizk ℕ (List F5) (List F5) ℕ ℕ
nizk5 = record {
  new_gens = λ cons vars inputs. cons + vars + inputs;
  prove = λ made vars inputs gens label. made + length inputs + gens;
  verify = λ n made inputs label gens. nat_beq n (made + length inputs + gens);
  serialize = λ n. ok (n ∷ []);
  deserialize = read_proof;
}

spartan5-Faithful : Faithful spartan5 nizk5
spartan5-Faithful = record {
  new_vars-ok = λ values. (values, refl);
  serialize-round_trip = λ proof bytes e. ap read_proof (sym (ok_value (proof ∷ []) bytes e));
}

abbrev made : EvrfProof
made = record {
  proof_bytes = 37 ∷ [];
  num_constraints = 7;
  num_vars = 5;
  num_inputs = 9;
  is_batch = true;
}

verify_evrf_batch-prove_evrf_batch_example :
    (c : CapturedR1cs F5) × (d : SpartanData ℕ (List F5) (List F5)) × (capture_circuit counting (
        generate_batch_constraints group5 counting coordinates
          (new_batch_circuit field5 z2 z3 ((2, z3) ∷ (3, z4) ∷ []) ((2, (z1, z4)) ∷ []) z1))
      ≡ ok c)
    × (to_spartan spartan5 c ≡ ok d)
    × (verify_evrf_batch group5 counting coordinates spartan5 nizk5 z3
          ((2, z3) ∷ (3, z4) ∷ [])
          ((2, z4) ∷ [])
          z1
          made
        ≡ ok (
            nizk5.verify
              (nizk5.prove d.spartan_instance d.vars d.inputs
                (gens_of counting spartan5 nizk5 d)
                batch_label)
              d.spartan_instance
              d.inputs
              batch_label
              (gens_of counting spartan5 nizk5 d)))
unfolding prove_evrf_batch prove_circuit generate_batch_constraints peers_constraints
    peer_constraints find_pad point_input point_witness x_of y_of new_batch_circuit capture_circuit
    capture_system to_spartan split_assignment convert_matrix gens_of
verify_evrf_batch-prove_evrf_batch_example =
    verify_evrf_batch-prove_evrf_batch group5 counting coordinates SameCounted (λ v w. v ≡ w)
      counting-Uniform spartan5 nizk5 spartan5-Faithful z2 z3 ((2, z3) ∷ (3, z4) ∷ [])
      ((2, (z1, z4)) ∷ []) z1 made refl
