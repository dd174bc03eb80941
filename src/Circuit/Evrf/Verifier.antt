-- ===== src/Circuit/Evrf/Verifier.antt =====
-- The batch circuit of the prover and that of the verifier (golden-dkg/src/zk_evrf/circuit.rs).
use golden_rs.Common.{
  ℕ, ◌-◌, ◌≡◌, refl, ap, sym, Bool, true, false, Bytes, List, [], ◌∷◌, ◌++◌, Option, none, some,
  length, map, ◌==◌, nat_eq, Bool-cases, inl, inr, arith,
}
use golden_rs.Algebra.{Field, Curve}
use golden_rs.Dkg.Outcome.{Outcome, ok_or, map_err}
use golden_rs.Circuit.Gadgets.{Gadgets, Affine}
use golden_rs.Circuit.Evrf.{
  new_batch_circuit, batch_circuit_for_verification, point_input, point_witness, find_pad,
  peer_constraints, peers_constraints, generate_batch_constraints, capture_circuit, capture_system,
  no_matrices, synthesis_failed, satisfaction_check_failed,
}
use golden_rs.Circuit.Evrf.Synthesis.{
  SameOutcome, SameOutcome->>=, SameOutcome-map_err, SameOutcome-refl, SameBoth, Uniform,
  SameStatement,
}

-- Two findings of a pad that agree on its commitment.
abbrev SamePad : {F G : Type 0} → Option (F × G) → Option (F × G) → Type 0
SamePad none none = Unit {0}
SamePad none (some b) = ⊥
SamePad (some a) none = ⊥
SamePad (some a) (some b) = a.1 ≡ b.1

module _ {F G : Type 0} (z : F) where
  find_pad-SamePad :
      (pads : List (ℕ × (F × G))) (id : ℕ)
      → SamePad (find_pad id pads) (
          find_pad id (
            map {A = ℕ × G}
              (λ c. (c.0, (z, c.1)))
              (map {A = ℕ × (F × G)} (λ p. (p.0, p.1.1)) pads)))
  unfolding find_pad
  find_pad-SamePad [] id = tt
  find_pad-SamePad ((pid, pad) ∷ rest) id = elim (Bool-cases (pid == id)) [
    | inl found ↦ rw found refl
    | inr other ↦ rw other (find_pad-SamePad rest id)
  ]

module _ {F G Q S V : Type 0} {f : Field F} (g : Curve f G) (gadgets : Gadgets F Q S V)
    (affine : Affine G Q) (Same : S → S → Type 0) (SameVar : V → V → Type 0)
    (laws : Uniform gadgets Same SameVar) where
  point_input-Same :
      (p : G) (s t : S)
      → Same s t
      → SameOutcome Same (point_input gadgets affine p s) (point_input gadgets affine p t)
  unfolding point_input
  point_input-Same p s t same =
      SameOutcome->>= Same Same _ _ _ _ (laws.new_emulated_input-same _ s t same)
        (laws.new_emulated_input-same _)

  point_witness-Same :
      (p q : G) (s t : S)
      → Same s t
      → SameOutcome Same (point_witness gadgets affine p s) (point_witness gadgets affine q t)
  unfolding point_witness
  point_witness-Same p q s t same =
      SameOutcome->>= Same Same _ _ _ _ (laws.new_emulated_witness-same _ _ s t same)
        (laws.new_emulated_witness-same _ _)

  peer_constraints-Same :
      (sk sk' : F) (v v' : V) (pk : G) (pad pad' : Option (F × G)) (s t : S)
      → SameVar v v'
      → SamePad pad pad'
      → Same s t
      → SameOutcome Same
          (peer_constraints g gadgets affine sk v pk pad s)
          (peer_constraints g gadgets affine sk' v' pk pad' t)
  unfolding peer_constraints
  peer_constraints-Same sk sk' v v' pk none none s t var pads same = same
  peer_constraints-Same sk sk' v v' pk none (some b) s t var pads same = absurd pads
  peer_constraints-Same sk sk' v v' pk (some a) none s t var pads same = absurd pads
  peer_constraints-Same sk sk' v v' pk (some (r, c)) (some (r', c')) s t var pads same = rw pads (
      SameOutcome->>= Same Same _ _ _ _ (point_input-Same c' s t same) (λ s1 t1 same1.
        SameOutcome->>= (SameBoth SameVar Same) Same _ _ _ _
          (laws.new_witness-same r r' s1 t1 same1)
          (λ a b both.
            SameOutcome->>= Same Same _ _ _ _
              (point_witness-Same (g.smul pk sk) (g.smul pk sk') a.1 b.1 both.1)
              (λ s2 t2. laws.product-same v v' a.0 b.0 s2 t2 var both.0))))

  peers_constraints-Same :
      (sk sk' z : F) (v v' : V) (pads : List (ℕ × (F × G))) (peers : List (ℕ × G)) (s t : S)
      → SameVar v v'
      → Same s t
      → SameOutcome Same (peers_constraints g gadgets affine sk v pads peers s) (
          peers_constraints g gadgets affine sk' v'
            (map {A = ℕ × G}
              (λ c. (c.0, (z, c.1)))
              (map {A = ℕ × (F × G)} (λ p. (p.0, p.1.1)) pads))
            peers
            t)
  unfolding peers_constraints
  peers_constraints-Same sk sk' z v v' pads [] s t var same = same
  peers_constraints-Same sk sk' z v v' pads ((id, pk) ∷ rest) s t var same =
      SameOutcome->>= Same Same _ _ _ _ (point_input-Same pk s t same) (λ s1 t1 same1.
        SameOutcome->>= Same Same _ _ _ _
          (peer_constraints-Same sk sk' v v' pk _ _ s1 t1 var (find_pad-SamePad z pads id) same1)
          (λ s2 t2. peers_constraints-Same sk sk' z v v' pads rest s2 t2 var))

  -- The circuit of the prover and that of the verifier.
  generate_batch_constraints-Same :
      (sk1 : F) (my_pk : G) (peers : List (ℕ × G)) (pads : List (ℕ × (F × G))) (beta : F) (s t : S)
      → Same s t
      → SameOutcome Same
          (generate_batch_constraints g gadgets affine
            (new_batch_circuit f sk1 my_pk peers pads beta)
            s)
          (generate_batch_constraints g gadgets affine
            (batch_circuit_for_verification f my_pk peers (map (λ p. (p.0, p.1.1)) pads) beta)
            t)
  unfolding generate_batch_constraints new_batch_circuit batch_circuit_for_verification
  generate_batch_constraints-Same sk1 my_pk peers pads beta s t same =
      SameOutcome->>= (SameBoth SameVar Same) Same _ _ _ _ (laws.new_witness-same _ _ s t same)
        (λ a b sk.
          SameOutcome->>= (λ c d. (length c.0 ≡ length d.0) × Same c.1 d.1) Same _ _ _ _
            (laws.to_bits_le-same a.0 b.0 a.1 b.1 sk.0 sk.1)
            (λ c d bits.
              SameOutcome->>= Same Same _ _ _ _ (point_input-Same my_pk c.1 d.1 bits.1)
                (λ s1 t1 same1.
                  SameOutcome->>= (SameBoth SameVar Same) Same _ _ _ _
                    (laws.new_input-same beta s1 t1 same1)
                    (λ e h both.
                      peers_constraints-Same sk1 f.zero f.zero a.0 b.0 pads peers e.1 h.1 sk.0
                        both.1))))

  capture_system-SameStatement :
      (s t : S)
      → Same s t
      → (b c : Bool) → b ≡ c
      → SameOutcome SameStatement (capture_system gadgets s b) (capture_system gadgets t c)
  unfolding capture_system
  capture_system-SameStatement s t same false false e = refl
  capture_system-SameStatement s t same false true e = cc
  capture_system-SameStatement s t same true false e = cc
  capture_system-SameStatement s t same true true e =
      SameOutcome->>= (λ m m'. m ≡ m') SameStatement _ _ _ _
        (SameOutcome-refl _ _ (ap (λ m. ok_or m no_matrices) (laws.to_matrices-same s t same)))
        (λ m m' equal. (
          ap (λ n. n - 1) (laws.num_instance_variables-same s t same),
          laws.num_witness_variables-same s t same,
          laws.num_constraints-same s t same,
          equal,
          (
            gadgets.instance_assignment s,
            gadgets.witness_assignment s,
            gadgets.witness_assignment t,
            omega
                (arith, laws.length-instance_assignment s, laws.num_instance_variables-positive s),
            refl,
            ap (λ i. i ++ gadgets.witness_assignment t)
                (sym (laws.instance_assignment-same s t same)),
          ),
        ))

  capture_circuit-SameStatement :
      (synthesize synthesize' : S → Outcome Bytes S)
      → SameOutcome Same (synthesize gadgets.new_system) (synthesize' gadgets.new_system)
      → SameOutcome SameStatement
          (capture_circuit gadgets synthesize)
          (capture_circuit gadgets synthesize')
  unfolding capture_circuit
  capture_circuit-SameStatement synthesize synthesize' same =
      SameOutcome->>= Same SameStatement _ _ _ _
        (SameOutcome-map_err Same synthesis_failed _ _ same)
        (λ s t pair.
          SameOutcome->>= (λ b c. b ≡ c) SameStatement _ _ _ _
            (SameOutcome-refl _ _ (
              ap (λ o. map_err satisfaction_check_failed o)
                (laws.is_satisfied-same _ _ (laws.finalize-same s t pair))))
            (capture_system-SameStatement _ _ (laws.finalize-same s t pair)))

  -- The prover's batch circuit and the verifier's, which has zeros for the secret key and the pads,
  -- are captured alike: both fail with the same error, or both give the same numbers of variables
  -- and constraints, the same matrices, and the same public part of the assignment. This holds for
  -- every secret key and every pad, whatever the keys and the commitments that are published.
  pub capture_circuit-generate_batch_constraints :
      (sk1 : F) (my_pk : G) (peers : List (ℕ × G)) (pads : List (ℕ × (F × G))) (beta : F)
      → SameOutcome SameStatement
          (capture_circuit gadgets (
            generate_batch_constraints g gadgets affine
              (new_batch_circuit f sk1 my_pk peers pads beta)))
          (capture_circuit gadgets (
            generate_batch_constraints g gadgets affine
              (batch_circuit_for_verification f my_pk peers (map (λ p. (p.0, p.1.1)) pads) beta)))
  capture_circuit-generate_batch_constraints sk1 my_pk peers pads beta =
      capture_circuit-SameStatement _ _
        (generate_batch_constraints-Same sk1 my_pk peers pads beta _ _ laws.new_system-same)
