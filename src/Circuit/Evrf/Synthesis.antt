-- ===== src/Circuit/Evrf/Synthesis.antt =====
-- Two syntheses of one circuit with different witnesses: what arkworks gives for them
-- (golden-dkg/src/zk_evrf/circuit.rs, adapter.rs).
use golden_rs.Common.{suc, ◌≡◌, refl, ◌≤◌, ap, List, ◌++◌, length}
use golden_rs.Dkg.Outcome.{Outcome, ok, err, panic, ◌>>=◌, map_err}
use golden_rs.Circuit.Adapter.{CapturedR1cs}
use golden_rs.Circuit.Gadgets.{Gadgets}

-- Two results that agree: both succeed with related values, or both fail alike.
abbrev pub SameOutcome : {E A : Type 0} → (A → A → Type 0) → Outcome E A → Outcome E A → Type 0
SameOutcome R (ok a) (ok b) = R a b
SameOutcome R (ok a) (err y) = ⊥
SameOutcome R (ok a) panic = ⊥
SameOutcome R (err x) (ok b) = ⊥
SameOutcome R (err x) (err y) = x ≡ y
SameOutcome R (err x) panic = ⊥
SameOutcome R panic (ok b) = ⊥
SameOutcome R panic (err y) = ⊥
SameOutcome R panic panic = Unit {0}

pub SameOutcome->>= :
    {E A B : Type 0} (R : A → A → Type 0) (T : B → B → Type 0) (m n : Outcome E A)
    (k l : A → Outcome E B)
    → SameOutcome R m n
    → ((a b : A) → R a b → SameOutcome T (k a) (l b))
    → SameOutcome T (m >>= k) (n >>= l)
SameOutcome->>= R T (ok a) (ok b) k l same step = step a b same
SameOutcome->>= R T (ok a) (err y) k l same step = absurd same
SameOutcome->>= R T (ok a) panic k l same step = absurd same
SameOutcome->>= R T (err x) (ok b) k l same step = absurd same
SameOutcome->>= R T (err x) (err y) k l same step = same
SameOutcome->>= R T (err x) panic k l same step = absurd same
SameOutcome->>= R T panic (ok b) k l same step = absurd same
SameOutcome->>= R T panic (err y) k l same step = absurd same
SameOutcome->>= R T panic panic k l same step = tt

pub SameOutcome-map_err :
    {D E A : Type 0} (R : A → A → Type 0) (h : D → E) (m n : Outcome D A)
    → SameOutcome R m n
    → SameOutcome R (map_err h m) (map_err h n)
SameOutcome-map_err R h (ok a) (ok b) same = same
SameOutcome-map_err R h (ok a) (err y) same = absurd same
SameOutcome-map_err R h (ok a) panic same = absurd same
SameOutcome-map_err R h (err x) (ok b) same = absurd same
SameOutcome-map_err R h (err x) (err y) same = ap h same
SameOutcome-map_err R h (err x) panic same = absurd same
SameOutcome-map_err R h panic (ok b) same = absurd same
SameOutcome-map_err R h panic (err y) same = absurd same
SameOutcome-map_err R h panic panic same = tt

pub SameOutcome-refl : {E A : Type 0} (m n : Outcome E A) → m ≡ n → SameOutcome (λ a b. a ≡ b) m n
SameOutcome-refl m n e = rw e (self n)
  where
    self : {E A : Type 0} (n : Outcome E A) → SameOutcome (λ a b. a ≡ b) n n
    self (ok a) = refl
    self (err x) = refl
    self panic = tt

-- Two handles and their systems.
abbrev pub SameBoth : {S V : Type 0} → (V → V → Type 0) → (S → S → Type 0) → V × S → V × S → Type 0
SameBoth SameVar Same a b = SameVar a.0 b.0 × Same a.1 b.1

-- What arkworks documents of a synthesis in `Prove` mode. `Same` relates two systems that differ
-- in the values of their witnesses only, each satisfied by its own; `SameVar`, two handles of one
-- variable. No step looks at a value of a witness: each leaves such a pair in such a pair, or fails
-- on both alike, and what is read off the finished systems agrees, but for the witnesses.
pub record Uniform {F Q S V : Type 0} (gadgets : Gadgets F Q S V) (Same : S → S → Type 0)
    (SameVar : V → V → Type 0) : Type 0 where
  pub new_system-same : Same gadgets.new_system gadgets.new_system
  pub new_input-same :
      (x : F) (s t : S)
      → Same s t
      → SameOutcome (SameBoth SameVar Same) (gadgets.new_input x s) (gadgets.new_input x t)
  pub new_witness-same :
      (x y : F) (s t : S)
      → Same s t
      → SameOutcome (SameBoth SameVar Same) (gadgets.new_witness x s) (gadgets.new_witness y t)
  pub new_emulated_input-same :
      (q : Q) (s t : S)
      → Same s t
      → SameOutcome Same (gadgets.new_emulated_input q s) (gadgets.new_emulated_input q t)
  pub new_emulated_witness-same :
      (q r : Q) (s t : S)
      → Same s t
      → SameOutcome Same (gadgets.new_emulated_witness q s) (gadgets.new_emulated_witness r t)
  pub to_bits_le-same :
      (v w : V) (s t : S)
      → SameVar v w
      → Same s t
      → SameOutcome
          (λ a b. (length a.0 ≡ length b.0) × Same a.1 b.1)
          (gadgets.to_bits_le v s)
          (gadgets.to_bits_le w t)
  pub product-same :
      (v w v' w' : V) (s t : S)
      → SameVar v w
      → SameVar v' w'
      → Same s t
      → Same (gadgets.product v v' s) (gadgets.product w w' t)
  pub finalize-same : (s t : S) → Same s t → Same (gadgets.finalize s) (gadgets.finalize t)
  pub is_satisfied-same : (s t : S) → Same s t → gadgets.is_satisfied s ≡ gadgets.is_satisfied t
  pub num_instance_variables-same :
      (s t : S) → Same s t → gadgets.num_instance_variables s ≡ gadgets.num_instance_variables t
  pub num_witness_variables-same :
      (s t : S) → Same s t → gadgets.num_witness_variables s ≡ gadgets.num_witness_variables t
  pub num_constraints-same :
      (s t : S) → Same s t → gadgets.num_constraints s ≡ gadgets.num_constraints t
  pub to_matrices-same : (s t : S) → Same s t → gadgets.to_matrices s ≡ gadgets.to_matrices t
  pub instance_assignment-same :
      (s t : S) → Same s t → gadgets.instance_assignment s ≡ gadgets.instance_assignment t
  -- One value for each variable of the instance, the constant 1 among them.
  pub length-instance_assignment :
      (s : S) → length (gadgets.instance_assignment s) ≡ gadgets.num_instance_variables s
  pub num_instance_variables-positive : (s : S) → 1 ≤ gadgets.num_instance_variables s

-- Two captured systems with the same structure and the same public part of the assignment.
abbrev pub SameStatement : {F : Type 0} → CapturedR1cs F → CapturedR1cs F → Type 0
SameStatement {F} a b =
    (a.num_inputs ≡ b.num_inputs)
    × (a.num_witness ≡ b.num_witness)
    × (a.num_constraints ≡ b.num_constraints)
    × (a.matrices ≡ b.matrices)
    × ((public : List F) × (witness : List F) × (witness' : List F) × (length public
          ≡ suc a.num_inputs)
        × (a.assignment ≡ public ++ witness)
        × (b.assignment ≡ public ++ witness'))
