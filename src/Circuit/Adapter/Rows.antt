-- ===== src/Circuit/Adapter/Rows.antt =====
-- The converted rows say of Spartan's assignment what the rows say of the one of arkworks
-- (golden-dkg/src/zk_evrf/adapter.rs).
use golden_rs.Common.{
  ℕ, zero, suc, ◌+◌, ◌-◌, ◌<◌, ◌≤◌, ltb, le→ltb, ◌≡◌, refl, sym, ap, ap₂, ◌∙◌, List, [], ◌∷◌, ◌++◌,
  length, length-append, take-append, drop-append, All, get_or, get_or-append-left,
  get_or-append-right, if◌then◌else◌, nat_eq, nat_beq, Bool-cases, true, false, inl, inr, arith,
}
use golden_rs.Algebra.{Field}
use golden_rs.Algebra.Group.{add-zero}
use golden_rs.Dkg.Outcome.{ok}
use golden_rs.Circuit.Adapter.{
  Matrix, Triple, spartan_col, convert_row, convert_matrix, split_assignment,
}

module _ {F : Type 0} (f : Field F) where
  spartan_col-same :
      (inputs witness : List F) (c : ℕ)
      → c < length inputs + 1 + length witness
      → get_or
          (witness ++ (f.one ∷ inputs))
          (spartan_col (length witness) (length inputs + 1) c)
          f.zero
        ≡ get_or (f.one ∷ (inputs ++ witness)) c f.zero
  unfolding spartan_col
  spartan_col-same inputs witness zero h =
      get_or-append-right witness (f.one ∷ inputs) (length witness) 0 f.zero (omega arith)
  spartan_col-same inputs witness (suc k) h =
      let positive : nat_beq (suc k) 0 ≡ false = ground arith in
      elim (Bool-cases (ltb (suc k) (length inputs + 1))) [
        | inl public ↦
            rw (positive, public)
              (get_or-append-right witness (f.one ∷ inputs) (length witness + suc k) (suc k) f.zero
                  refl
                ∙ sym (get_or-append-left inputs witness k f.zero (ground (arith, public))))
        | inr private ↦
            let j = suc k - (length inputs + 1) in
            let past : length inputs ≤ k = ground (arith, private) in
            rw (positive, private)
              (get_or-append-left witness (f.one ∷ inputs) j f.zero (omega arith)
                ∙ sym (get_or-append-right inputs witness k j f.zero (omega arith)))
      ]

  -- The product of a row with an assignment.
  abbrev pub row_value : List (F × ℕ) → List F → F
  row_value [] z = f.zero
  row_value ((coeff, col) ∷ rest) z = f.add (f.mul coeff (get_or z col f.zero)) (row_value rest z)

  -- The product of row `i` of a list of triples with an assignment.
  abbrev pub triples_value : ℕ → List (Triple F) → List F → F
  triples_value i [] z = f.zero
  triples_value i ((row, col, coeff) ∷ rest) z =
      if nat_beq row i
      then f.add (f.mul coeff (get_or z col f.zero)) (triples_value i rest z)
      else triples_value i rest z

  triples_value-append :
      (i : ℕ) (xs ys : List (Triple F)) (z : List F)
      → triples_value i (xs ++ ys) z ≡ f.add (triples_value i xs z) (triples_value i ys z)
  triples_value-append i [] ys z = sym (f.zero-add (triples_value i ys z))
  triples_value-append i ((row, col, coeff) ∷ xs) ys z = elim (Bool-cases (nat_beq row i)) [
    | inl same ↦ rw same (
        ap (f.add (f.mul coeff (get_or z col f.zero))) (triples_value-append i xs ys z)
        ∙ sym (
            f.add_assoc (f.mul coeff (get_or z col f.zero)) (triples_value i xs z)
              (triples_value i ys z)))
    | inr other ↦ rw other (triples_value-append i xs ys z)
  ]

  -- The columns of the rows are in range of an assignment.
  abbrev pub InRange : ℕ → List (F × ℕ) → Type 0
  InRange n row = All (λ e. e.1 < n) row

  module _ (inputs witness : List F) where
    -- The assignment of arkworks, and Spartan's: the witnesses first, then the constant.
    abbrev pub ark_assignment : List F
    ark_assignment = f.one ∷ (inputs ++ witness)

    abbrev pub spartan_assignment : List F
    spartan_assignment = witness ++ (f.one ∷ inputs)

    convert_row-own :
        (i : ℕ) (row : List (F × ℕ))
        → InRange (length inputs + 1 + length witness) row
        → triples_value i
            (convert_row (length witness) (length inputs + 1) i row)
            spartan_assignment
          ≡ row_value row ark_assignment
    unfolding convert_row
    convert_row-own i [] h = refl
    convert_row-own i ((coeff, col) ∷ rest) h =
        let itself : nat_beq i i ≡ true = ground arith in
        rw itself (
          ap₂ (λ v w. f.add (f.mul coeff v) w) (spartan_col-same inputs witness col h.0)
            (convert_row-own i rest h.1))

    convert_row-other :
        (i r : ℕ) (row : List (F × ℕ))
        → nat_beq r i ≡ false
        → triples_value i
            (convert_row (length witness) (length inputs + 1) r row)
            spartan_assignment
          ≡ f.zero
    unfolding convert_row
    convert_row-other i r [] other = refl
    convert_row-other i r (e ∷ rest) other = rw other (convert_row-other i r rest other)

    convert_matrix-before :
        (i r : ℕ) (m : Matrix F)
        → i < r
        → triples_value i
            (convert_matrix (length witness) (length inputs + 1) r m)
            spartan_assignment
          ≡ f.zero
    unfolding convert_matrix
    convert_matrix-before i r [] h = refl
    convert_matrix-before i r (row ∷ m) h =
        triples_value-append i (convert_row (length witness) (length inputs + 1) r row) _
          spartan_assignment
        ∙ ap₂ f.add (convert_row-other i r row (ground (arith, h)))
            (convert_matrix-before i (suc r) m (omega arith))
        ∙ f.zero-add f.zero

    convert_matrix-from :
        (i r : ℕ) (m : Matrix F)
        → All (InRange (length inputs + 1 + length witness)) m
        → triples_value
            (r + i)
            (convert_matrix (length witness) (length inputs + 1) r m)
            spartan_assignment
          ≡ row_value (get_or m i []) ark_assignment
    unfolding convert_matrix
    convert_matrix-from i r [] h = refl
    convert_matrix-from zero r (row ∷ m) h =
        triples_value-append (r + 0) (convert_row (length witness) (length inputs + 1) r row) _
          spartan_assignment
        ∙ ap₂ f.add
            (ap
                (λ k.
                  triples_value k (convert_row (length witness) (length inputs + 1) r row)
                    spartan_assignment)
                (omega arith)
              ∙ convert_row-own r row h.0)
            (convert_matrix-before (r + 0) (suc r) m (omega arith))
        ∙ add-zero f (row_value row ark_assignment)
    convert_matrix-from (suc i) r (row ∷ m) h =
        triples_value-append (r + suc i) (convert_row (length witness) (length inputs + 1) r row) _
          spartan_assignment
        ∙ ap₂ f.add (convert_row-other (r + suc i) r row (ground arith)) (
            ap
              (λ k.
                triples_value k (convert_matrix (length witness) (length inputs + 1) (suc r) m)
                  spartan_assignment)
              (omega arith)
            ∙ convert_matrix-from i (suc r) m h.1)
        ∙ f.zero-add (row_value (get_or m i []) ark_assignment)

    -- The assignment of arkworks, the constant 1 before the public inputs and the witnesses, is split
    -- into the inputs and the witnesses; and every row of a matrix whose columns are in range has with
    -- Spartan's assignment, the witnesses before the constant and the inputs, the product that it has
    -- with the one of arkworks.
    pub convert_matrix-same :
        (m : Matrix F) (i : ℕ)
        → All (InRange (length inputs + 1 + length witness)) m
        → (split_assignment (length inputs + 1) ark_assignment ≡ ok (inputs, witness))
          × (triples_value i
                (convert_matrix (length witness) (length inputs + 1) 0 m)
                spartan_assignment
              ≡ row_value (get_or m i []) ark_assignment)
    unfolding split_assignment
    convert_matrix-same m i h = (
      ap (λ n. split_assignment n ark_assignment) counted
          ∙ rw long (
              ap₂ (λ xs ys. ok (xs, ys)) (take-append inputs witness) (drop-append inputs witness)),
      ap
            (λ k.
              triples_value k (convert_matrix (length witness) (length inputs + 1) 0 m)
                spartan_assignment)
            (omega arith)
          ∙ convert_matrix-from i 0 m h,
    )
      where
        counted : length inputs + 1 ≡ suc (length inputs)
        counted = omega arith

        long : ltb (suc (length (inputs ++ witness))) (suc (length inputs)) ≡ false
        long = le→ltb _ _ (omega (arith, length-append inputs witness))
