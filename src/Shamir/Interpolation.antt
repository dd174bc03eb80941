-- ===== src/Shamir/Interpolation.antt =====
-- The polynomials behind Lagrange interpolation at the nodes of a list of ids: the basis, and the
-- polynomial through given points, for golden-dkg/src/shamir.rs and threshold/signing.rs.
use golden_rs.Common.{
  ℕ, suc, ◌≤◌, ◌≡◌, ◌≢◌, refl, sym, ap, ap₂, ◌∙◌, true, false, Bool-cases, List, [], ◌∷◌, length,
  length-map, map, arith, All, any, nat_beq, if◌then◌else◌, none, some, Option-cases, inl, inr,
}
use golden_rs.Algebra.{Field}
use golden_rs.Algebra.Group.{add-zero, mul-zero, zero-mul, mul-one}
use golden_rs.Algebra.Polynomials.{
  value, scale, plus, times_linear, value-scale, value-plus, value-times_linear, length-plus,
  length-times_linear, sub-zero,
}

abbrev pub ids : {V : Type 0} → List (ℕ × V) → List ℕ
ids shares = map (λ s. s.0) shares

-- The ids of a list are different.
abbrev pub DistinctIds : {V : Type 0} → List (ℕ × V) → Type 0
DistinctIds [] = Unit {0}
DistinctIds ((x, y) ∷ rest) = All (λ s. s.0 ≢ x) rest × DistinctIds rest

-- The id is in the list.
abbrev pub Holds : ℕ → List ℕ → Type 0
Holds id xs = any (λ x. nat_beq x id) xs ≡ true

module _ {F : Type 0} (f : Field F) where
  -- The inverse, where there is one.
  abbrev pub inverse_of : F → F
  inverse_of a = elim (f.inverse a) [ none ↦ f.zero | some i ↦ i ]

  pub inverse-inverse_of : (a : F) → a ≢ f.zero → f.inverse a ≡ some (inverse_of a)
  inverse-inverse_of a apart = elim (Option-cases (f.inverse a)) [
    | inl stops ↦ absurd (apart (f.inverse-none a stops))
    | inr (i, inverts) ↦
        inverts ∙ ap (λ o. some (elim o [ none ↦ f.zero | some i ↦ i ])) (sym inverts)
  ]

  -- The node of `id` is none of the others'.
  abbrev pub Separated : ℕ → List ℕ → Type 0
  Separated id xs = All (λ x. x ≢ id → f.from_u64 x ≢ f.from_u64 id) xs

  -- The coefficients of the product over the other nodes x_j of (x_j - x) / (x_j - x_i).
  abbrev pub basis : List ℕ → ℕ → List F
  basis [] id = f.one ∷ []
  basis (x ∷ xs) id =
      let rest = basis xs id in
      if nat_beq x id
      then rest
      else times_linear f (f.from_u64 x) (inverse_of (f.add (f.from_u64 x) (f.neg (f.from_u64 id))))
          rest

  pub separate :
      (x id : ℕ)
      → f.from_u64 x ≢ f.from_u64 id
      → f.add (f.from_u64 x) (f.neg (f.from_u64 id)) ≢ f.zero
  separate x id apart e = apart (sub-zero f (f.from_u64 x) (f.from_u64 id) e)

  beq_apart : (x id : ℕ) → nat_beq x id ≡ false → x ≢ id
  beq_apart x id h = ground arith

  pub value_linear :
      (x id : ℕ) (z : F) (cs : List F)
      → value f
          (times_linear f
            (f.from_u64 x)
            (inverse_of (f.add (f.from_u64 x) (f.neg (f.from_u64 id))))
            cs)
          z
        ≡ f.mul
            (f.mul
              (f.add (f.from_u64 x) (f.neg z))
              (inverse_of (f.add (f.from_u64 x) (f.neg (f.from_u64 id)))))
            (value f cs z)
  value_linear x id z cs = value-times_linear f (f.from_u64 x) _ cs z

  -- One at the own node.
  pub basis-own :
      (xs : List ℕ) (id : ℕ) → Separated id xs → value f (basis xs id) (f.from_u64 id) ≡ f.one
  basis-own [] id s = rw (mul-zero f (f.from_u64 id)) (add-zero f f.one)
  basis-own (x ∷ xs) id s = elim (Bool-cases (nat_beq x id)) [
    | inl same ↦ rw same (basis-own xs id s.1)
    | inr other ↦ rw other (
        value_linear x id (f.from_u64 id) (basis xs id)
        ∙ ap₂ f.mul
            (f.inverse-some _ _ (inverse-inverse_of _ (separate x id (s.0 (beq_apart x id other)))))
            (basis-own xs id s.1)
        ∙ f.one-mul f.one)
  ]

  -- Zero at the others.
  pub basis-other :
      (xs : List ℕ) (id y : ℕ) → Holds y xs → y ≢ id → value f (basis xs id) (f.from_u64 y) ≡ f.zero
  basis-other [] id y h apart = cc
  basis-other (x ∷ xs) id y h apart = elim (Bool-cases (nat_beq x id)) [
    | inl same ↦ rw same (basis-other xs id y (ground arith) apart)
    | inr other ↦ rw other (
        value_linear x id (f.from_u64 y) (basis xs id) ∙ elim (Bool-cases (nat_beq x y)) [
          | inl here ↦
              gone x y (inverse_of (f.add (f.from_u64 x) (f.neg (f.from_u64 id))))
                (value f (basis xs id) (f.from_u64 y)) (ground arith)
          | inr there ↦ ap (f.mul _) (basis-other xs id y (ground arith) apart) ∙ mul-zero f _
        ])
  ]
    where
      gone :
          (x y : ℕ) (i v : F)
          → x ≡ y
          → f.mul (f.mul (f.add (f.from_u64 x) (f.neg (f.from_u64 y))) i) v ≡ f.zero
      gone x y i v e =
          ap (λ t. f.mul (f.mul t i) v)
            (ap (λ w. f.add (f.from_u64 w) (f.neg (f.from_u64 y))) e ∙ f.add-neg (f.from_u64 y))
          ∙ ap (λ t. f.mul t v) (zero-mul f i)
          ∙ zero-mul f v

  length-basis_any : (xs : List ℕ) (id : ℕ) → length (basis xs id) ≤ suc (length xs)
  length-basis_any [] id = omega arith
  length-basis_any (x ∷ xs) id = elim (Bool-cases (nat_beq x id)) [
    | inl same ↦ rw same (omega (arith, length-basis_any xs id))
    | inr other ↦ rw other (
        omega (
          arith,
          length-basis_any xs id,
          length-times_linear f (f.from_u64 x)
              (inverse_of (f.add (f.from_u64 x) (f.neg (f.from_u64 id)))) (basis xs id),
        ))
  ]

  pub length-basis : (xs : List ℕ) (id : ℕ) → Holds id xs → length (basis xs id) ≤ length xs
  length-basis [] id h = cc
  length-basis (x ∷ xs) id h = elim (Bool-cases (nat_beq x id)) [
    | inl same ↦ rw same (length-basis_any xs id)
    | inr other ↦ rw other (
        omega (
          arith,
          length-basis xs id (ground arith),
          length-times_linear f (f.from_u64 x)
              (inverse_of (f.add (f.from_u64 x) (f.neg (f.from_u64 id)))) (basis xs id),
        ))
  ]

  -- The polynomial through the points of a list whose ids are among `xs`.
  abbrev pub through : List ℕ → List (ℕ × F) → List F
  through xs [] = []
  through xs ((x, y) ∷ rest) = plus f (scale f y (basis xs x)) (through xs rest)

  -- The ids of the points are among the nodes, and their nodes are different.
  abbrev pub OnNodes : List ℕ → List (ℕ × F) → Type 0
  OnNodes xs points = All (λ s. Holds s.0 xs × Separated s.0 xs) points

  pub length-through :
      (xs : List ℕ) (points : List (ℕ × F))
      → OnNodes xs points
      → length (through xs points) ≤ length xs
  length-through xs [] on = omega arith
  length-through xs ((x, y) ∷ rest) on =
      length-plus f (length xs) (scale f y (basis xs x)) (through xs rest)
        (omega (arith, length-map (f.mul y) (basis xs x), length-basis xs x on.0.0))
        (length-through xs rest on.1)

  pub value-through :
      (xs : List ℕ) (x : ℕ) (y : F) (rest : List (ℕ × F)) (z : F)
      → value f (through xs ((x, y) ∷ rest)) z
        ≡ f.add (f.mul y (value f (basis xs x) z)) (value f (through xs rest) z)
  value-through xs x y rest z =
      value-plus f (scale f y (basis xs x)) (through xs rest) z
      ∙ ap (λ t. f.add t (value f (through xs rest) z)) (value-scale f y (basis xs x) z)

  through-other :
      (xs : List ℕ) (id : ℕ) (rest : List (ℕ × F))
      → Holds id xs
      → All (λ s. s.0 ≢ id) rest
      → value f (through xs rest) (f.from_u64 id) ≡ f.zero
  through-other xs id [] h apart = refl
  through-other xs id ((x, y) ∷ rest) h apart =
      value-through xs x y rest (f.from_u64 id)
      ∙ ap₂ f.add (ap (f.mul y) (basis-other xs x id h (λ e. apart.0 (sym e))) ∙ mul-zero f y)
          (through-other xs id rest h apart.1)
      ∙ f.zero-add f.zero

  All-points :
      (xs : List ℕ) (x : ℕ) (y : F) (rest points : List (ℕ × F))
      → OnNodes xs points
      → All (λ s. s.0 ≢ x) points
      → All (λ s. value f (through xs rest) (f.from_u64 s.0) ≡ s.1) points
      → All (λ s. value f (through xs ((x, y) ∷ rest)) (f.from_u64 s.0) ≡ s.1) points
  All-points xs x y rest [] on apart hits = tt
  All-points xs x y rest ((w, v) ∷ points) on apart hits = (
    value-through xs x y rest (f.from_u64 w)
        ∙ ap₂ f.add (ap (f.mul y) (basis-other xs x w on.0.0 apart.0) ∙ mul-zero f y) hits.0
        ∙ f.zero-add v,
    All-points xs x y rest points on.1 apart.1 hits.1,
  )

  -- It goes through the points.
  pub through-points :
      (xs : List ℕ) (points : List (ℕ × F))
      → OnNodes xs points
      → DistinctIds points
      → All (λ s. value f (through xs points) (f.from_u64 s.0) ≡ s.1) points
  through-points xs [] on d = tt
  through-points xs ((x, y) ∷ rest) on d = (
    value-through xs x y rest (f.from_u64 x)
        ∙ ap₂ f.add (ap (f.mul y) (basis-own xs x on.0.1) ∙ mul-one f y)
            (through-other xs x rest on.0.0 d.0)
        ∙ add-zero f y,
    All-points xs x y rest rest on.1 d.0 (through-points xs rest on.1 d.1),
  )
