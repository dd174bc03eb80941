-- ===== src/Algebra/Polynomials/Roots.antt =====
-- A polynomial with as many roots as coefficients is zero everywhere.
use golden_rs.Common.{◌≤◌, ◌≡◌, ◌≢◌, refl, sym, ap, ◌∙◌, List, [], ◌∷◌, length, All, arith}
use golden_rs.Algebra.Interfaces.{Field}
use golden_rs.Algebra.Group.{add-zero, mul-zero, add-mul, add_left_comm, sub-add}
use golden_rs.Algebra.Polynomials.{value, mul_left_comm, no_zero_divisors, sub-zero}

-- The elements of a list are different.
abbrev pub Apart : {A : Type 0} → List A → Type 0
Apart [] = Unit {0}
Apart (x ∷ xs) = All (λ y. y ≢ x) xs × Apart xs

module _ {F : Type 0} (f : Field F) where
  -- Horner's table at `a`: the quotient by x - a of a polynomial with the tail `cs`.
  abbrev quotient : F → List F → List F
  quotient a [] = []
  quotient a (d ∷ cs) = value f (d ∷ cs) a ∷ quotient a cs

  length-quotient : (a : F) (cs : List F) → length (quotient a cs) ≡ length cs
  length-quotient a [] = refl
  length-quotient a (d ∷ cs) = omega (arith, length-quotient a cs)

  quotient_step :
      (m a d t c : F)
      → let z = f.add m a in
        f.mul z (f.add d (f.add (f.mul m t) (f.mul a c)))
        ≡ f.add (f.mul m (f.add (f.add d (f.mul a c)) (f.mul z t))) (f.mul a (f.add d (f.mul a c)))
  quotient_step m a d t c = simp (
    f.add_assoc,
    f.add_comm,
    add_left_comm f,
    f.mul_comm,
    mul_left_comm f,
    f.mul-add,
    f.mul_assoc,
    add-mul f,
  )

  -- x * P(x) = (x - a) * Q(x) + a * P(a)
  divides :
      (m a : F) (cs : List F)
      → let z = f.add m a in
        f.mul z (value f cs z)
        ≡ f.add (f.mul m (value f (quotient a cs) z)) (f.mul a (value f cs a))
  divides m a [] = simp (mul-zero f, add-zero f)
  divides m a (d ∷ cs) =
      ap (λ t. f.mul (f.add m a) (f.add d t)) (divides m a cs)
      ∙ quotient_step m a d (value f (quotient a cs) (f.add m a)) (value f cs a)

  remainder :
      (a c z : F) (cs : List F)
      → value f (c ∷ cs) a ≡ f.zero
      → value f (c ∷ cs) z ≡ f.mul (f.add z (f.neg a)) (value f (quotient a cs) z)
  remainder a c z cs root =
      let m = f.add z (f.neg a) in
      let q = value f (quotient a cs) z in
      ap (f.add c) (
        ap (λ t. f.mul t (value f cs t)) (sym (sub-add f z a))
        ∙ divides m a cs
        ∙ ap (λ t. f.add (f.mul m (value f (quotient a cs) t)) (f.mul a (value f cs a)))
            (sub-add f z a))
      ∙ add_left_comm f c (f.mul m q) (f.mul a (value f cs a))
      ∙ ap (f.add (f.mul m q)) root
      ∙ add-zero f (f.mul m q)

  quotient_roots :
      (a c : F) (cs xs : List F)
      → value f (c ∷ cs) a ≡ f.zero
      → All (λ y. y ≢ a) xs
      → All (λ y. value f (c ∷ cs) y ≡ f.zero) xs
      → All (λ y. value f (quotient a cs) y ≡ f.zero) xs
  quotient_roots a c cs [] root apart zeros = tt
  quotient_roots a c cs (x ∷ xs) root apart zeros = (
    no_zero_divisors f (f.add x (f.neg a)) (value f (quotient a cs) x)
        (λ e. apart.0 (sub-zero f x a e)) (sym (remainder a c x cs root) ∙ zeros.0),
    quotient_roots a c cs xs root apart.1 zeros.1,
  )

  pub vanishes :
      (cs xs : List F) (z : F)
      → length cs ≤ length xs
      → Apart xs
      → All (λ y. value f cs y ≡ f.zero) xs
      → value f cs z ≡ f.zero
  vanishes [] xs z few apart zeros = refl
  vanishes (c ∷ cs) [] z few apart zeros = absurd (omega (arith, few))
  vanishes (c ∷ cs) (x ∷ xs) z few apart zeros =
      remainder x c z cs zeros.0
      ∙ ap (f.mul (f.add z (f.neg x))) (
          vanishes (quotient x cs) xs z (omega (arith, few, length-quotient x cs)) apart.1
            (quotient_roots x c cs xs zeros.0 apart.0 zeros.1))
      ∙ mul-zero f (f.add z (f.neg x))
