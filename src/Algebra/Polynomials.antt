-- ===== src/Algebra/Polynomials.antt =====
-- Polynomials over the scalar field by their coefficients, the lowest first: what the proofs on
-- sharings in golden-dkg/src/shamir.rs need of them.
pub mod Roots
use golden_rs.Common.{
  ℕ, zero, suc, ◌≤◌, ◌≡◌, ◌≢◌, refl, sym, ap, ap₂, ◌∙◌, List, [], ◌∷◌, length, map, length-map, max,
  arith, Option, none, some, Option-cases, inl, inr,
}
use golden_rs.Algebra.Interfaces.{Field}
use golden_rs.Algebra.Group.{add-zero, mul-zero, zero-mul, add-mul, add_left_comm, add-sub, sub-add}

module _ {F : Type 0} (f : Field F) where
  -- a_0 + x * (a_1 + x * (...)): the value of a polynomial, by its coefficients.
  abbrev pub value : List F → F → F
  value [] x = f.zero
  value (a ∷ cs) x = f.add a (f.mul x (value cs x))

  pub mul_left_comm : (a b c : F) → f.mul a (f.mul b c) ≡ f.mul b (f.mul a c)
  mul_left_comm a b c =
      sym (f.mul_assoc a b c) ∙ ap (λ t. f.mul t c) (f.mul_comm a b) ∙ f.mul_assoc b a c

  pub neg_unique : (a b : F) → f.add a b ≡ f.zero → b ≡ f.neg a
  neg_unique a b e = sym (add-sub f a b) ∙ ap (λ t. f.add t (f.neg a)) e ∙ f.zero-add (f.neg a)

  pub neg-mul : (a b : F) → f.mul (f.neg a) b ≡ f.neg (f.mul a b)
  neg-mul a b =
      neg_unique (f.mul a b) (f.mul (f.neg a) b)
        (sym (add-mul f a (f.neg a) b) ∙ ap (λ t. f.mul t b) (f.add-neg a) ∙ zero-mul f b)

  -- A field has no zero divisors, and a difference is zero only between equals.
  pub no_zero_divisors : (a b : F) → a ≢ f.zero → f.mul a b ≡ f.zero → b ≡ f.zero
  no_zero_divisors a b apart e = elim (Option-cases (f.inverse a)) [
    | inl stops ↦ absurd (apart (f.inverse-none a stops))
    | inr (i, inverts) ↦
        sym (f.one-mul b)
        ∙ ap (λ t. f.mul t b) (sym (f.inverse-some a i inverts) ∙ f.mul_comm a i)
        ∙ f.mul_assoc i a b
        ∙ ap (f.mul i) e
        ∙ mul-zero f i
  ]

  pub sub-zero : (a b : F) → f.add a (f.neg b) ≡ f.zero → a ≡ b
  sub-zero a b e = sym (sub-add f a b) ∙ ap (λ t. f.add t b) e ∙ f.zero-add b

  abbrev pub scale : F → List F → List F
  scale y cs = map (f.mul y) cs

  pub value-scale : (y : F) (cs : List F) (x : F) → value (scale y cs) x ≡ f.mul y (value cs x)
  value-scale y [] x = sym (mul-zero f y)
  value-scale y (c ∷ cs) x = rw (value-scale y cs x) (simp (f.mul-add, mul_left_comm))

  abbrev pub plus : List F → List F → List F
  plus [] ys = ys
  plus (a ∷ xs) [] = a ∷ xs
  plus (a ∷ xs) (b ∷ ys) = f.add a b ∷ plus xs ys

  pub value-plus : (xs ys : List F) (x : F) → value (plus xs ys) x ≡ f.add (value xs x) (value ys x)
  value-plus [] ys x = sym (f.zero-add (value ys x))
  value-plus (a ∷ xs) [] x = sym (add-zero f (value (a ∷ xs) x))
  value-plus (a ∷ xs) (b ∷ ys) x =
      rw (value-plus xs ys x) (simp (f.mul-add, f.add_assoc, f.add_comm, add_left_comm f))

  pub length-plus :
      (n : ℕ) (xs ys : List F) → length xs ≤ n → length ys ≤ n → length (plus xs ys) ≤ n
  length-plus n [] ys p q = q
  length-plus n (a ∷ xs) [] p q = p
  length-plus (suc n) (a ∷ xs) (b ∷ ys) p q =
      omega (arith, length-plus n xs ys (omega (arith, p)) (omega (arith, q)))
  length-plus zero (a ∷ xs) (b ∷ ys) p q = absurd (omega (arith, p))

  -- The product with b * (a - x).
  abbrev pub times_linear : F → F → List F → List F
  times_linear a b cs = scale b (plus (scale a cs) (f.zero ∷ scale (f.neg f.one) cs))

  pub value-times_linear :
      (a b : F) (cs : List F) (x : F)
      → value (times_linear a b cs) x ≡ f.mul (f.mul (f.add a (f.neg x)) b) (value cs x)
  value-times_linear a b cs x =
      let v = value cs x in
      let minus_x : f.mul x (f.mul (f.neg f.one) v) ≡ f.mul (f.neg x) v =
        mul_left_comm x (f.neg f.one) v
        ∙ neg-mul f.one (f.mul x v)
        ∙ ap f.neg (f.one-mul (f.mul x v))
        ∙ sym (neg-mul x v) in
      value-scale b (plus (scale a cs) (f.zero ∷ scale (f.neg f.one) cs)) x
      ∙ ap (f.mul b) (
          value-plus (scale a cs) (f.zero ∷ scale (f.neg f.one) cs) x
          ∙ ap₂ f.add (value-scale a cs x) (
              f.zero-add (f.mul x (value (scale (f.neg f.one) cs) x))
              ∙ ap (f.mul x) (value-scale (f.neg f.one) cs x)
              ∙ minus_x)
          ∙ sym (add-mul f a (f.neg x) v))
      ∙ simp (f.mul_assoc, f.mul_comm, mul_left_comm)

  pub length-times_linear : (a b : F) (cs : List F) → length (times_linear a b cs) ≤ suc (length cs)
  length-times_linear a b cs = omega (
    arith,
    length-map (f.mul b) (plus (scale a cs) (f.zero ∷ scale (f.neg f.one) cs)),
    length-plus (suc (length cs)) (scale a cs) (f.zero ∷ scale (f.neg f.one) cs)
        (omega (arith, length-map (f.mul a) cs))
        (omega (arith, length-map (f.mul (f.neg f.one)) cs)),
  )
