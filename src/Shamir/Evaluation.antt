-- ===== src/Shamir/Evaluation.antt =====
-- Horner's loop computes the value of the polynomial, and shares are such values.
use golden_rs.Common.{
  ℕ, zero, suc, ◌≤◌, ◌≡◌, refl, sym, ap, ◌∙◌, ◌≡⟨◌⟩◌, ◌∎, List, [], ◌∷◌, ◌++◌, length, take, get_or,
  arith, ap₂, take-suc, length-take, take-length,
}
use golden_rs.Algebra.{Field}
use golden_rs.Algebra.Polynomials.{value}
use golden_rs.Algebra.Group.{add-zero, mul-zero}
use golden_rs.Shamir.{Polynomial, horner, evaluate}

module _ {F : Type 0} (f : Field F) where
  abbrev pub power : F → ℕ → F
  power x zero = f.one
  power x (suc n) = f.mul x (power x n)

  value-append :
      (cs : List F) (b x : F)
      → value f (cs ++ (b ∷ [])) x ≡ f.add (value f cs x) (f.mul (power x (length cs)) b)
  value-append [] b x = rw (mul-zero f x, add-zero f b, f.one-mul b, f.zero-add b)
  value-append (a ∷ cs) b x = rw (
    value-append cs b x,
    f.mul-add x (value f cs x) (f.mul (power x (length cs)) b),
    f.mul_assoc x (power x (length cs)) b,
    f.add_assoc a (f.mul x (value f cs x)),
  )

  horner-value :
      (cs : List F) (x : F) (k : ℕ) (result : F)
      → k ≤ length cs
      → horner f cs x k result ≡ f.add (value f (take k cs) x) (f.mul (power x k) result)
  unfolding horner
  horner-value cs x zero result h = rw (f.one-mul result, f.zero-add result)
  horner-value cs x (suc k) result h =
      let c = get_or cs k f.zero in
      let v = value f (take k cs) x in
      let p = power x k in
      horner f cs x k (f.add (f.mul result x) c)
      ≡⟨ horner-value cs x k (f.add (f.mul result x) c) (omega arith) ⟩
        f.add v (f.mul p (f.add (f.mul result x) c))
      ≡⟨ ap (f.add v) (f.mul-add p (f.mul result x) c) ⟩
        f.add v (f.add (f.mul p (f.mul result x)) (f.mul p c))
      ≡⟨ ap (f.add v) (f.add_comm (f.mul p (f.mul result x)) (f.mul p c)) ⟩
        f.add v (f.add (f.mul p c) (f.mul p (f.mul result x)))
      ≡⟨ sym (f.add_assoc v (f.mul p c) (f.mul p (f.mul result x))) ⟩
        f.add (f.add v (f.mul p c)) (f.mul p (f.mul result x))
      ≡⟨ ap₂ f.add (sym last) (shuffle p result x) ⟩
        f.add (value f (take (suc k) cs) x) (f.mul (f.mul x p) result) ∎
    where
      shuffle : (p r x : F) → f.mul p (f.mul r x) ≡ f.mul (f.mul x p) r
      shuffle p r x =
          ap (f.mul p) (f.mul_comm r x)
          ∙ sym (f.mul_assoc p x r)
          ∙ ap (λ t. f.mul t r) (f.mul_comm p x)

      last :
          value f (take (suc k) cs) x
          ≡ f.add (value f (take k cs) x) (f.mul (power x k) (get_or cs k f.zero))
      last = rw (take-suc cs k f.zero h) (
          rw (value-append (take k cs) (get_or cs k f.zero) x, length-take cs k (omega arith)) refl)

  -- Horner's loop, as `evaluate` runs it, returns the value of the polynomial at every point.
  pub evaluate-value :
      (poly : Polynomial F) (x : F) → evaluate f poly x ≡ value f poly.coefficients x
  unfolding evaluate
  evaluate-value poly x =
      horner-value poly.coefficients x (length poly.coefficients) f.zero (omega arith)
      ∙ rw (
        take-length poly.coefficients,
        mul-zero f (power x (length poly.coefficients)),
        add-zero f (value f poly.coefficients x),
      )
