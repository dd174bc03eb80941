-- ===== src/Algebra/Group.antt =====
-- Lemmas of the curve groups.
use golden_rs.Common.{◌≡◌, sym, ap, ◌∙◌, ◌≡⟨◌⟩◌, ◌∎}
use golden_rs.Algebra.Interfaces.{Field, Curve}

module _ {F : Type 0} (f : Field F) where
  pub add-zero : (a : F) → f.add a f.zero ≡ a
  add-zero a = rw (f.add_comm a f.zero) (f.zero-add a)

  pub mul-one : (a : F) → f.mul a f.one ≡ a
  mul-one a = rw (f.mul_comm a f.one) (f.one-mul a)

  pub add_left_comm : (a b c : F) → f.add a (f.add b c) ≡ f.add b (f.add a c)
  add_left_comm a b c =
      sym (f.add_assoc a b c) ∙ ap (λ t. f.add t c) (f.add_comm a b) ∙ f.add_assoc b a c

  pub add_right_cancel : (a b c : F) → f.add a c ≡ f.add b c → a ≡ b
  add_right_cancel a b c e =
      a
      ≡⟨ sym (add-zero a) ⟩ f.add a f.zero
      ≡⟨ ap (f.add a) (sym (f.add-neg c)) ⟩ f.add a (f.add c (f.neg c))
      ≡⟨ sym (f.add_assoc a c (f.neg c)) ⟩ f.add (f.add a c) (f.neg c)
      ≡⟨ ap (λ t. f.add t (f.neg c)) e ⟩ f.add (f.add b c) (f.neg c)
      ≡⟨ f.add_assoc b c (f.neg c) ⟩ f.add b (f.add c (f.neg c))
      ≡⟨ ap (f.add b) (f.add-neg c) ⟩ f.add b f.zero
      ≡⟨ add-zero b ⟩ b ∎

  -- What was added can be subtracted again.
  pub add-sub : (a b : F) → f.add (f.add a b) (f.neg a) ≡ b
  add-sub a b =
      f.add (f.add a b) (f.neg a)
      ≡⟨ ap (λ t. f.add t (f.neg a)) (f.add_comm a b) ⟩ f.add (f.add b a) (f.neg a)
      ≡⟨ f.add_assoc b a (f.neg a) ⟩ f.add b (f.add a (f.neg a))
      ≡⟨ ap (f.add b) (f.add-neg a) ⟩ f.add b f.zero
      ≡⟨ add-zero b ⟩ b ∎

  pub sub-add : (a b : F) → f.add (f.add a (f.neg b)) b ≡ a
  sub-add a b =
      f.add_assoc a (f.neg b) b ∙ ap (f.add a) (f.add_comm (f.neg b) b ∙ f.add-neg b) ∙ add-zero a

  pub mul-zero : (a : F) → f.mul a f.zero ≡ f.zero
  mul-zero a = add_right_cancel (f.mul a f.zero) f.zero (f.mul a f.zero) (
      sym (f.mul-add a f.zero f.zero)
      ∙ ap (f.mul a) (f.zero-add f.zero)
      ∙ sym (f.zero-add (f.mul a f.zero)))

  pub zero-mul : (a : F) → f.mul f.zero a ≡ f.zero
  zero-mul a = f.mul_comm f.zero a ∙ mul-zero a

  pub add-mul : (a b c : F) → f.mul (f.add a b) c ≡ f.add (f.mul a c) (f.mul b c)
  add-mul a b c = rw (f.mul_comm (f.add a b) c, f.mul_comm a c, f.mul_comm b c) (f.mul-add c a b)

module _ {F G : Type 0} {f : Field F} (g : Curve f G) where
  pub add_identity : (p : G) → g.add p g.zero ≡ p
  add_identity p = g.add_comm p g.zero ∙ g.zero-add p

  pub point_left_comm : (p q r : G) → g.add p (g.add q r) ≡ g.add q (g.add p r)
  point_left_comm p q r =
      sym (g.add_assoc p q r) ∙ ap (λ t. g.add t r) (g.add_comm p q) ∙ g.add_assoc q p r

  pub add_interchange :
      (p q r s : G) → g.add (g.add p q) (g.add r s) ≡ g.add (g.add p r) (g.add q s)
  add_interchange p q r s =
      g.add_assoc p q (g.add r s)
      ∙ ap (g.add p) (point_left_comm q r s)
      ∙ sym (g.add_assoc p r (g.add q s))

  -- A point and its opposite.
  pub add-opposite : (p : G) → g.add p (g.smul p (f.neg f.one)) ≡ g.zero
  add-opposite p =
      g.add p (g.smul p (f.neg f.one))
      ≡⟨ ap (λ t. g.add t (g.smul p (f.neg f.one))) (sym (g.smul-one p)) ⟩
        g.add (g.smul p f.one) (g.smul p (f.neg f.one))
      ≡⟨ sym (g.smul-add p f.one (f.neg f.one)) ⟩ g.smul p (f.add f.one (f.neg f.one))
      ≡⟨ ap (g.smul p) (f.add-neg f.one) ⟩ g.smul p f.zero
      ≡⟨ g.smul-zero p ⟩ g.zero ∎

  pub point_left_cancel : (p q r : G) → g.add p q ≡ g.add p r → q ≡ r
  point_left_cancel p q r e = sym (strip q) ∙ ap (λ t. g.add t (g.smul p (f.neg f.one))) e ∙ strip r
    where
      strip : (x : G) → g.add (g.add p x) (g.smul p (f.neg f.one)) ≡ x
      strip x =
          ap (λ t. g.add t (g.smul p (f.neg f.one))) (g.add_comm p x)
          ∙ g.add_assoc x p (g.smul p (f.neg f.one))
          ∙ ap (g.add x) (add-opposite p)
          ∙ add_identity x

  -- `p - q`: the opposite of a point is its multiple by -1.
  abbrev pub minus : G → G → G
  minus p q = g.add p (g.smul q (f.neg f.one))

  pub add-minus : (p q : G) → minus (g.add q p) q ≡ p
  add-minus p q =
      ap (λ t. g.add t (g.smul q (f.neg f.one))) (g.add_comm q p)
      ∙ g.add_assoc p q (g.smul q (f.neg f.one))
      ∙ ap (g.add p) (add-opposite q)
      ∙ add_identity p
