-- ===== src/Threshold/Signing/Reconstruction.antt =====
-- What the interpolation at zero returns: the value at zero of the polynomial through the shares
-- (golden-dkg/src/shamir.rs, golden-dkg/src/threshold/signing.rs).
use golden_rs.Common.{
  subst, ℕ, suc, ◌≡◌, ◌≢◌, sym, ap, ◌∙◌, List, [], ◌∷◌, map, arith, All, Bool-cases, inl, inr, some,
  ◌>>=◌, nat_beq, false, nat_eq,
}
use golden_rs.Algebra.{Field}
use golden_rs.Algebra.Group.{add-zero, mul-zero, mul-one, add-sub}
use golden_rs.Algebra.Polynomials.{value}
use golden_rs.Algebra.Polynomials.Roots.{Apart}
use golden_rs.Shamir.{basis_loop, interpolate_loop, lagrange_interpolate_at_zero}
use golden_rs.Shamir.Interpolation.{
  ids, DistinctIds, Holds, Separated, OnNodes, inverse_of, inverse-inverse_of, separate, basis,
  through, value_linear, value-through,
}
use golden_rs.Threshold.Signing.{lagrange_step, lagrange_loop, lagrange_coeff}
use golden_rs.Threshold.Signing.Coefficients.{
  Located, LocatedFrom, LocatedFrom-DistinctIds, basis_loop-lagrange_loop,
}

module _ {F : Type 0} (f : Field F) where
  -- The coefficient of `id`: its basis polynomial at zero.
  abbrev pub weight : List ℕ → ℕ → F
  weight xs id = value f (basis f xs id) f.zero

  sub_zero_node : (a : F) → f.add a (f.neg f.zero) ≡ a
  sub_zero_node a = sym (ap (λ t. f.add t (f.neg f.zero)) (f.zero-add a)) ∙ add-sub f f.zero a

  beq_apart : (x id : ℕ) → nat_beq x id ≡ false → x ≢ id
  beq_apart x id h = ground arith

  lagrange_loop-weight :
      (xs : List ℕ) (id : ℕ) (li : F)
      → Separated f id xs
      → lagrange_loop f id li xs ≡ some (f.mul li (weight xs id))
  unfolding lagrange_loop lagrange_step
  lagrange_loop-weight [] id li s =
      ap some (
        sym
          (ap (f.mul li) (ap (f.add f.one) (mul-zero f f.zero) ∙ add-zero f f.one) ∙ mul-one f li))
  lagrange_loop-weight (x ∷ xs) id li s = elim (Bool-cases (nat_beq x id)) [
    | inl same ↦ rw same (lagrange_loop-weight xs id li s.1)
    | inr other ↦ rw other (
        let a = f.from_u64 x in
        let d = f.add a (f.neg (f.from_u64 id)) in
        let i = inverse_of f d in
        ap
          (λ o.
            (o >>= (λ inv. some (f.mul li (f.mul a inv)))) >>= (λ li'. lagrange_loop f id li' xs))
          (inverse-inverse_of f d (separate f x id (s.0 (beq_apart x id other))))
        ∙ lagrange_loop-weight xs id (f.mul li (f.mul a i)) s.1
        ∙ ap some (
            f.mul_assoc li (f.mul a i) (weight xs id)
            ∙ ap (f.mul li) (
                sym (
                  value_linear f x id f.zero (basis f xs id)
                  ∙ ap (λ t. f.mul (f.mul t i) (weight xs id)) (sub_zero_node a)))))
  ]

  -- `lagrange_coeff` does not panic where the nodes are different, and returns the weight.
  pub lagrange_coeff-weight :
      (xs : List ℕ) (id : ℕ) → Separated f id xs → lagrange_coeff f id xs ≡ some (weight xs id)
  unfolding lagrange_coeff
  lagrange_coeff-weight xs id s =
      lagrange_loop-weight xs id f.one s ∙ ap some (f.one-mul (weight xs id))

  pub basis_loop-weight :
      (i id : ℕ) (all : List (ℕ × F))
      → Located i id 0 all
      → Separated f id (ids all)
      → basis_loop f i (f.from_u64 id) 0 f.one all ≡ some (weight (ids all) id)
  basis_loop-weight i id all l s =
      basis_loop-lagrange_loop f i id 0 f.one all l
      ∙ lagrange_loop-weight (ids all) id f.one s
      ∙ ap some (f.one-mul (weight (ids all) id))

  interpolate_loop-through :
      (all : List (ℕ × F)) (i : ℕ) (result : F) (rest : List (ℕ × F))
      → LocatedFrom all i rest
      → OnNodes f (ids all) rest
      → interpolate_loop f all i result rest
        ≡ some (f.add result (value f (through f (ids all) rest) f.zero))
  unfolding interpolate_loop
  interpolate_loop-through all i result [] l on = ap some (sym (add-zero f result))
  interpolate_loop-through all i result ((x, y) ∷ rest) l on =
      let w = weight (ids all) x in
      ap (λ o. o >>= (λ li. interpolate_loop f all (suc i) (f.add result (f.mul y li)) rest))
        (basis_loop-weight i x all l.0 on.0.1)
      ∙ interpolate_loop-through all (suc i) (f.add result (f.mul y w)) rest l.1 on.1
      ∙ ap some (
          f.add_assoc result (f.mul y w) (value f (through f (ids all) rest) f.zero)
          ∙ ap (f.add result) (sym (value-through f (ids all) x y rest f.zero)))

  -- The nodes of a list of ids.
  abbrev pub nodes : List ℕ → List F
  nodes xs = map f.from_u64 xs

  All-node :
      (P : F → Type 0) (xs : List ℕ) (id : ℕ) → All P (nodes xs) → Holds id xs → P (f.from_u64 id)
  All-node P [] id all h = cc
  All-node P (x ∷ xs) id all h = elim (Bool-cases (nat_beq x id)) [
    | inl same ↦ subst (λ w. P (f.from_u64 w)) (ground arith) all.0
    | inr other ↦ All-node P xs id all.1 (ground arith)
  ]

  Separated-nodes :
      (xs : List ℕ) (id : ℕ) → All (λ a. a ≢ f.from_u64 id) (nodes xs) → Separated f id xs
  Separated-nodes [] id all = tt
  Separated-nodes (x ∷ xs) id all = (λ e. all.0, Separated-nodes xs id all.1)

  Separated-Apart : (xs : List ℕ) (id : ℕ) → Apart (nodes xs) → Holds id xs → Separated f id xs
  Separated-Apart [] id apart h = tt
  Separated-Apart (x ∷ xs) id apart h = elim (Bool-cases (nat_beq x id)) [
    | inl same ↦ (
      λ e. absurd (e (ground arith)),
      Separated-nodes xs id
          (subst (λ w. All (λ a. a ≢ f.from_u64 w) (nodes xs)) (ground arith) apart.0),
    )
    | inr other ↦
        let h' : Holds id xs = ground arith in
        (
          λ e q. All-node (λ a. a ≢ f.from_u64 x) xs id apart.0 h' (sym q),
          Separated-Apart xs id apart.1 h',
        )
  ]

  All-ids :
      (P : ℕ → Type 0) (points : List (ℕ × F))
      → ((id : ℕ) → Holds id (ids points) → P id)
      → All (λ s. P s.0) points
  All-ids P [] each = tt
  All-ids P ((x, y) ∷ points) each =
      (each x (ground arith), All-ids P points (λ id h. each id (ground (arith, h))))

  pub OnNodes-Apart :
      (points : List (ℕ × F)) → Apart (nodes (ids points)) → OnNodes f (ids points) points
  OnNodes-Apart points apart =
      All-ids (λ id. Holds id (ids points) × Separated f id (ids points)) points
        (λ id h. (h, Separated-Apart (ids points) id apart h))

  ids_apart :
      {V : Type 0} (id : ℕ) (points : List (ℕ × V))
      → All (λ a. a ≢ f.from_u64 id) (nodes (ids points))
      → All (λ s. s.0 ≢ id) points
  ids_apart id [] all = tt
  ids_apart id ((x, y) ∷ points) all = (λ e. all.0 (ap f.from_u64 e), ids_apart id points all.1)

  pub DistinctIds-Apart :
      {V : Type 0} (points : List (ℕ × V)) → Apart (nodes (ids points)) → DistinctIds points
  DistinctIds-Apart [] apart = tt
  DistinctIds-Apart ((x, y) ∷ points) apart =
      (ids_apart x points apart.0, DistinctIds-Apart points apart.1)

  -- Shares with different nodes are put together without a panic, to the value at zero of the
  -- polynomial through them.
  pub lagrange_interpolate_at_zero-through :
      (points : List (ℕ × F))
      → Apart (nodes (ids points))
      → lagrange_interpolate_at_zero f points
        ≡ some (value f (through f (ids points) points) f.zero)
  unfolding lagrange_interpolate_at_zero
  lagrange_interpolate_at_zero-through points apart =
      interpolate_loop-through points 0 f.zero points
        (LocatedFrom-DistinctIds points (DistinctIds-Apart points apart))
        (OnNodes-Apart points apart)
      ∙ ap some (f.zero-add (value f (through f (ids points) points) f.zero))
