-- ===== src/Threshold/Signing/Coefficients.antt =====
-- The two implementations of the Lagrange coefficient, `lagrange_coeff` by ids and the inner loop of
-- `lagrange_interpolate_at_zero` by positions, agree when the ids are different.
use golden_rs.Common.{
  ℕ, suc, ◌+◌, ◌≡◌, ◌≢◌, refl, sym, ◌∙◌, ◌<◌, List, [], ◌∷◌, ◌++◌, length, length-append, subst,
  arith, some, nat_beq, nat_eq, All, ◌>>=◌, if◌then◌else◌,
}
use mathlib.Core.List.{append_assoc}
use golden_rs.Algebra.{Field}
use golden_rs.Shamir.{basis_step, basis_loop}
use golden_rs.Shamir.Interpolation.{ids, DistinctIds}
use golden_rs.Threshold.Signing.{lagrange_step, lagrange_loop}

-- Position `i` is the only one of the list, from position `j` on, that holds the id.
abbrev pub Located : {V : Type 0} → ℕ → ℕ → ℕ → List (ℕ × V) → Type 0
Located i id j [] = Unit {0}
Located i id j ((x, y) ∷ rest) = (nat_beq i j ≡ nat_beq x id) × Located i id (suc j) rest

module _ {V : Type 0} where
  Located-after :
      (i id j : ℕ) (shares : List (ℕ × V))
      → i < j
      → All (λ s. s.0 ≢ id) shares
      → Located i id j shares
  Located-after i id j [] h apart = tt
  Located-after i id j ((x, y) ∷ rest) h apart =
      (ground (arith, apart.0), Located-after i id (suc j) rest (omega arith) apart.1)

  All-middle :
      (x : ℕ) (y : V) (before rest : List (ℕ × V)) (z : ℕ)
      → All (λ s. s.0 ≢ z) (before ++ ((x, y) ∷ rest))
      → x ≢ z
  All-middle x y [] rest z apart = apart.0
  All-middle x y (b ∷ before) rest z apart = All-middle x y before rest z apart.1

  Located-DistinctIds :
      (i x j : ℕ) (y : V) (before rest : List (ℕ × V))
      → i ≡ j + length before
      → DistinctIds (before ++ ((x, y) ∷ rest))
      → Located i x j (before ++ ((x, y) ∷ rest))
  Located-DistinctIds i x j y [] rest e d =
      (ground arith, Located-after i x (suc j) rest (omega arith) d.0)
  Located-DistinctIds i x j y ((w, v) ∷ before) rest e d = (
    ground (arith, All-middle x y before rest w d.0),
    Located-DistinctIds i x (suc j) y before rest (omega arith) d.1,
  )

  -- Each share from position `i` on is the only one with its id.
  abbrev pub LocatedFrom : List (ℕ × V) → ℕ → List (ℕ × V) → Type 0
  LocatedFrom shares i [] = Unit {0}
  LocatedFrom shares i ((x, y) ∷ rest) = Located i x 0 shares × LocatedFrom shares (suc i) rest

  LocatedFrom-rest :
      (i : ℕ) (before rest shares : List (ℕ × V))
      → i ≡ length before
      → shares ≡ before ++ rest
      → DistinctIds shares
      → LocatedFrom shares i rest
  LocatedFrom-rest i before [] shares e split d = tt
  LocatedFrom-rest i before ((x, y) ∷ rest) shares e split d = (
    subst (λ l. Located i x 0 l) (sym split)
        (Located-DistinctIds i x 0 y before rest (omega arith) (subst DistinctIds split d)),
    LocatedFrom-rest (suc i) (before ++ ((x, y) ∷ [])) rest shares
        (omega (arith, length-append before ((x, y) ∷ [])))
        (split ∙ sym (append_assoc before ((x, y) ∷ []) rest)) d,
  )

  pub LocatedFrom-DistinctIds :
      (shares : List (ℕ × V)) → DistinctIds shares → LocatedFrom shares 0 shares
  LocatedFrom-DistinctIds shares d = LocatedFrom-rest 0 [] shares shares refl refl d

module _ {F : Type 0} (f : Field F) where
  pub basis_loop-lagrange_loop :
      (i id j : ℕ) (li : F) (shares : List (ℕ × F))
      → Located i id j shares
      → basis_loop f i (f.from_u64 id) j li shares ≡ lagrange_loop f id li (ids shares)
  unfolding basis_loop basis_step lagrange_loop lagrange_step
  basis_loop-lagrange_loop i id j li [] l = refl
  basis_loop-lagrange_loop i id j li ((x, y) ∷ rest) l = λ z.
      (if l.0 z then some li else (do
        inv ← f.inverse (f.add (f.from_u64 x) (f.neg (f.from_u64 id)))
        some (f.mul li (f.mul (f.from_u64 x) inv))))
      >>= (λ li'. basis_loop-lagrange_loop i id (suc j) li' rest l.1 z)
