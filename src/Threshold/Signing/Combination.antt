-- ===== src/Threshold/Signing/Combination.antt =====
-- `combine_dynamic` on the partial signatures of key shares, against the interpolation of the
-- shares at zero (golden-dkg/src/threshold/signing.rs, golden-dkg/src/shamir.rs).
use golden_rs.Common.{
  ℕ, suc, ◌≡◌, refl, sym, ap, ap₂, ◌∙◌, ◌≤◌, List, [], ◌∷◌, length, map, ap₂, length-map, ap₂,
  arith, Option, some, none, ◌>>=◌, le→ltb,
}
use golden_rs.Algebra.{Field, Curve}
use golden_rs.Shamir.{basis_loop, interpolate_loop, lagrange_interpolate_at_zero}
use golden_rs.Threshold.Types.{KeyShare, PartialSignature}
use golden_rs.Threshold.Signing.{
  lagrange_coeff, partial_sign, combine_loop, first_partials, combine_dynamic,
}
use golden_rs.Shamir.Interpolation.{ids, DistinctIds}
use golden_rs.Threshold.Signing.Coefficients.{
  LocatedFrom, LocatedFrom-DistinctIds, basis_loop-lagrange_loop,
}

>>=-assoc :
    {A B C : Type 0} (o : Option A) (k : A → Option B) (l : B → Option C)
    → ((o >>= k) >>= l) ≡ (o >>= (λ a. k a >>= l))
>>=-assoc none k l = refl
>>=-assoc (some a) k l = refl

module _ {F G2 : Type 0} {f : Field F} (g : Curve f G2) (m : G2) where
  accumulate :
      (result secret li : F)
      → g.add (g.smul m result) (g.smul (g.smul m secret) li)
        ≡ g.smul m (f.add result (f.mul secret li))
  accumulate result secret li = sym (
      g.smul-add m result (f.mul secret li) ∙ ap (g.add (g.smul m result)) (g.smul-mul m secret li))

module _ {F G2 : Type 0} {f : Field F} (g : Curve f G2) where
  first_partials-all :
      (ps : List (PartialSignature G2)) (threshold : ℕ)
      → length ps ≤ threshold
      → first_partials g ps threshold ≡ ps
  unfolding first_partials
  first_partials-all ps threshold h = ground (arith, le→ltb threshold (length ps) h)

module _ {F G1 : Type 0} where
  -- The point of the polynomial that a key share is.
  abbrev pub points : List (KeyShare F G1) → List (ℕ × F)
  points shares = map (λ k. (k.id, k.secret)) shares

module _ {F G1 G2 : Type 0} {f : Field F} (g : Curve f G2) (m : G2) where
  signers-ids :
      (shares : List (KeyShare F G1))
      → map (λ p. p.signer) (map (partial_sign g m) shares) ≡ ids (points shares)
  unfolding partial_sign
  signers-ids [] = refl
  signers-ids (k ∷ shares) = ap (◌∷◌ k.id) (signers-ids shares)

  combine_loop-partial_sign :
      (all : List (ℕ × F)) (i : ℕ) (result : F) (shares : List (KeyShare F G1))
      → LocatedFrom all i (points shares)
      → combine_loop g (ids all) (g.smul m result) (map (partial_sign g m) shares)
        ≡ (do s ← interpolate_loop f all i result (points shares); some (g.smul m s))
  unfolding combine_loop interpolate_loop lagrange_coeff partial_sign
  combine_loop-partial_sign all i result [] l = refl
  combine_loop-partial_sign all i result (k ∷ shares) l =
      (λ z. sym (basis_loop-lagrange_loop f i k.id 0 f.one all l.0) z >>= (λ li.
        (ap (λ c. combine_loop g (ids all) c (map (partial_sign g m) shares))
              (accumulate g m result k.secret li)
            ∙ combine_loop-partial_sign all (suc i) (f.add result (f.mul k.secret li)) shares l.1)
          z))
      ∙ sym (>>=-assoc (basis_loop f i (f.from_u64 k.id) 0 f.one all) _ _)

  -- Partial signatures of at most `threshold` key shares with different ids, put together by
  -- `combine_dynamic`, give the signature with the secret that `lagrange_interpolate_at_zero` finds
  -- from the same shares; and the one panics exactly when the other does.
  pub combine_dynamic-partial_sign :
      (shares : List (KeyShare F G1)) (threshold : ℕ)
      → length shares ≤ threshold
      → DistinctIds (points shares)
      → combine_dynamic g (map (partial_sign g m) shares) threshold ≡ (do
        secret ← lagrange_interpolate_at_zero f (points shares)
        some (record { signature = g.smul m secret }))
  unfolding combine_dynamic first_partials lagrange_interpolate_at_zero
  combine_dynamic-partial_sign shares threshold h d =
      ap
        (λ ps.
          combine_loop g (map (λ p. p.signer) ps) g.zero ps
          >>= (λ c. some (record { signature = c })))
        (first_partials-all g (map (partial_sign g m) shares) threshold
          (omega (arith, length-map (partial_sign g m) shares)))
      ∙ ap (λ o. o >>= (λ c. some (record { signature = c })))
          (ap₂ (λ is z. combine_loop g is z (map (partial_sign g m) shares)) (signers-ids shares)
              (sym (g.smul-zero m))
            ∙ combine_loop-partial_sign (points shares) 0 f.zero shares
                (LocatedFrom-DistinctIds (points shares) d))
      ∙ >>=-assoc (lagrange_interpolate_at_zero f (points shares)) _ _
