-- ===== src/Threshold/Bootstrap/Signatures.antt =====
-- The key shares of a key generation sign for its public key (golden-dkg/src/threshold/dkg.rs,
-- golden-dkg/src/threshold/signing.rs).
use mathlib.Core.Option.{some-injective}
use golden_rs.Common.{
  ◌%◌, u32_mod, ℕ, ◌≤◌, ◌≡◌, ◌≢◌, refl, sym, ap, ◌∙◌, Bool, true, List, [], ◌∷◌, some, length, map,
  filter, All, All-filter, Bool-cases, inl, inr, subst,
}
use golden_rs.Algebra.{Field, Curve, Pairing}
use golden_rs.Algebra.Polynomials.{value}
use golden_rs.Algebra.Polynomials.Roots.{Apart}
use golden_rs.Shamir.{Polynomial, evaluate}
use golden_rs.Shamir.Evaluation.{evaluate-value}
use golden_rs.Shamir.Interpolation.{ids}
use golden_rs.Dkg.Types.{DkgOutput}
use golden_rs.Threshold.Types.{GroupInfo, KeyShare, ThresholdSignature}
use golden_rs.Threshold.Signing.{partial_sign, combine_dynamic, verify}
use golden_rs.Threshold.Signing.Bls.{verify_exact}
use golden_rs.Threshold.Signing.Combination.{points}
use golden_rs.Threshold.Signing.Reconstruction.{nodes}
use golden_rs.Threshold.Signing.Secret.{combine_dynamic-evaluate}
use golden_rs.Threshold.Bootstrap.{key_share, bootstrap}

module _ {F G1 : Type 0} (f : Field F) where
  nodes-filter :
      (a : F) (signs : ℕ → Bool) (shares : List (KeyShare F G1))
      → All (λ b. b ≢ a) (nodes f (ids (points shares)))
      → All (λ b. b ≢ a) (nodes f (ids (points (filter (λ k. signs k.id) shares))))
  nodes-filter a signs [] all = tt
  nodes-filter a signs (k ∷ shares) all = elim (Bool-cases (signs k.id)) [
    | inl kept ↦ rw kept (all.0, nodes-filter a signs shares all.1)
    | inr left ↦ rw left (nodes-filter a signs shares all.1)
  ]

  Apart-filter :
      (signs : ℕ → Bool) (shares : List (KeyShare F G1))
      → Apart (nodes f (ids (points shares)))
      → Apart (nodes f (ids (points (filter (λ k. signs k.id) shares))))
  Apart-filter signs [] apart = tt
  Apart-filter signs (k ∷ shares) apart = elim (Bool-cases (signs k.id)) [
    | inl kept ↦
        rw kept
          (nodes-filter (f.from_u64 k.id) signs shares apart.0, Apart-filter signs shares apart.1)
    | inr left ↦ rw left (Apart-filter signs shares apart.1)
  ]

  ids-key_share :
      (group_info : GroupInfo G1) (outputs : List (ℕ × DkgOutput F G1))
      → ids (points (map (key_share group_info) outputs)) ≡ ids outputs
  ids-key_share group_info [] = refl
  ids-key_share group_info (o ∷ outputs) = ap (◌∷◌ o.0) (ids-key_share group_info outputs)

module _ {F G1 : Type 0} {f : Field F} (g : Curve f G1) (total : Polynomial F) where
  -- The output of a node is its value of the polynomial, and g to the value at zero.
  abbrev pub Shares : ℕ × DkgOutput F G1 → Type 0
  Shares (id, out) =
      (out.secret_share ≡ evaluate f total (f.from_u64 id))
      × (out.public_key ≡ g.smul g.generator (evaluate f total f.zero))

  values-key_share :
      (group_info : GroupInfo G1) (outputs : List (ℕ × DkgOutput F G1))
      → All Shares outputs
      → All
          (λ k. k.secret ≡ value f total.coefficients (f.from_u64 k.id))
          (map (key_share group_info) outputs)
  values-key_share group_info [] all = tt
  values-key_share group_info ((id, out) ∷ outputs) all =
      (all.0.0 ∙ evaluate-value f total (f.from_u64 id), values-key_share group_info outputs all.1)

module _ {F G1 G2 T : Type 0} {f : Field F} {g1 : Curve f G1} {g2 : Curve f G2}
    (e : Pairing g1 g2 T) where
  -- That the key shares that sign give a signature for the public key of the group.
  abbrev Signs : (ℕ → Bool) → ℕ → G2 → Polynomial F → List (KeyShare F G1) × GroupInfo G1 → Type 0
  Signs signs t msg_hash total (shares, group_info) =
      let signers = filter (λ k. signs k.id) shares in
      length total.coefficients ≤ length signers
      → length signers ≤ t
      → (sig : ThresholdSignature G2) × (combine_dynamic g2 (map (partial_sign g2 msg_hash) signers)
            t
          ≡ some sig)
        × (verify e msg_hash sig group_info.public_key ≡ true)

  values_points :
      (total : Polynomial F) (shares : List (KeyShare F G1))
      → All (λ k. k.secret ≡ value f total.coefficients (f.from_u64 k.id)) shares
      → All (λ s. s.1 ≡ value f total.coefficients (f.from_u64 s.0)) (points shares)
  values_points total [] all = tt
  values_points total (k ∷ shares) all = (all.0, values_points total shares all.1)

  Shares-sign :
      (total : Polynomial F) (outputs : List (ℕ × DkgOutput F G1)) (t : ℕ) (msg_hash : G2)
      (signs : ℕ → Bool) (group_info : GroupInfo G1)
      → Apart (nodes f (ids outputs))
      → All (Shares g1 total) outputs
      → group_info.public_key ≡ g1.smul g1.generator (evaluate f total f.zero)
      → Signs signs t msg_hash total (map (key_share group_info) outputs, group_info)
  Shares-sign total outputs t msg_hash signs group_info apart all key enough few =
      let shares = map (key_share group_info) outputs in
      let signers = filter (λ k. signs k.id) shares in
      let sig : ThresholdSignature G2 = record {
        signature = g2.smul msg_hash (evaluate f total f.zero);
      } in
      (
        sig,
        combine_dynamic-evaluate g2 total msg_hash signers t
            (Apart-filter f signs shares
              (subst (λ xs. Apart (nodes f xs)) (sym (ids-key_share f group_info outputs)) apart))
            enough few
            (values_points total signers (
              All-filter (λ k. k.secret ≡ value f total.coefficients (f.from_u64 k.id))
                (λ k. signs k.id) shares (values-key_share g1 total group_info outputs all))),
        ap (verify e msg_hash sig) key
            ∙ (verify_exact e msg_hash sig (evaluate f total f.zero)).1 refl,
      )

  -- Outputs of a key generation, for different nodes, that are the values of one polynomial, with g
  -- to its value at zero as the public key: `bootstrap` turns them into key shares, and any of them
  -- that are as many as the polynomial has coefficients at least, and `t` at most, give a signature
  -- that verifies under the public key of the group.
  pub bootstrap_signs :
      (total : Polynomial F) (outputs : List (ℕ × DkgOutput F G1)) (t : ℕ) (msg_hash : G2)
      (signs : ℕ → Bool) {shares : List (KeyShare F G1)} {group_info : GroupInfo G1}
      → Apart (nodes f (ids outputs))
      → All (Shares g1 total) outputs
      → bootstrap outputs t ≡ some (shares, group_info)
      → let signers = filter (λ k. signs k.id) shares in
        length total.coefficients ≤ length signers
        → length signers ≤ t
        → (sig : ThresholdSignature G2) × (combine_dynamic g2
              (map (partial_sign g2 msg_hash) signers)
              t
            ≡ some sig)
          × (verify e msg_hash sig group_info.public_key ≡ true)
  unfolding bootstrap
  bootstrap_signs total [] t msg_hash signs apart all boots enough few = cc
  bootstrap_signs total ((id, out) ∷ rest) t msg_hash signs {shares} {group_info} apart all boots
        enough few =
      subst (Signs signs t msg_hash total) (some-injective _ _ boots)
        (Shares-sign total ((id, out) ∷ rest) t msg_hash signs
          (record {
            public_key = out.public_key;
            threshold = t;
            num_nodes = length ((id, out) ∷ rest) % u32_mod;
          })
          apart all all.0.1)
        enough few
