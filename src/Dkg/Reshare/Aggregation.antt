-- ===== src/Dkg/Reshare/Aggregation.antt =====
-- The Lagrange aggregation of the sub-shares and of the new key shares
-- (golden-dkg/src/reshare_protocol.rs).
use golden_rs.Common.{
  ℕ, suc, ◌≤◌, ◌≡◌, refl, sym, ap, ap₂, ◌∙◌, List, [], ◌∷◌, length, length-map, map, arith, All,
  some, lookup, insert, lookup-insert, nat_eq, Bool-cases, Option-cases, ◌==◌, inl, inr,
}
use golden_rs.Algebra.{Field, Curve}
use golden_rs.Algebra.Group.{add-zero, add_identity}
use golden_rs.Algebra.Polynomials.{value, plus, scale, value-plus, value-scale, length-plus}
use golden_rs.Shamir.{Polynomial, basis_step, basis_loop}
use golden_rs.Shamir.Interpolation.{ids, Holds, Separated, OnNodes, through, value-through}
use golden_rs.Threshold.Signing.Coefficients.{Located, LocatedFrom}
use golden_rs.Threshold.Signing.Reconstruction.{weight, basis_loop-weight}
use golden_rs.Vss.{commit, expected_share_commitment}
use golden_rs.Vss.Soundness.{expected_share_commitment-commit}
use golden_rs.Shamir.Evaluation.{evaluate-value}
use golden_rs.Dkg.Outcome.{ok, ok_or, ◌>>=◌}
use golden_rs.Dkg.Types.{ReshareMsg}
use golden_rs.Dkg.Reshare.{
  duplicate_node_index, coefficient_loop, aggregate_loop, new_key_share, new_key_shares, Dealings,
}

module _ {F : Type 0} (f : Field F) where
  -- The coefficient of the resharing is the one of `lagrange_interpolate_at_zero`, with an error in
  -- place of the panic.
  coefficient_loop-basis_loop :
      (i xi_id j : ℕ) (li : F) (rest : List (ℕ × F))
      → coefficient_loop f i xi_id j li rest
        ≡ ok_or (basis_loop f i (f.from_u64 xi_id) j li rest) (duplicate_node_index xi_id)
  unfolding coefficient_loop basis_loop basis_step
  coefficient_loop-basis_loop i xi_id j li [] = refl
  coefficient_loop-basis_loop i xi_id j li ((x, y) ∷ rest) = elim (Bool-cases (i == j)) [
    | inl same ↦ rw same (coefficient_loop-basis_loop i xi_id (suc j) li rest)
    | inr other ↦
        elim (Option-cases (f.inverse (f.add (f.from_u64 x) (f.neg (f.from_u64 xi_id))))) [
          | inl stops ↦ rw other (rw stops refl)
          | inr (inv, inverts) ↦ rw other (
              rw inverts (
                coefficient_loop-basis_loop i xi_id (suc j) (f.mul li (f.mul (f.from_u64 x) inv))
                  rest))
        ]
  ]

  from_u64-one : f.from_u64 1 ≡ f.one
  from_u64-one = f.from_u64-suc 0 ∙ ap (λ z. f.add z f.one) f.from_u64-zero ∙ f.zero-add f.one

  coefficient_loop-weight :
      (i id : ℕ) (all : List (ℕ × F))
      → Located i id 0 all
      → Separated f id (ids all)
      → coefficient_loop f i id 0 (f.from_u64 1) all ≡ ok (weight f (ids all) id)
  coefficient_loop-weight i id all l s =
      coefficient_loop-basis_loop i id 0 (f.from_u64 1) all
      ∙ ap (λ o. ok_or o (duplicate_node_index id))
          (ap (λ li. basis_loop f i (f.from_u64 id) 0 li all) from_u64-one
            ∙ basis_loop-weight f i id all l s)

  pub aggregate_loop-through :
      (all : List (ℕ × F)) (i : ℕ) (result : F) (rest : List (ℕ × F))
      → LocatedFrom all i rest
      → OnNodes f (ids all) rest
      → aggregate_loop f all i result rest
        ≡ ok (f.add result (value f (through f (ids all) rest) f.zero))
  unfolding aggregate_loop
  aggregate_loop-through all i result [] l on = ap ok (sym (add-zero f result))
  aggregate_loop-through all i result ((x, y) ∷ rest) l on =
      let w = weight f (ids all) x in
      ap (λ o. o >>= (λ li. aggregate_loop f all (suc i) (f.add result (f.mul y li)) rest))
        (coefficient_loop-weight i x all l.0 on.0.1)
      ∙ aggregate_loop-through all (suc i) (f.add result (f.mul y w)) rest l.1 on.1
      ∙ ap ok (
          f.add_assoc result (f.mul y w) (value f (through f (ids all) rest) f.zero)
          ∙ ap (f.add result) (sym (value-through f (ids all) x y rest f.zero)))

-- The points at `z` of the dealers' polynomials.
abbrev pub dealt_points :
    {F : Type 0} (f : Field F) → (ℕ → Polynomial F) → F → List ℕ → List (ℕ × F)
dealt_points f polys z dealers = map (λ i. (i, value f (polys i).coefficients z)) dealers

module _ {F : Type 0} (f : Field F) (polys : ℕ → Polynomial F) where
  -- The polynomial that the new group shares: the dealers' polynomials, weighted.
  abbrev pub combined : List ℕ → List ℕ → List F
  combined all [] = []
  combined all (i ∷ rest) =
      plus f (scale f (weight f all i) (polys i).coefficients) (combined all rest)

  pub value-combined :
      (all dealers : List ℕ) (z : F)
      → value f (combined all dealers) z
        ≡ value f (through f all (dealt_points f polys z dealers)) f.zero
  value-combined all [] z = refl
  value-combined all (i ∷ rest) z =
      let v = value f (polys i).coefficients z in
      value-plus f (scale f (weight f all i) (polys i).coefficients) (combined all rest) z
      ∙ ap₂ f.add
          (value-scale f (weight f all i) (polys i).coefficients z ∙ f.mul_comm (weight f all i) v)
          (value-combined all rest z)
      ∙ sym (value-through f all i v (dealt_points f polys z rest) f.zero)

  pub length-combined :
      (n : ℕ) (all dealers : List ℕ)
      → All (λ i. length (polys i).coefficients ≤ n) dealers
      → length (combined all dealers) ≤ n
  length-combined n all [] few = omega arith
  length-combined n all (i ∷ rest) few =
      length-plus f n (scale f (weight f all i) (polys i).coefficients) (combined all rest)
        (omega (arith, length-map (f.mul (weight f all i)) (polys i).coefficients, few.0))
        (length-combined n all rest few.1)

module _ {F G : Type 0} {f : Field F} (g : Curve f G) (polys : ℕ → Polynomial F) where
  -- The dealing that is found under the id commits to the dealer's polynomial.
  abbrev pub Commits : Dealings F G → ℕ → Type 0
  Commits received i =
      (msg : ReshareMsg F G) × (lookup i received ≡ some msg)
      × (msg.reshare_header.vss_commitment ≡ commit g (polys i))

  -- g to the value at a node of the combined polynomial.
  abbrev pub key_at : List ℕ → ℕ → G
  key_at dealers k = g.smul g.generator (value f (combined f polys dealers dealers) (f.from_u64 k))

  weighted_key :
      (all rest : List ℕ) (i k : ℕ) (pk_k : G)
      → g.add
          (g.add pk_k
            (g.smul (expected_share_commitment g (commit g (polys i)) k) (weight f all i)))
          (g.smul g.generator (value f (combined f polys all rest) (f.from_u64 k)))
        ≡ g.add pk_k (g.smul g.generator (value f (combined f polys all (i ∷ rest)) (f.from_u64 k)))
  weighted_key all rest i k pk_k =
      let z = f.from_u64 k in
      let v = value f (polys i).coefficients z in
      let w = weight f all i in
      let u = value f (combined f polys all rest) z in
      g.add_assoc pk_k _ (g.smul g.generator u)
      ∙ ap (g.add pk_k) (
          ap (λ t. g.add (g.smul t w) (g.smul g.generator u))
            (expected_share_commitment-commit g (polys i) k
              ∙ ap (g.smul g.generator) (evaluate-value f (polys i) z))
          ∙ ap (λ t. g.add t (g.smul g.generator u)) (sym (g.smul-mul g.generator v w))
          ∙ sym (g.smul-add g.generator (f.mul v w) u)
          ∙ ap (g.smul g.generator) (
              ap (λ t. f.add t u) (f.mul_comm v w ∙ sym (value-scale f w (polys i).coefficients z))
              ∙ sym
                  (value-plus f (scale f w (polys i).coefficients) (combined f polys all rest) z)))

  new_key_share-combined :
      (received : Dealings F G) (all : List (ℕ × F)) (k i : ℕ) (pk_k : G) (rest : List (ℕ × F))
      → LocatedFrom all i rest
      → OnNodes f (ids all) rest
      → All (Commits received) (ids rest)
      → new_key_share g received all k i pk_k rest
        ≡ ok (
            g.add pk_k
              (g.smul g.generator (value f (combined f polys (ids all) (ids rest)) (f.from_u64 k))))
  unfolding new_key_share
  new_key_share-combined received all k i pk_k [] l on found =
      ap ok (sym (ap (g.add pk_k) (g.smul-zero g.generator) ∙ add_identity g pk_k))
  new_key_share-combined received all k i pk_k ((x, y) ∷ rest) l on ((msg, has, is), found) =
      let w = weight f (ids all) x in
      let after = g.add pk_k (g.smul (expected_share_commitment g (commit g (polys x)) k) w) in
      rw (coefficient_loop-weight f i x all l.0 on.0.1, has, is)
        (new_key_share-combined received all k (suc i) after rest l.1 on.1 found
          ∙ ap ok (weighted_key (ids all) (ids rest) x k pk_k))

  -- The map with the key of every member of a list.
  abbrev pub keys_at : List ℕ → List ℕ → List (ℕ × G) → List (ℕ × G)
  keys_at dealers [] keys = keys
  keys_at dealers (k ∷ rest) keys = keys_at dealers rest (insert k (key_at dealers k) keys)

  lookup-keys_at_other :
      (dealers members : List ℕ) (j : ℕ) (keys : List (ℕ × G))
      → lookup j keys ≡ some (key_at dealers j)
      → lookup j (keys_at dealers members keys) ≡ some (key_at dealers j)
  lookup-keys_at_other dealers [] j keys e = e
  lookup-keys_at_other dealers (k ∷ rest) j keys e =
      lookup-keys_at_other dealers rest j (insert k (key_at dealers k) keys) (
        lookup-insert k j (key_at dealers k) keys ∙ elim (Bool-cases (k == j)) [
          | inl same ↦ rw same (ap (λ n. some (key_at dealers n)) (ground arith))
          | inr other ↦ rw other e
        ])

  pub lookup-keys_at :
      (dealers members : List ℕ) (j : ℕ) (keys : List (ℕ × G))
      → Holds j members
      → lookup j (keys_at dealers members keys) ≡ some (key_at dealers j)
  lookup-keys_at dealers [] j keys h = cc
  lookup-keys_at dealers (k ∷ rest) j keys h = elim (Bool-cases (k == j)) [
    | inl same ↦ lookup-keys_at_other dealers rest j (insert k (key_at dealers k) keys) (
        lookup-insert k j (key_at dealers k) keys
        ∙ rw same (ap (λ n. some (key_at dealers n)) (ground arith)))
    | inr other ↦ lookup-keys_at dealers rest j (insert k (key_at dealers k) keys) (ground arith)
  ]

  pub new_key_shares-keys_at :
      (received : Dealings F G) (all : List (ℕ × F)) (members : List ℕ) (keys : List (ℕ × G))
      → LocatedFrom all 0 all
      → OnNodes f (ids all) all
      → All (Commits received) (ids all)
      → new_key_shares g received all members keys ≡ ok (keys_at (ids all) members keys)
  unfolding new_key_shares
  new_key_shares-keys_at received all [] keys l on found = refl
  new_key_shares-keys_at received all (k ∷ rest) keys l on found =
      ap (λ o. o >>= (λ pk_k. new_key_shares g received all rest (insert k pk_k keys)))
        (new_key_share-combined received all k 0 g.zero all l on found ∙ ap ok (g.zero-add _))
      ∙ new_key_shares-keys_at received all rest (insert k (key_at (ids all) k) keys) l on found
