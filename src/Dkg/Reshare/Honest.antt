-- ===== src/Dkg/Reshare/Honest.antt =====
-- Honest dealers: `reshare_receive` accepts what `reshare_deal` makes
-- (golden-dkg/src/reshare_protocol.rs).
use mathlib.Core.Option.{some-injective}
use golden_rs.Common.{
  ℕ, ◌%◌, u32_mod, true, ◌≡◌, refl, sym, ap, ap₂, subst, ◌∙◌, Bytes, List, [], ◌∷◌, length,
  length-map, le→ltb, ◌≤◌, map, arith, All, some, lookup, insert, lookup-insert, nat_eq, bytes_eq,
  ◌==◌, Bool-cases, inl, inr,
}
use golden_rs.Algebra.{Field, Curve, Rng, Encoding}
use golden_rs.Algebra.Group.{add-sub}
use golden_rs.Algebra.Polynomials.{value}
use golden_rs.Algebra.Polynomials.Roots.{Apart}
use golden_rs.Shamir.{Polynomial, new_random, evaluate}
use golden_rs.Shamir.Sharing.{new_random-cons}
use golden_rs.Shamir.Evaluation.{evaluate-value}
use golden_rs.Shamir.Interpolation.{ids}
use golden_rs.Threshold.Signing.Reconstruction.{nodes}
use golden_rs.Vss.{commit}
use golden_rs.Evrf.{derive_pad}
use golden_rs.Evrf.Symmetry.{derive_pad_symmetric}
use golden_rs.Dkg.Outcome.{ok}
use golden_rs.Dkg.Types.{Ciphertext, ReshareMsg, DkgOutput}
use golden_rs.Dkg.Round0.{degree_of}
use golden_rs.Dkg.Round1.{ciphertext_matches, first}
use golden_rs.Dkg.Dealing.Seals.{Fresh, DistinctKeys, honest_ciphertext, honest_ciphertext_matches}
use golden_rs.Dkg.Reshare.{
  Dealings, seal_members, reshare_deal, check_dealing_sessions, check_key_share, check_sub_shares,
  verify_dealings, decrypt_sub_share, decrypt_sub_shares, reshare_receive,
}
use golden_rs.Dkg.Reshare.Aggregation.{dealt_points, combined}
use golden_rs.Dkg.Reshare.Dealers.{Committed, reshare_receive_returns}

module _ {F G : Type 0} {f : Field F} (g : Curve f G) where
  check_sub_shares-insert :
      (sender : ℕ) (commitment : List G) (k : ℕ) (ct : Ciphertext F G)
      (cts : List (ℕ × Ciphertext F G))
      → ciphertext_matches g commitment k ct ≡ true
      → check_sub_shares g sender commitment cts ≡ ok tt
      → check_sub_shares g sender commitment (insert k ct cts) ≡ ok tt
  unfolding check_sub_shares insert
  check_sub_shares-insert sender commitment k ct [] now e = ground arith
  check_sub_shares-insert sender commitment k ct ((j, c) ∷ rest) now e =
      ground (arith, check_sub_shares-insert sender commitment k ct rest)

  check_key_share-first :
      (sender recipient : ℕ) (p : G) (commitment : List G) (old_pk_shares : List (ℕ × G))
      → first commitment ≡ some p
      → lookup sender old_pk_shares ≡ some p
      → check_key_share g sender recipient commitment old_pk_shares ≡ ok tt
  unfolding check_key_share
  check_key_share-first sender recipient p commitment old_pk_shares starts known =
      ground (arith, starts, known, g.eq.beq_iff p p)

module _ {F G : Type 0} {f : Field F} (g : Curve f G) (enc : Encoding F G) (poly : Polynomial F)
    (sk : F) (random_msg : Bytes) (beta : F) where
  seal_members-checks :
      (sender : ℕ) (members : List (ℕ × G)) (cts : List (ℕ × Ciphertext F G))
      → check_sub_shares g sender (commit g poly) cts ≡ ok tt
      → check_sub_shares g sender
          (commit g poly)
          (seal_members g enc poly sk random_msg beta members cts)
        ≡ ok tt
  unfolding seal_members
  seal_members-checks sender [] cts e = e
  seal_members-checks sender ((j, pk) ∷ rest) cts e =
      let ct = honest_ciphertext g enc poly sk random_msg beta j pk in
      seal_members-checks sender rest (insert j ct cts) (
        check_sub_shares-insert g sender (commit g poly) j ct cts
          (honest_ciphertext_matches g enc poly sk random_msg beta j pk) e)

  seal_members-Fresh :
      (members : List (ℕ × G)) (cts : List (ℕ × Ciphertext F G)) (j : ℕ)
      → Fresh j members
      → lookup j (seal_members g enc poly sk random_msg beta members cts) ≡ lookup j cts
  unfolding seal_members
  seal_members-Fresh [] cts j fresh = refl
  seal_members-Fresh ((k, pk) ∷ rest) cts j fresh =
      let ct = honest_ciphertext g enc poly sk random_msg beta k pk in
      seal_members-Fresh rest (insert k ct cts) j fresh.1
      ∙ ground (arith, fresh.0, lookup-insert k j ct cts)

  seal_members-lookup :
      (members : List (ℕ × G)) (cts : List (ℕ × Ciphertext F G)) (j : ℕ) (pk : G)
      → DistinctKeys members
      → lookup j members ≡ some pk
      → lookup j (seal_members g enc poly sk random_msg beta members cts)
        ≡ some (honest_ciphertext g enc poly sk random_msg beta j pk)
  unfolding seal_members lookup
  seal_members-lookup [] cts j pk d l = cc
  seal_members-lookup ((k, key) ∷ rest) cts j pk d l =
      let ct = honest_ciphertext g enc poly sk random_msg beta k key in
      elim (Bool-cases (k == j)) [
        | inl same ↦
            let e : k ≡ j = ground arith in
            let known : key ≡ pk = some-injective _ _ (ground (arith, same, l)) in
            seal_members-Fresh rest (insert k ct cts) j (subst (λ n. Fresh n rest) e d.0)
            ∙ lookup-insert k j ct cts
            ∙ rw same
                (ap₂ (λ n q. some (honest_ciphertext g enc poly sk random_msg beta n q)) e known)
        | inr other ↦ seal_members-lookup rest (insert k ct cts) j pk d.1 (ground (arith, other, l))
      ]

-- An old member: its id, its share, its identity and the state of its generator.
pub record OldMember (F R : Type 0) : Type 0 where
  pub id : ℕ
  pub share : F
  pub sk_identity : F
  pub rng_state : R

module _ {F G R : Type 0} {f : Field F} (g : Curve f G) (enc : Encoding F G) (rng : Rng R F)
    (members : List (ℕ × G)) (t_new : ℕ) (beta : F) (session_id : Bytes) where
  abbrev pub dealing_by : OldMember F R → ℕ × ReshareMsg F G
  dealing_by m = (
    m.id,
    (reshare_deal g enc rng m.id m.share m.sk_identity members t_new beta m.rng_state session_id).0,
  )

  dealing_sessions :
      (olds : List (OldMember F R))
      → check_dealing_sessions (map dealing_by olds) session_id ≡ ok tt
  unfolding check_dealing_sessions reshare_deal
  dealing_sessions [] = refl
  dealing_sessions (m ∷ rest) =
      rw ((bytes_eq.beq_iff session_id session_id).1 refl) (dealing_sessions rest)

  dealing_key_share :
      (new_id : ℕ) (m : OldMember F R) (old_pk_shares : List (ℕ × G))
      → lookup m.id old_pk_shares ≡ some (g.smul g.generator m.share)
      → check_key_share g m.id new_id (dealing_by m).1.reshare_header.vss_commitment old_pk_shares
        ≡ ok tt
  unfolding reshare_deal commit
  dealing_key_share new_id m old_pk_shares known =
      let (cs, is) = new_random-cons rng m.share (degree_of t_new) m.rng_state in
      check_key_share-first g m.id new_id (g.smul g.generator m.share)
        (dealing_by m).1.reshare_header.vss_commitment old_pk_shares
        (ap (λ coeffs. first (map (g.smul g.generator) coeffs)) is) known

  dealings_verified :
      (new_id : ℕ) (olds : List (OldMember F R)) (old_pk_shares : List (ℕ × G))
      → All (λ m. lookup m.id old_pk_shares ≡ some (g.smul g.generator m.share)) olds
      → verify_dealings g new_id old_pk_shares (map dealing_by olds) ≡ ok tt
  unfolding verify_dealings reshare_deal check_sub_shares
  dealings_verified new_id [] old_pk_shares known = refl
  dealings_verified new_id (m ∷ rest) old_pk_shares known =
      let (poly, r1) = new_random rng m.share (degree_of t_new) m.rng_state in
      rw
        (
          dealing_key_share new_id m old_pk_shares known.0,
          seal_members-checks g enc poly m.sk_identity (rng.fill32 r1).0 beta m.id members [] refl,
        )
        (dealings_verified new_id rest old_pk_shares known.1)

  dealing_decrypts :
      (new_id : ℕ) (sk : F) (old_members : List (ℕ × G)) (m : OldMember F R)
      → DistinctKeys members
      → lookup new_id members ≡ some (g.smul g.generator sk)
      → lookup m.id old_members ≡ some (g.smul g.generator m.sk_identity)
      → decrypt_sub_share g enc new_id sk old_members beta m.id (dealing_by m).1
        ≡ ok (
            evaluate f (new_random rng m.share (degree_of t_new) m.rng_state).0 (f.from_u64 new_id))
  unfolding decrypt_sub_share reshare_deal
  dealing_decrypts new_id sk old_members m d joined known =
      let (poly, r1) = new_random rng m.share (degree_of t_new) m.rng_state in
      let msg = (rng.fill32 r1).0 in
      let pad = derive_pad g enc m.sk_identity (g.smul g.generator sk) msg beta in
      let same = (derive_pad_symmetric g enc sk m.sk_identity msg beta).0 in
      rw
        (
          seal_members-lookup g enc poly m.sk_identity msg beta members [] new_id
              (g.smul g.generator sk) d joined,
          known,
          same,
        )
        (ap ok (add-sub f pad.0 (evaluate f poly (f.from_u64 new_id))))

  dealings_decrypt :
      (polys : ℕ → Polynomial F) (new_id : ℕ) (sk : F) (old_members : List (ℕ × G))
      (olds : List (OldMember F R))
      → All (λ m. polys m.id ≡ (new_random rng m.share (degree_of t_new) m.rng_state).0) olds
      → DistinctKeys members
      → lookup new_id members ≡ some (g.smul g.generator sk)
      → All (λ m. lookup m.id old_members ≡ some (g.smul g.generator m.sk_identity)) olds
      → decrypt_sub_shares g enc new_id sk old_members beta (map dealing_by olds)
        ≡ ok (dealt_points f polys (f.from_u64 new_id) (ids (map dealing_by olds)))
  unfolding decrypt_sub_shares
  dealings_decrypt polys new_id sk old_members [] draws d joined known = refl
  dealings_decrypt polys new_id sk old_members (m ∷ rest) draws d joined known =
      let z = f.from_u64 new_id in
      rw
        (
          dealing_decrypts new_id sk old_members m d joined known.0,
          dealings_decrypt polys new_id sk old_members rest draws.1 d joined known.1,
        )
        (ap (λ v. ok ((m.id, v) ∷ dealt_points f polys z (ids (map dealing_by rest))))
          (evaluate-value f (new_random rng m.share (degree_of t_new) m.rng_state).0 z
            ∙ ap (λ p. value f p.coefficients z) (sym draws.0)))

  dealings_commit :
      (polys : ℕ → Polynomial F) (olds : List (OldMember F R))
      → All (λ m. polys m.id ≡ (new_random rng m.share (degree_of t_new) m.rng_state).0) olds
      → Committed g polys (map dealing_by olds)
  unfolding reshare_deal
  dealings_commit polys [] draws = tt
  dealings_commit polys (m ∷ rest) draws =
      (ap (commit g) (sym draws.0), dealings_commit polys rest draws.1)

  -- Honest old members, at least one and no fewer than `t_old`, with different nodes and with the
  -- keys and key shares that the new member knows, deal to a new group whose map holds the new
  -- member's key: `reshare_receive` succeeds on what `reshare_deal` broadcasts, and the new share is
  -- the value at the new member's node of the dealers' polynomials, put together.
  pub reshare_receive-reshare_deal :
      (polys : ℕ → Polynomial F) (new_id : ℕ) (sk : F) (old_members : List (ℕ × G))
      (m : OldMember F R) (rest : List (OldMember F R)) (original_pk : G)
      (old_pk_shares : List (ℕ × G)) (t_old : ℕ)
      → All (λ o. polys o.id ≡ (new_random rng o.share (degree_of t_new) o.rng_state).0) (m ∷ rest)
      → DistinctKeys members
      → lookup new_id members ≡ some (g.smul g.generator sk)
      → All (λ o. lookup o.id old_members ≡ some (g.smul g.generator o.sk_identity)) (m ∷ rest)
      → All (λ o. lookup o.id old_pk_shares ≡ some (g.smul g.generator o.share)) (m ∷ rest)
      → t_old ≤ length (m ∷ rest) % u32_mod
      → let received : Dealings F G = map dealing_by (m ∷ rest) in
        Apart (nodes f (ids received))
        → (out : DkgOutput F G) × (reshare_receive g enc new_id sk old_members received beta
              original_pk old_pk_shares t_old session_id
            ≡ ok out)
          × (out.secret_share
              ≡ value f (combined f polys (ids received) (ids received)) (f.from_u64 new_id))
  reshare_receive-reshare_deal polys new_id sk old_members m rest original_pk old_pk_shares t_old
        draws d joined known shares enough apart =
      let received : Dealings F G = map dealing_by (m ∷ rest) in
      (
        _,
        reshare_receive_returns g enc polys new_id sk old_members received beta original_pk
            old_pk_shares t_old session_id (dealing_by m) (dealing_sessions (m ∷ rest))
            (ground (
              arith,
              enough,
              length-map dealing_by (m ∷ rest),
              le→ltb t_old (length received % u32_mod),
            ))
            (dealings_verified new_id (m ∷ rest) old_pk_shares shares)
            (dealings_decrypt polys new_id sk old_members (m ∷ rest) draws d joined known) refl
            apart (dealings_commit polys (m ∷ rest) draws),
        refl,
      )
