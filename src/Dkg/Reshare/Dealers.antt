-- ===== src/Dkg/Reshare/Dealers.antt =====
-- Dealers that committed to polynomials: what `reshare_receive` computes from their dealings
-- (golden-dkg/src/reshare_protocol.rs).

use golden_rs.Common.{
  ℕ, ◌%◌, u32_mod, ltb, false, ◌≡◌, ◌≢◌, refl, sym, ap, subst, ◌∙◌, Bytes, List, [], ◌∷◌, length,
  map, arith, All, All-zip_with, All-map, some, lookup, nat_eq,
}
use golden_rs.Algebra.{Field, Curve, Encoding}
use golden_rs.Algebra.Polynomials.{value}
use golden_rs.Algebra.Polynomials.Roots.{Apart}
use golden_rs.Shamir.{Polynomial}
use golden_rs.Shamir.Interpolation.{ids, DistinctIds, through}
use golden_rs.Threshold.Signing.Coefficients.{LocatedFrom-DistinctIds}
use golden_rs.Threshold.Signing.Reconstruction.{nodes, OnNodes-Apart, DistinctIds-Apart}
use golden_rs.Vss.{commit}
use golden_rs.Dkg.Outcome.{ok, >>=-eq-ok}
use golden_rs.Dkg.Types.{ReshareMsg}
use golden_rs.Dkg.Round1.{first}
use golden_rs.Dkg.Reshare.{
  Dealings, check_dealing_sessions, verify_dealings, decrypt_sub_share, decrypt_sub_shares,
  reshare_receive,
}
use golden_rs.Dkg.Reshare.Aggregation.{
  dealt_points, combined, value-combined, Commits, keys_at, aggregate_loop-through,
  new_key_shares-keys_at,
}
use golden_rs.Dkg.Reshare.Dealing.{Verified, SubPadMatches, sub_share_value}

pub ids-dealt_points :
    {F : Type 0} (f : Field F) (polys : ℕ → Polynomial F) (z : F) (dealers : List ℕ)
    → ids (dealt_points f polys z dealers) ≡ dealers
ids-dealt_points f polys z [] = refl
ids-dealt_points f polys z (i ∷ rest) = ap (◌∷◌ i) (ids-dealt_points f polys z rest)

module _ {V : Type 0} where
  lookup_skip :
      (x : ℕ) (y : V) (rest entries : List (ℕ × V))
      → All (λ d. d.0 ≢ x) rest
      → All (λ d. lookup d.0 entries ≡ some d.1) rest
      → All (λ d. lookup d.0 ((x, y) ∷ entries) ≡ some d.1) rest
  unfolding lookup
  lookup_skip x y rest entries apart found =
      All-zip_with _ _ _ rest (λ d ne e. ground (arith, ne, e)) apart found

  -- In a map, every entry is found under its key.
  pub lookup-All :
      (entries : List (ℕ × V))
      → DistinctIds entries
      → All (λ d. lookup d.0 entries ≡ some d.1) entries
  unfolding lookup
  lookup-All [] d = tt
  lookup-All ((x, y) ∷ rest) d = (ground arith, lookup_skip x y rest rest d.0 (lookup-All rest d.1))

module _ {F G : Type 0} {f : Field F} (g : Curve f G) (polys : ℕ → Polynomial F) where
  -- The dealings commit to the dealers' polynomials.
  abbrev pub Committed : Dealings F G → Type 0
  Committed received = All (λ d. d.1.reshare_header.vss_commitment ≡ commit g (polys d.0)) received

  Commits-Committed :
      (received : Dealings F G)
      → DistinctIds received
      → Committed received
      → All (Commits g polys received) (ids received)
  Commits-Committed received d commits =
      All-map (Commits g polys received) (λ s. s.0) received
        (All-zip_with _ _ (λ d. Commits g polys received d.0) received
          (λ d found is. (d.1, found, is)) (lookup-All received d) commits)

module _ {F G : Type 0} {f : Field F} (g : Curve f G) (enc : Encoding F G)
    (polys : ℕ → Polynomial F) where
  -- When every check passes and the sub-shares are the dealers' values, the new member ends with
  -- the value of the combined polynomial.
  pub reshare_receive_returns :
      (new_id : ℕ) (sk : F) (old_members : List (ℕ × G)) (received : Dealings F G) (beta : F)
      (original_pk : G) (old_pk_shares : List (ℕ × G)) (t_old : ℕ) (session_id : Bytes)
      (d : ℕ × ReshareMsg F G)
      → check_dealing_sessions received session_id ≡ ok tt
      → ltb (length received % u32_mod) t_old ≡ false
      → verify_dealings g new_id old_pk_shares received ≡ ok tt
      → decrypt_sub_shares g enc new_id sk old_members beta received
        ≡ ok (dealt_points f polys (f.from_u64 new_id) (ids received))
      → first received ≡ some d
      → Apart (nodes f (ids received))
      → Committed g polys received
      → reshare_receive g enc new_id sk old_members received beta original_pk old_pk_shares t_old
          session_id
        ≡ ok (record {
          public_key = original_pk;
          public_key_shares =
              keys_at g polys (ids received) (map (λ c. c.0) d.1.reshare_header.ciphertexts) [];
          secret_share =
              value f (combined f polys (ids received) (ids received)) (f.from_u64 new_id);
        })
  unfolding reshare_receive
  reshare_receive_returns new_id sk old_members received beta original_pk old_pk_shares t_old
        session_id d sessions enough verified decrypted starts apart commits =
      let z = f.from_u64 new_id in
      let dealers = ids received in
      let subs = dealt_points f polys z dealers in
      let same : ids subs ≡ dealers = ids-dealt_points f polys z dealers in
      let apart_subs = subst (λ xs. Apart (nodes f xs)) (sym same) apart in
      let on = OnNodes-Apart f subs apart_subs in
      let located = LocatedFrom-DistinctIds subs (DistinctIds-Apart f subs apart_subs) in
      let found : All (Commits g polys received) (ids subs) =
        subst (All (Commits g polys received)) (sym same)
          (Commits-Committed g polys received (DistinctIds-Apart f received apart) commits) in
      let shared =
        aggregate_loop-through f subs 0 (f.from_u64 0) subs located on
        ∙ ap ok (
            ap (λ t. f.add t (value f (through f (ids subs) subs) f.zero)) f.from_u64-zero
            ∙ f.zero-add _
            ∙ ap (λ xs. value f (through f xs subs) f.zero) same
            ∙ sym (value-combined f polys dealers dealers z)) in
      let members = map (λ c. c.0) d.1.reshare_header.ciphertexts in
      let keys =
        new_key_shares-keys_at g polys received subs members [] located on found
        ∙ ap (λ xs. ok (keys_at g polys xs members [])) same in
      rw (sessions, enough, verified, decrypted, shared, starts, keys) refl

  pub decrypt_sub_shares-dealt_points :
      (new_id : ℕ) (sk : F) (old_members : List (ℕ × G)) (beta : F) (old_pk_shares : List (ℕ × G))
      (received : Dealings F G) {sub_shares : List (ℕ × F)}
      → All (Verified g new_id old_pk_shares) received
      → Committed g polys received
      → All (SubPadMatches g enc new_id sk old_members beta) received
      → decrypt_sub_shares g enc new_id sk old_members beta received ≡ ok sub_shares
      → decrypt_sub_shares g enc new_id sk old_members beta received
        ≡ ok (dealt_points f polys (f.from_u64 new_id) (ids received))
  unfolding decrypt_sub_shares
  decrypt_sub_shares-dealt_points new_id sk old_members beta old_pk_shares [] checked commits pads
        e =
      refl
  decrypt_sub_shares-dealt_points new_id sk old_members beta old_pk_shares ((sender, msg) ∷ rest)
        checked commits pads e =
      let (x, now, e1) =
        >>=-eq-ok (decrypt_sub_share g enc new_id sk old_members beta sender msg) _ e in
      let (xs, later, e2) =
        >>=-eq-ok (decrypt_sub_shares g enc new_id sk old_members beta rest) _ e1 in
      let is =
        sub_share_value g enc new_id sk old_members beta sender msg (polys sender) {share = x}
          commits.0 checked.0.1 pads.0 now in
      let rest_is =
        decrypt_sub_shares-dealt_points new_id sk old_members beta old_pk_shares rest
          {sub_shares = xs} checked.1 commits.1 pads.1 later in
      rw (now, rest_is)
        (ap (λ v. ok ((sender, v) ∷ dealt_points f polys (f.from_u64 new_id) (ids rest))) is)
