-- ===== src/Dkg/Dealing.antt =====
-- What an honest dealer broadcasts passes the checks of its recipients and can be decrypted.
pub mod Seals
use mathlib.Core.Option.{some-injective}
use golden_rs.Common.{
  ℕ, zero, suc, ◌+◌, ◌≤◌, ◌<◌, ◌≡◌, ◌≢◌, subst, refl, sym, ap, ap₂, ◌∙◌, true, false, Bytes, List,
  [], ◌∷◌, some, arith, lookup, insert, lookup-insert, nat_eq, ◌==◌, Option-cases, inl, inr,
  Bool-cases, >>=-eq-some,
}
use golden_rs.Algebra.{Field, Curve, Rng, Encoding}
use golden_rs.Algebra.Group.{add-sub}
use golden_rs.Shamir.{Polynomial, new_random, evaluate}
use golden_rs.Vss.{commit, expected_share_commitment}
use golden_rs.Vss.Soundness.{expected_share_commitment-commit}
use golden_rs.Evrf.{derive_pad, pad_of}
use golden_rs.Evrf.Symmetry.{derive_pad_symmetric}
use golden_rs.Dkg.Outcome.{ok}
use golden_rs.Dkg.Types.{Ciphertext, Round0Msg, ZkEvrf}
use golden_rs.Dkg.Round0.{degree_of, Sealed, share_map, seal_for, seal_loop, deal}
use golden_rs.Dkg.Round1.{ciphertext_matches, check_ciphertexts, decrypt}
use Seals.{share_map-value, DistinctKeys, honest_ciphertext, seal_loop-checks, seal_loop-lookup}

module _ {F G P R : Type 0} {f : Field F} (g : Curve f G) (enc : Encoding F G) (rng : Rng R F)
    (zk : ZkEvrf F G P) where
  -- What `deal` gives, in terms of the polynomial that it draws.
  pub record Dealt (poly : Polynomial F) (id : ℕ) (sk : F) (peers : List (ℕ × G)) (beta : F)
      (msg : Round0Msg F G P) (own : F) : Type 0 where
    pub commits : msg.dkg_header.vss_commitment ≡ commit g poly
    pub keeps : own ≡ evaluate f poly (f.from_u64 id)
    pub checks :
        check_ciphertexts g id msg.dkg_header.vss_commitment msg.dkg_header.ciphertexts ≡ ok tt
    pub seals :
        (j : ℕ) (pk : G)
        → lookup j peers ≡ some pk
        → j ≢ id
        → lookup j msg.dkg_header.ciphertexts
          ≡ some (honest_ciphertext g enc poly sk msg.dkg_header.random_msg beta j pk)

  pub deal-Dealt :
      (secret : F) (id n t : ℕ) (sk : F) (peers : List (ℕ × G)) (beta : F) (session_id : Bytes)
      (r : R) {out : Round0Msg F G P × F × R}
      → DistinctKeys peers
      → deal g enc rng zk secret id n t sk peers beta session_id r ≡ some out
      → Dealt (new_random rng secret (degree_of t) r).0 id sk peers beta out.0 out.1
  unfolding deal check_ciphertexts
  deal-Dealt secret id n t sk peers beta session_id r d e =
      let drawn = new_random rng secret (degree_of t) r in
      let poly = drawn.0 in
      let random_msg = (rng.fill32 drawn.1).0 in
      let start : Sealed F G = record { ciphertexts = []; peer_pads = [] } in
      let (own, found, e1) = >>=-eq-some (lookup id (share_map f poly 1 n)) _ e in
      let (s, sealed, e2) =
        >>=-eq-some (seal_loop g enc id sk random_msg beta (share_map f poly 1 n) peers start) _
          e1 in
      let (my_pk, known, e3) = >>=-eq-some (lookup id peers) _ e2 in
      subst (λ (x : Round0Msg F G P × F × R). Dealt poly id sk peers beta x.0 x.1)
        (some-injective _ _ e3)
        (record {
          commits = refl;
          keeps = share_map-value f poly 1 n id {share = own} found;
          checks =
              seal_loop-checks g enc poly n id sk random_msg beta peers start {s' = s} nothing
                sealed;
          seals = λ j pk l ne.
              seal_loop-lookup g enc poly n id sk random_msg beta peers start j pk {s' = s} d l ne
                sealed;
        })
    where
      nothing :
          check_ciphertexts g id (commit g (new_random rng secret (degree_of t) r).0) [] ≡ ok tt
      nothing = refl

  -- What an honest dealer broadcasts, in round 0 or in a refresh (any secret), passes the check of
  -- its ciphertexts, and its own share lies on the committed polynomial.
  pub deal_checks :
      (secret : F) (id n t : ℕ) (sk : F) (peers : List (ℕ × G)) (beta : F) (session_id : Bytes)
      (r : R) {out : Round0Msg F G P × F × R}
      → DistinctKeys peers
      → deal g enc rng zk secret id n t sk peers beta session_id r ≡ some out
      → (check_ciphertexts g id out.0.dkg_header.vss_commitment out.0.dkg_header.ciphertexts
          ≡ ok tt)
        × (g.smul g.generator out.1
            ≡ expected_share_commitment g out.0.dkg_header.vss_commitment id)
  deal_checks secret id n t sk peers beta session_id r {out} d e =
      let poly = (new_random rng secret (degree_of t) r).0 in
      let dealt = deal-Dealt secret id n t sk peers beta session_id r {out = out} d e in
      (
        dealt.checks,
        ap (g.smul g.generator) dealt.keeps
            ∙ sym (expected_share_commitment-commit g poly id)
            ∙ ap (λ c. expected_share_commitment g c id) (sym dealt.commits),
      )

  -- Every other participant decrypts the share that the dealer's polynomial has for it: both know
  -- the other's key g^sk, and the dealer's map of peers has no key twice.
  pub decrypt-deal :
      (secret : F) (id n t : ℕ) (sk : F) (peers : List (ℕ × G)) (beta : F) (session_id : Bytes)
      (r : R) (j : ℕ) (sk_j : F) (peers_j : List (ℕ × G)) {out : Round0Msg F G P × F × R}
      → DistinctKeys peers
      → deal g enc rng zk secret id n t sk peers beta session_id r ≡ some out
      → lookup j peers ≡ some (g.smul g.generator sk_j)
      → lookup id peers_j ≡ some (g.smul g.generator sk)
      → j ≢ id
      → decrypt g enc j sk_j peers_j beta id out.0
        ≡ ok (evaluate f (new_random rng secret (degree_of t) r).0 (f.from_u64 j))
  unfolding decrypt
  decrypt-deal secret id n t sk peers beta session_id r j sk_j peers_j {out} d e known known_j ne =
      let poly = (new_random rng secret (degree_of t) r).0 in
      let dealt = deal-Dealt secret id n t sk peers beta session_id r {out = out} d e in
      let msg = out.0.dkg_header.random_msg in
      let pad = derive_pad g enc sk (g.smul g.generator sk_j) msg beta in
      let same = (derive_pad_symmetric g enc sk_j sk msg beta).0 in
      rw (dealt.seals j (g.smul g.generator sk_j) known ne, known_j, same)
        (ap ok (add-sub f pad.0 (evaluate f poly (f.from_u64 j))))
