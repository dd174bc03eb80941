-- ===== src/Dkg/Secret.antt =====
-- The secret that a key generation shares (golden-dkg/src/protocol.rs).
use golden_rs.Common.{
  ℕ, ◌%◌, u32_mod, ◌≤◌, ◌≡◌, sym, ap, ◌∙◌, Bytes, List, [], ◌∷◌, some, arith, length, All, lookup,
  nat_eq,
}
use golden_rs.Algebra.{Field, Curve, Encoding}
use golden_rs.Algebra.Group.{add-zero, zero-mul}
use golden_rs.Algebra.Polynomials.{value}
use golden_rs.Shamir.{Polynomial, evaluate}
use golden_rs.Shamir.Evaluation.{evaluate-value}
use golden_rs.Shamir.Interpolation.{ids}
use golden_rs.Vss.{commit, expected_share_commitment}
use golden_rs.Vss.Soundness.{expected_share_commitment-commit}
use golden_rs.Dkg.Outcome.{Outcome, ok, or_panic, >>=-eq-ok, ok_value}
use golden_rs.Dkg.Types.{DkgOutput, DkgError, ZkEvrf}
use golden_rs.Dkg.Round1.{
  Received, first, check_sessions, verify_messages, decrypt_all, sum_keys, key_share_at, round1,
}
use golden_rs.Dkg.Agreement.{
  PadMatches, decrypt_all-fits, verify_messages-Checked, lookup-key_shares,
}

module _ {F : Type 0} (f : Field F) (polys : ℕ → Polynomial F) where
  -- The sum of the dealers' values.
  abbrev pub sum_at : F → List ℕ → F
  sum_at z [] = f.zero
  sum_at z (i ∷ rest) = f.add (value f (polys i).coefficients z) (sum_at z rest)

module _ {F G : Type 0} {f : Field F} (g : Curve f G) where
  -- The first commitment to a polynomial is g to its value at zero, unless the list is empty.
  first-commit :
      (cs : List F) {a0 : G}
      → ◌≡◌ {A = Outcome DkgError G}
          (or_panic (first (commit g (record { coefficients = cs }))))
          (ok a0)
      → g.smul g.generator (value f cs f.zero) ≡ a0
  unfolding commit
  first-commit [] e = cc
  first-commit (c ∷ cs) e =
      ap (g.smul g.generator) (ap (f.add c) (zero-mul f (value f cs f.zero)) ∙ add-zero f c)
      ∙ ground (arith, e)

module _ {F G P : Type 0} {f : Field F} (g : Curve f G) (polys : ℕ → Polynomial F) where
  -- The messages commit to the dealers' polynomials.
  abbrev pub Committed : Received F G P → Type 0
  Committed received = All (λ d. d.1.dkg_header.vss_commitment ≡ commit g (polys d.0)) received

  key_share_at-Committed :
      (k : ℕ) (a : F) (received : Received F G P)
      → Committed received
      → key_share_at g (g.smul g.generator a) k received
        ≡ g.smul g.generator (f.add a (sum_at f polys (f.from_u64 k) (ids received)))
  unfolding key_share_at
  key_share_at-Committed k a [] commits = ap (g.smul g.generator) (sym (add-zero f a))
  key_share_at-Committed k a ((i, msg) ∷ rest) commits =
      let z = f.from_u64 k in
      let v = value f (polys i).coefficients z in
      ap (λ t. key_share_at g t k rest)
        (ap (g.add (g.smul g.generator a)) (
            ap (λ c. expected_share_commitment g c k) commits.0
            ∙ expected_share_commitment-commit g (polys i) k
            ∙ ap (g.smul g.generator) (evaluate-value f (polys i) z))
          ∙ sym (g.smul-add g.generator a v))
      ∙ key_share_at-Committed k (f.add a v) rest commits.1
      ∙ ap (g.smul g.generator) (f.add_assoc a v (sum_at f polys z (ids rest)))

  sum_keys-Committed :
      (a : F) (received : Received F G P) {key : G}
      → Committed received
      → sum_keys g (g.smul g.generator a) received ≡ ok key
      → key ≡ g.smul g.generator (f.add a (sum_at f polys f.zero (ids received)))
  unfolding sum_keys
  sum_keys-Committed a [] commits e =
      ground (arith, e) ∙ ap (g.smul g.generator) (sym (add-zero f a))
  sum_keys-Committed a ((i, msg) ∷ rest) {key} commits e =
      let v = value f (polys i).coefficients f.zero in
      let (a0, starts, later) = >>=-eq-ok (or_panic (first msg.dkg_header.vss_commitment)) _ e in
      let is =
        first-commit g (polys i).coefficients {a0 = a0}
          (ap (λ c. or_panic (first c)) (sym commits.0) ∙ starts) in
      sum_keys-Committed (f.add a v) rest {key = key} commits.1 (
        ap (λ p. sum_keys g p rest)
          (g.smul-add g.generator a v ∙ ap (g.add (g.smul g.generator a)) is)
        ∙ later)
      ∙ ap (g.smul g.generator) (f.add_assoc a v (sum_at f polys f.zero (ids rest)))

module _ {F G P : Type 0} {f : Field F} (g : Curve f G) (enc : Encoding F G)
    (zk : ZkEvrf F G P) where
  -- Dealers that committed to any polynomials, with pad commitments that are those of the node's
  -- pads, and a polynomial whose values are the sums of theirs and of the node's own: if round 1
  -- succeeds, then the secret share is the value of this sum at the node, the public key is g to its
  -- value at zero, and the key share that is published for each of the nodes 1, ..., n is g to its
  -- value there. So the nodes share one secret key, whoever of the dealers is honest.
  pub round1_secret :
      (polys : ℕ → Polynomial F) (own total : Polynomial F) (id : ℕ) (sk : F) (peers : List (ℕ × G))
      (received : Received F G P) (beta : F) (session_id : Bytes) {out : DkgOutput F G}
      → ((z : F) → evaluate f total z ≡ f.add (evaluate f own z) (sum_at f polys z (ids received)))
      → Committed g polys received
      → All (PadMatches g enc id sk peers beta) received
      → round1 g enc zk id sk peers
          (evaluate f own (f.from_u64 id))
          (commit g own)
          received
          beta
          session_id
        ≡ ok out
      → (out.secret_share ≡ evaluate f total (f.from_u64 id))
        × (out.public_key ≡ g.smul g.generator (evaluate f total f.zero))
        × ((k : ℕ)
            → 1 ≤ k
            → k ≤ length peers % u32_mod
            → lookup k out.public_key_shares
              ≡ some (g.smul g.generator (evaluate f total (f.from_u64 k))))
  unfolding round1
  round1_secret polys own total id sk peers received beta session_id {out} adds commits pads e =
      let z = f.from_u64 id in
      let own_share = evaluate f own z in
      let (a, sessions, e1) = >>=-eq-ok (check_sessions received session_id) _ e in
      let (b, verified, e2) = >>=-eq-ok (verify_messages g zk peers beta received) _ e1 in
      let (share, decrypted, e3) =
        >>=-eq-ok (decrypt_all g enc id sk peers beta own_share received) _ e2 in
      let (own_key, has_key, e4) =
        >>=-eq-ok (or_panic {E = DkgError} (first (commit g own))) _ e3 in
      let (key, summed, e5) = >>=-eq-ok (sum_keys g own_key received) _ e4 in
      let returns = ok_value _ _ (sym e5) in
      let checked = verify_messages-Checked g zk peers beta received verified in
      let at_node =
        decrypt_all-fits g enc id sk peers beta own_share received {share = share} checked pads
          decrypted
        ∙ key_share_at-Committed g polys id own_share received commits in
      let own_is = first-commit g own.coefficients {a0 = own_key} has_key in
      (
        ap (λ o. o.secret_share) returns ∙ g.generator_injective share _ at_node ∙ sym (adds z),
        ap (λ o. o.public_key) returns
            ∙ sum_keys-Committed g polys (value f own.coefficients f.zero) received {key = key}
                commits (ap (λ p. sum_keys g p received) own_is ∙ summed)
            ∙ ap (g.smul g.generator) (
                ap (λ v. f.add v (sum_at f polys f.zero (ids received)))
                  (sym (evaluate-value f own f.zero))
                ∙ sym (adds f.zero)),
        (λ k low high.
            ap (λ o. lookup k o.public_key_shares) returns
            ∙ lookup-key_shares g (commit g own) received 1 (length peers % u32_mod) k [] low
                (omega arith)
            ∙ ap some (
                ap (λ t. key_share_at g t k received) (expected_share_commitment-commit g own k)
                ∙ key_share_at-Committed g polys k (evaluate f own (f.from_u64 k)) received commits
                ∙ ap (g.smul g.generator) (sym (adds (f.from_u64 k))))),
      )
