-- ===== src/Dkg/Refresh/Rotation.antt =====
-- A refresh rotates the shares and keeps the key.
use golden_rs.Common.{
  ℕ, ◌%◌, u32_mod, zero, suc, ◌+◌, ◌≤◌, ◌<◌, ◌≡◌, refl, ap, ◌∙◌, Bytes, List, [], ◌∷◌, some, arith,
  length, All, lookup, insert, lookup-insert, nat_eq,
}
use golden_rs.Algebra.{Field, Curve, Encoding}
use golden_rs.Algebra.Group.{add_identity, mul-zero}
use golden_rs.Vss.{expected_share_commitment, share_loop}
use golden_rs.Dkg.Outcome.{ok, or_panic, >>=-eq-ok}
use golden_rs.Dkg.Types.{DkgOutput, DkgError, ZkEvrf}
use golden_rs.Dkg.Round1.{Received, check_sessions, verify_messages, decrypt_all, key_share_at}
use golden_rs.Dkg.Refresh.{
  check_zero_secret, check_zero_secrets, refreshed_key_shares, round1_refresh,
}
use golden_rs.Dkg.Agreement.{PadMatches, decrypt_all-fits, verify_messages-Checked}

module _ {F G : Type 0} {f : Field F} (g : Curve f G) where
  zero_powers :
      (commitment : List G) (result : G) → share_loop g commitment f.zero result f.zero ≡ result
  unfolding share_loop
  zero_powers [] result = refl
  zero_powers (c ∷ cs) result =
      rw (g.smul-zero c, add_identity g result, mul-zero f f.zero) (zero_powers cs result)

  -- The committed polynomial at zero is the first commitment.
  expected_share_commitment-zero :
      (c : G) (cs : List G) → expected_share_commitment g (c ∷ cs) 0 ≡ c
  unfolding expected_share_commitment share_loop
  expected_share_commitment-zero c cs =
      rw (f.from_u64-zero, g.smul-one c, g.zero-add c, mul-zero f f.one) (zero_powers cs c)

  pub check_zero_secret-zero :
      (sender : ℕ) (commitment : List G)
      → check_zero_secret g sender commitment ≡ ok tt
      → expected_share_commitment g commitment 0 ≡ g.zero
  unfolding check_zero_secret
  check_zero_secret-zero sender [] e = absurd (cc)
  check_zero_secret-zero sender (c ∷ cs) e =
      expected_share_commitment-zero c cs ∙ ground (arith, e, g.eq.beq_iff c g.zero)

module _ {F G P : Type 0} {f : Field F} (g : Curve f G) where
  zero_sum :
      (received : Received F G P)
      → check_zero_secrets g received ≡ ok tt
      → key_share_at g g.zero 0 received ≡ g.zero
  unfolding check_zero_secrets key_share_at
  zero_sum [] e = refl
  zero_sum ((sender, msg) ∷ rest) e =
      let (a, now, later) =
        >>=-eq-ok (check_zero_secret g sender msg.dkg_header.vss_commitment) _ e in
      ap (λ t. key_share_at g t 0 rest)
        (g.zero-add _ ∙ check_zero_secret-zero g sender msg.dkg_header.vss_commitment now)
      ∙ zero_sum rest later

  refreshed_below :
      (own : List G) (received : Received F G P) (old : List (ℕ × G)) (k left j : ℕ)
      (shares : List (ℕ × G)) {out : List (ℕ × G)}
      → j < k
      → refreshed_key_shares g own received old k left shares ≡ ok out
      → lookup j out ≡ lookup j shares
  unfolding refreshed_key_shares
  refreshed_below own received old k zero j shares h e = ground (arith, e)
  refreshed_below own received old k (suc left) j shares {out} h e =
      let (old_k, known, later) = >>=-eq-ok (or_panic {E = DkgError} (lookup k old)) _ e in
      let share = g.add old_k (key_share_at g (expected_share_commitment g own k) k received) in
      refreshed_below own received old (suc k) left j (insert k share shares) {out = out}
        (omega arith) later
      ∙ ground (arith, lookup-insert k j share shares)

  lookup-refreshed :
      (own : List G) (received : Received F G P) (old : List (ℕ × G)) (k left j : ℕ)
      (shares : List (ℕ × G)) (old_j : G) {out : List (ℕ × G)}
      → k ≤ j
      → j < k + left
      → lookup j old ≡ some old_j
      → refreshed_key_shares g own received old k left shares ≡ ok out
      → lookup j out
        ≡ some (g.add old_j (key_share_at g (expected_share_commitment g own j) j received))
  unfolding refreshed_key_shares
  lookup-refreshed own received old k zero j shares old_j h b l e = absurd (omega arith)
  lookup-refreshed own received old k (suc left) j shares old_j {out} h b l e =
      let (old_k, known, later) = >>=-eq-ok (or_panic {E = DkgError} (lookup k old)) _ e in
      let share = g.add old_k (key_share_at g (expected_share_commitment g own k) k received) in
      let rest = insert k share shares in
      ground (
        arith,
        known,
        l,
        later,
        lookup-insert k j share shares,
        refreshed_below own received old (suc k) left j rest {out = out},
        lookup-refreshed own received old (suc k) left j rest old_j {out = out},
      )

  key_share_at-add :
      (p q : G) (k : ℕ) (received : Received F G P)
      → key_share_at g (g.add p q) k received ≡ g.add p (key_share_at g q k received)
  unfolding key_share_at
  key_share_at-add p q k [] = refl
  key_share_at-add p q k ((sender, msg) ∷ rest) =
      let x = expected_share_commitment g msg.dkg_header.vss_commitment k in
      ap (λ t. key_share_at g t k rest) (g.add_assoc p q x) ∙ key_share_at-add p (g.add q x) k rest

module _ {F G P : Type 0} {f : Field F} (g : Curve f G) (enc : Encoding F G)
    (zk : ZkEvrf F G P) where
  -- If the refresh of a node succeeds, its old share and its own delta lie behind its old key share
  -- and its own commitment, and the pad commitments that it was sent are those of its pads, then
  -- its new key share is g to its new secret share, and the public key is the old one.
  pub refresh_agreement :
      (id : ℕ) (sk : F) (peers : List (ℕ × G)) (own_delta : F) (own : List G)
      (received : Received F G P) (beta existing_share : F) (original_pk : G)
      (original_pk_shares : List (ℕ × G)) (session_id : Bytes) {out : DkgOutput F G}
      → 1 ≤ id
      → id ≤ length peers % u32_mod
      → lookup id original_pk_shares ≡ some (g.smul g.generator existing_share)
      → g.smul g.generator own_delta ≡ expected_share_commitment g own id
      → All (PadMatches g enc id sk peers beta) received
      → round1_refresh g enc zk id sk peers own_delta own received beta existing_share original_pk
          original_pk_shares session_id
        ≡ ok out
      → (lookup id out.public_key_shares ≡ some (g.smul g.generator out.secret_share))
        × (out.public_key ≡ original_pk)
  unfolding round1_refresh
  refresh_agreement id sk peers own_delta own received beta existing_share original_pk
        original_pk_shares session_id {out} low high old fits pads e =
      let (a, sessions, e1) = >>=-eq-ok (check_sessions received session_id) _ e in
      let (b, own_zero, e2) = >>=-eq-ok (check_zero_secret g id own) _ e1 in
      let (c, zeros, e3) = >>=-eq-ok (check_zero_secrets g received) _ e2 in
      let (d, verified, e4) = >>=-eq-ok (verify_messages g zk peers beta received) _ e3 in
      let (delta, decrypted, e5) =
        >>=-eq-ok (decrypt_all g enc id sk peers beta own_delta received) _ e4 in
      let (shares, refreshed, e6) =
        >>=-eq-ok
          (refreshed_key_shares g own received original_pk_shares 1 (length peers % u32_mod) []) _
          e5 in
      let checked = verify_messages-Checked g zk peers beta received verified in
      let behind =
        decrypt_all-fits g enc id sk peers beta own_delta received checked pads decrypted in
      let at =
        lookup-refreshed g own received original_pk_shares 1 (length peers % u32_mod) id [] _
          {out = shares} low (omega arith) old refreshed in
      let key =
        g.smul-add g.generator existing_share delta
        ∙ ap (g.add (g.smul g.generator existing_share))
            (behind ∙ ap (λ t. key_share_at g t id received) fits) in
      (ground (arith, e6, at, key), ground (arith, e6))

  -- A refresh that succeeds adds nothing to the shared secret: the commitment to the sum of all
  -- dealt polynomials at zero, the node's own included, is the identity.
  pub refresh_adds_zero :
      (id : ℕ) (sk : F) (peers : List (ℕ × G)) (own_delta : F) (own : List G)
      (received : Received F G P) (beta existing_share : F) (original_pk : G)
      (original_pk_shares : List (ℕ × G)) (session_id : Bytes) {out : DkgOutput F G}
      → round1_refresh g enc zk id sk peers own_delta own received beta existing_share original_pk
          original_pk_shares session_id
        ≡ ok out
      → key_share_at g (expected_share_commitment g own 0) 0 received ≡ g.zero
  unfolding round1_refresh
  refresh_adds_zero id sk peers own_delta own received beta existing_share original_pk
        original_pk_shares session_id e =
      let (a, sessions, e1) = >>=-eq-ok (check_sessions received session_id) _ e in
      let (b, own_zero, e2) = >>=-eq-ok (check_zero_secret g id own) _ e1 in
      let (c, zeros, e3) = >>=-eq-ok (check_zero_secrets g received) _ e2 in
      ap (λ t. key_share_at g t 0 received) (check_zero_secret-zero g id own own_zero)
      ∙ zero_sum g received zeros
