-- ===== src/Dkg/Agreement.antt =====
-- The secret share that round 1 returns fits the key share that it publishes.
use golden_rs.Common.{
  ℕ, ◌%◌, u32_mod, zero, suc, ◌+◌, ◌≤◌, ◌<◌, ◌≡◌, refl, sym, ap, ◌∙◌, Bytes, List, [], ◌∷◌, some,
  arith, length, All, lookup, insert, lookup-insert, nat_eq, Option-cases, inl, inr,
}
use golden_rs.Algebra.{Field, Curve, Encoding}
use golden_rs.Algebra.Group.{point_left_cancel, sub-add}
use golden_rs.Vss.{expected_share_commitment}
use golden_rs.Evrf.{derive_pad}
use golden_rs.Dkg.Outcome.{ok, or_panic, >>=-eq-ok}
use golden_rs.Dkg.Types.{Ciphertext, Round0Msg, DkgOutput, DkgError, ZkEvrf}
use golden_rs.Dkg.Round1.{
  Received, first, check_sessions, check_ciphertexts, ciphertext_matches, check_proofs,
  verify_messages, decrypt, decrypt_all, sum_keys, key_share_at, key_shares, round1,
}

module _ {F G : Type 0} {f : Field F} (g : Curve f G) where
  -- What the check of a message says of one ciphertext: g^z = R + X.
  pub ciphertext_fits :
      (sender : ℕ) (commitment : List G) (cts : List (ℕ × Ciphertext F G)) (k : ℕ)
      (ct : Ciphertext F G)
      → check_ciphertexts g sender commitment cts ≡ ok tt
      → lookup k cts ≡ some ct
      → g.smul g.generator ct.encrypted_share
        ≡ g.add ct.r_commitment (expected_share_commitment g commitment k)
  unfolding check_ciphertexts ciphertext_matches lookup
  ciphertext_fits sender commitment [] k ct e l = cc
  ciphertext_fits sender commitment ((j, c) ∷ rest) k ct e l =
      let lhs = g.smul g.generator c.encrypted_share in
      let rhs = g.add c.r_commitment (expected_share_commitment g commitment j) in
      ground (arith, g.eq.beq_iff lhs rhs, ciphertext_fits sender commitment rest k ct)

  unmask :
      (z r : F) (masked x : G)
      → masked ≡ g.smul g.generator r
      → g.smul g.generator z ≡ g.add masked x
      → g.smul g.generator (f.add z (f.neg r)) ≡ x
  unmask z r masked x pad fits = point_left_cancel g (g.smul g.generator r) _ x (
      sym (g.smul-add g.generator r (f.add z (f.neg r)))
      ∙ ap (g.smul g.generator) (f.add_comm r (f.add z (f.neg r)) ∙ sub-add f z r)
      ∙ fits
      ∙ ap (λ t. g.add t x) pad)

module _ {F G P : Type 0} {f : Field F} (g : Curve f G) where
  -- The ciphertexts of a message have passed the check.
  abbrev pub Checked : ℕ × Round0Msg F G P → Type 0
  Checked (sender, msg) =
      check_ciphertexts g sender msg.dkg_header.vss_commitment msg.dkg_header.ciphertexts ≡ ok tt

module _ {F G P : Type 0} {f : Field F} (g : Curve f G) (enc : Encoding F G) where
  -- The commitment to the pad of the ciphertext for `id` is the one of the pad that `id` derives
  -- itself: what the proof of the message states.
  abbrev pub PadMatches : ℕ → F → List (ℕ × G) → F → ℕ × Round0Msg F G P → Type 0
  PadMatches id sk peers beta (sender, msg) =
      (ct : Ciphertext F G) (pk : G)
      → lookup id msg.dkg_header.ciphertexts ≡ some ct
      → lookup sender peers ≡ some pk
      → ct.r_commitment
        ≡ g.smul g.generator (derive_pad g enc sk pk msg.dkg_header.random_msg beta).0

  decrypt_parts :
      (id : ℕ) (sk : F) (peers : List (ℕ × G)) (beta : F) (sender : ℕ) (msg : Round0Msg F G P)
      {share : F}
      → decrypt g enc id sk peers beta sender msg ≡ ok share
      → (ct : Ciphertext F G) × (pk : G) × (lookup id msg.dkg_header.ciphertexts ≡ some ct)
        × (lookup sender peers ≡ some pk)
        × (share
            ≡ f.add ct.encrypted_share
                (f.neg (derive_pad g enc sk pk msg.dkg_header.random_msg beta).0))
  unfolding decrypt
  decrypt_parts id sk peers beta sender msg e =
      elim (Option-cases (lookup id msg.dkg_header.ciphertexts)) [
        | inl none1 ↦ absurd (ground (arith, e, none1))
        | inr (ct, found) ↦ elim (Option-cases (lookup sender peers)) [
          | inl none2 ↦ absurd (ground (arith, e, found, none2))
          | inr (pk, known) ↦ (ct, pk, found, known, ground (arith, e, found, known))
        ]
      ]

  -- A decrypted share lies behind the commitment that its dealer published.
  pub decrypt-fits :
      (id : ℕ) (sk : F) (peers : List (ℕ × G)) (beta : F) (sender : ℕ) (msg : Round0Msg F G P)
      {share : F}
      → Checked g (sender, msg)
      → PadMatches id sk peers beta (sender, msg)
      → decrypt g enc id sk peers beta sender msg ≡ ok share
      → g.smul g.generator share ≡ expected_share_commitment g msg.dkg_header.vss_commitment id
  decrypt-fits id sk peers beta sender msg checked pads e =
      let (ct, pk, found, known, is) = decrypt_parts id sk peers beta sender msg e in
      let header = msg.dkg_header in
      ap (g.smul g.generator) is
      ∙ unmask g ct.encrypted_share _ ct.r_commitment _ (pads ct pk found known)
          (ciphertext_fits g sender header.vss_commitment header.ciphertexts id ct checked found)

  -- The sum of the decrypted shares lies behind the sum of the commitments.
  pub decrypt_all-fits :
      (id : ℕ) (sk : F) (peers : List (ℕ × G)) (beta : F) (acc : F) (received : Received F G P)
      {share : F}
      → All (Checked g) received
      → All (PadMatches id sk peers beta) received
      → decrypt_all g enc id sk peers beta acc received ≡ ok share
      → g.smul g.generator share ≡ key_share_at g (g.smul g.generator acc) id received
  unfolding decrypt_all key_share_at
  decrypt_all-fits id sk peers beta acc [] checked pads e = ground (arith, e)
  decrypt_all-fits id sk peers beta acc ((sender, msg) ∷ rest) checked pads e =
      let (x, now, later) = >>=-eq-ok (decrypt g enc id sk peers beta sender msg) _ e in
      decrypt_all-fits id sk peers beta (f.add acc x) rest checked.1 pads.1 later
      ∙ ap (λ t. key_share_at g t id rest)
          (g.smul-add g.generator acc x
            ∙ ap (g.add (g.smul g.generator acc))
                (decrypt-fits id sk peers beta sender msg checked.0 pads.0 now))

module _ {F G P : Type 0} {f : Field F} (g : Curve f G) (zk : ZkEvrf F G P) where
  pub verify_messages-Checked :
      (peers : List (ℕ × G)) (beta : F) (received : Received F G P)
      → verify_messages g zk peers beta received ≡ ok tt
      → All (Checked g) received
  unfolding verify_messages
  verify_messages-Checked peers beta [] e = tt
  verify_messages-Checked peers beta ((sender, msg) ∷ rest) e =
      let header = msg.dkg_header in
      let (a, now, e1) =
        >>=-eq-ok (check_ciphertexts g sender header.vss_commitment header.ciphertexts) _ e in
      let (b, proofs, later) = >>=-eq-ok (check_proofs zk peers beta sender msg) _ e1 in
      (now, verify_messages-Checked peers beta rest later)

module _ {F G P : Type 0} {f : Field F} (g : Curve f G) where
  key_shares_below :
      (own : List G) (received : Received F G P) (k left j : ℕ) (shares : List (ℕ × G))
      → j < k
      → lookup j (key_shares g own received k left shares) ≡ lookup j shares
  unfolding key_shares
  key_shares_below own received k zero j shares h = refl
  key_shares_below own received k (suc left) j shares h =
      let share = key_share_at g (expected_share_commitment g own k) k received in
      key_shares_below own received (suc k) left j (insert k share shares) (omega arith)
      ∙ ground (arith, lookup-insert k j share shares)

  -- Every node of 1, ..., n has its key share in the map.
  pub lookup-key_shares :
      (own : List G) (received : Received F G P) (k left j : ℕ) (shares : List (ℕ × G))
      → k ≤ j
      → j < k + left
      → lookup j (key_shares g own received k left shares)
        ≡ some (key_share_at g (expected_share_commitment g own j) j received)
  unfolding key_shares
  lookup-key_shares own received k zero j shares h b = absurd (omega arith)
  lookup-key_shares own received k (suc left) j shares h b =
      let share = key_share_at g (expected_share_commitment g own k) k received in
      let rest = insert k share shares in
      ground (
        arith,
        lookup-insert k j share shares,
        key_shares_below own received (suc k) left j rest,
        lookup-key_shares own received (suc k) left j rest,
      )

module _ {F G P : Type 0} {f : Field F} (g : Curve f G) (enc : Encoding F G)
    (zk : ZkEvrf F G P) where
  -- If round 1 of a node succeeds, its own share lies behind its own commitment, and the pad
  -- commitments that it was sent are those of its pads, then the key share that it publishes for
  -- itself is g to its secret share, whatever polynomials the dealers chose.
  pub round1_agreement :
      (id : ℕ) (sk : F) (peers : List (ℕ × G)) (own_share : F) (own : List G)
      (received : Received F G P) (beta : F) (session_id : Bytes) {out : DkgOutput F G}
      → 1 ≤ id
      → id ≤ length peers % u32_mod
      → g.smul g.generator own_share ≡ expected_share_commitment g own id
      → All (PadMatches g enc id sk peers beta) received
      → round1 g enc zk id sk peers own_share own received beta session_id ≡ ok out
      → lookup id out.public_key_shares ≡ some (g.smul g.generator out.secret_share)
  unfolding round1
  round1_agreement id sk peers own_share own received beta session_id low high fits pads e =
      let (a, sessions, e1) = >>=-eq-ok (check_sessions received session_id) _ e in
      let (b, verified, e2) = >>=-eq-ok (verify_messages g zk peers beta received) _ e1 in
      let (share, decrypted, e3) =
        >>=-eq-ok (decrypt_all g enc id sk peers beta own_share received) _ e2 in
      let (own_key, has_key, e4) = >>=-eq-ok (or_panic {E = DkgError} (first own)) _ e3 in
      let (key, summed, e5) = >>=-eq-ok (sum_keys g own_key received) _ e4 in
      let checked = verify_messages-Checked g zk peers beta received verified in
      let behind =
        decrypt_all-fits g enc id sk peers beta own_share received checked pads decrypted in
      ground (
        arith,
        e5,
        lookup-key_shares g own received 1 (length peers % u32_mod) id [],
        behind ∙ ap (λ t. key_share_at g t id received) fits,
      )
