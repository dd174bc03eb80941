-- ===== src/Dkg/Reshare/Dealing.antt =====
-- What the checks of a dealing say of its sub-shares (golden-dkg/src/reshare_protocol.rs).
use golden_rs.Common.{
  ℕ, ◌≡◌, refl, ap, ◌∙◌, List, [], ◌∷◌, arith, All, none, some, lookup, nat_eq, Option-cases, inl,
  inr,
}
use golden_rs.Algebra.{Field, Curve, Encoding}
use golden_rs.Algebra.Group.{add-zero, zero-mul}
use golden_rs.Algebra.Polynomials.{value}
use golden_rs.Shamir.{Polynomial}
use golden_rs.Shamir.Evaluation.{evaluate-value}
use golden_rs.Vss.{commit, expected_share_commitment}
use golden_rs.Vss.Soundness.{expected_share_commitment-commit}
use golden_rs.Dkg.Outcome.{ok, >>=-eq-ok}
use golden_rs.Dkg.Types.{Ciphertext, Round0Msg, ReshareMsg}
use golden_rs.Dkg.Round1.{check_ciphertexts, decrypt}
use golden_rs.Dkg.Agreement.{PadMatches, decrypt-fits}
use golden_rs.Dkg.Reshare.{
  Dealings, check_key_share, check_sub_shares, verify_dealings, decrypt_sub_share,
}

module _ {F G : Type 0} where
  -- A dealing as a message of round 0, whose checks and decryption are the same.
  abbrev pub as_round0 : ReshareMsg F G → Round0Msg F G (Unit {0})
  as_round0 msg = record {
    dkg_header = msg.reshare_header;
    evrf_proofs = [];
    batch_evrf_proof = none;
  }

module _ {F G : Type 0} {f : Field F} (g : Curve f G) where
  check_ciphertexts_agree :
      (sender : ℕ) (commitment : List G) (cts : List (ℕ × Ciphertext F G))
      → check_sub_shares g sender commitment cts ≡ ok tt
      → check_ciphertexts g sender commitment cts ≡ ok tt
  unfolding check_sub_shares check_ciphertexts
  check_ciphertexts_agree sender commitment [] e = refl
  check_ciphertexts_agree sender commitment ((k, ct) ∷ rest) e =
      ground (arith, e, check_ciphertexts_agree sender commitment rest)

  -- The checks of one dealing.
  abbrev pub Verified : ℕ → List (ℕ × G) → ℕ × ReshareMsg F G → Type 0
  Verified new_id old_pk_shares (sender, msg) =
      let header = msg.reshare_header in
      (check_key_share g sender new_id header.vss_commitment old_pk_shares ≡ ok tt)
      × (check_sub_shares g sender header.vss_commitment header.ciphertexts ≡ ok tt)

  pub verify_dealings-Verified :
      (new_id : ℕ) (old_pk_shares : List (ℕ × G)) (received : Dealings F G)
      → verify_dealings g new_id old_pk_shares received ≡ ok tt
      → All (Verified new_id old_pk_shares) received
  unfolding verify_dealings
  verify_dealings-Verified new_id old_pk_shares [] e = tt
  verify_dealings-Verified new_id old_pk_shares ((sender, msg) ∷ rest) e =
      let header = msg.reshare_header in
      let (a, key, e1) =
        >>=-eq-ok (check_key_share g sender new_id header.vss_commitment old_pk_shares) _ e in
      let (b, shares, later) =
        >>=-eq-ok (check_sub_shares g sender header.vss_commitment header.ciphertexts) _ e1 in
      ((key, shares), verify_dealings-Verified new_id old_pk_shares rest later)

  -- A dealer with a known key share deals the secret behind it.
  pub check_key_share-secret :
      (sender new_id : ℕ) (cs : List F) (secret : F) (old_pk_shares : List (ℕ × G))
      → lookup sender old_pk_shares ≡ some (g.smul g.generator secret)
      → check_key_share g sender new_id (commit g (record { coefficients = cs })) old_pk_shares
        ≡ ok tt
      → value f cs f.zero ≡ secret
  unfolding check_key_share commit
  check_key_share-secret sender new_id [] secret old_pk_shares known e =
      absurd (ground (arith, known, e))
  check_key_share-secret sender new_id (a ∷ cs) secret old_pk_shares known e =
      ap (f.add a) (zero-mul f (value f cs f.zero))
      ∙ add-zero f a
      ∙ g.generator_injective a secret (
          ground (arith, known, e, g.eq.beq_iff (g.smul g.generator a) (g.smul g.generator secret)))

module _ {F G : Type 0} {f : Field F} (g : Curve f G) (enc : Encoding F G) where
  decrypt_agree :
      (new_id : ℕ) (sk : F) (old_members : List (ℕ × G)) (beta : F) (sender : ℕ)
      (msg : ReshareMsg F G) {share : F}
      → decrypt_sub_share g enc new_id sk old_members beta sender msg ≡ ok share
      → decrypt g enc new_id sk old_members beta sender (as_round0 msg) ≡ ok share
  unfolding decrypt_sub_share decrypt
  decrypt_agree new_id sk old_members beta sender msg e =
      elim (Option-cases (lookup new_id msg.reshare_header.ciphertexts)) [
        | inl none1 ↦ absurd (ground (arith, e, none1))
        | inr (ct, found) ↦ elim (Option-cases (lookup sender old_members)) [
          | inl none2 ↦ absurd (ground (arith, e, found, none2))
          | inr (pk, known) ↦ ground (arith, e, found, known)
        ]
      ]

  -- The pad commitment of the ciphertext for the new member is the one of the pad that it derives.
  abbrev pub SubPadMatches : ℕ → F → List (ℕ × G) → F → ℕ × ReshareMsg F G → Type 0
  SubPadMatches new_id sk old_members beta (sender, msg) =
      PadMatches g enc new_id sk old_members beta (sender, as_round0 msg)

  pub sub_share_value :
      (new_id : ℕ) (sk : F) (old_members : List (ℕ × G)) (beta : F) (sender : ℕ)
      (msg : ReshareMsg F G) (poly : Polynomial F) {share : F}
      → msg.reshare_header.vss_commitment ≡ commit g poly
      → check_sub_shares g sender msg.reshare_header.vss_commitment msg.reshare_header.ciphertexts
        ≡ ok tt
      → SubPadMatches new_id sk old_members beta (sender, msg)
      → decrypt_sub_share g enc new_id sk old_members beta sender msg ≡ ok share
      → share ≡ value f poly.coefficients (f.from_u64 new_id)
  sub_share_value new_id sk old_members beta sender msg poly {share} commits checked pads e =
      let header = msg.reshare_header in
      g.generator_injective share _ (
        decrypt-fits g enc new_id sk old_members beta sender (as_round0 msg) {share = share}
          (check_ciphertexts_agree g sender header.vss_commitment header.ciphertexts checked) pads
          (decrypt_agree new_id sk old_members beta sender msg {share = share} e)
        ∙ ap (λ c. expected_share_commitment g c new_id) commits
        ∙ expected_share_commitment-commit g poly new_id
        ∙ ap (g.smul g.generator) (evaluate-value f poly (f.from_u64 new_id)))
