-- ===== src/Examples/Rounds.antt =====
-- Three participants: their dealings, the rounds of the first one, and a refresh of its share.
use mathlib.Core.Option.{some-injective}
use golden_rs.Common.{
  if◌then◌else◌, nat_beq, ◌≤◌, ℕ, ◌≡◌, ◌∙◌, sym, ap, refl, unwrap_or, some, none, Bytes, true, List,
  [], ◌∷◌, length, All, arith, bytes_beq, nat_eq, lookup, insert,
}
use golden_rs.Shamir.{Polynomial, draw, new_random, horner, evaluate}
use golden_rs.Vss.{commit, share_loop, expected_share_commitment}
use golden_rs.Evrf.{derive_pad, pad_of, extract_x_as_scalar}
use golden_rs.Dkg.Outcome.{Outcome, ok}
use golden_rs.Dkg.Types.{Ciphertext, Round0Msg, DkgOutput, DkgError, ZkEvrf, checked}
use golden_rs.Dkg.Round0.{deal, share_map, seal_loop, seal_for, others}
use golden_rs.Dkg.Round1.{
  Received, check_sessions, verify_messages, check_ciphertexts, ciphertext_matches, check_proofs,
  recipients, legacy_proofs, decrypt, decrypt_all, sum_keys, key_share_at, key_shares, round1,
}
use golden_rs.Dkg.Refresh.{
  round1_refresh, check_zero_secret, check_zero_secrets, refreshed_key_shares,
}
use golden_rs.Dkg.Agreement.{round1_agreement, PadMatches}
use golden_rs.Dkg.Secret.{sum_at, round1_secret}
use golden_rs.Dkg.Dealing.{decrypt-deal}
use golden_rs.Dkg.Dealing.Seals.{DistinctKeys}
use golden_rs.Dkg.Refresh.Rotation.{refresh_agreement, refresh_adds_zero}
use golden_rs.Examples.Toy.{add, F5, z0, z1, z2, z3, z4, field5, group5, rng5, encoding5}

abbrev zk5 : ZkEvrf F5 F5 ℕ
zk5 = record {
  prove_batch = λ sk pk peers pads beta. some (length pads);
  verify_batch = λ pk peers pads beta proof. checked true;
  verify = λ pk peer pad beta proof. checked true;
}

-- The keys of the secrets 2, 3 and 1.
abbrev keys : List (ℕ × F5)
keys = (1, z2) ∷ (2, z3) ∷ (3, z1) ∷ []

keys_distinct : DistinctKeys keys
keys_distinct = (
  ((λ e. omega (arith, e)), ((λ e. omega (arith, e)), tt)),
  (((λ e. omega (arith, e)), tt), (tt, tt)),
)

abbrev session : Bytes
session = 9 ∷ []

abbrev Dealt : Type 0
Dealt = Round0Msg F5 F5 ℕ × F5 × ℕ

abbrev nothing : Dealt
nothing = (
  record {
    dkg_header = record {
      session_id = [];
      sender = 0;
      random_msg = [];
      vss_commitment = [];
      ciphertexts = [];
    };
    evrf_proofs = [];
    batch_evrf_proof = none;
  },
  z0,
  0,
)

abbrev dealt : F5 → ℕ → F5 → ℕ → Dealt
unfolding deal round1 round1_refresh share_map seal_loop seal_for others new_random draw evaluate
    horner derive_pad pad_of extract_x_as_scalar lookup insert commit expected_share_commitment
    share_loop check_sessions verify_messages check_ciphertexts ciphertext_matches check_proofs
    recipients legacy_proofs decrypt decrypt_all sum_keys key_share_at key_shares bytes_beq
    check_zero_secret check_zero_secrets refreshed_key_shares
dealt secret id sk r =
    unwrap_or (deal group5 encoding5 rng5 zk5 secret id 3 2 sk keys z4 session r) nothing

decrypt-deal_example :
    decrypt group5 encoding5 2 z3 keys z4 1 (dealt z3 1 z2 1).0
    ≡ ok (evaluate field5 (new_random rng5 z3 1 1).0 z2)
unfolding deal round1 round1_refresh share_map seal_loop seal_for others new_random draw evaluate
    horner derive_pad pad_of extract_x_as_scalar lookup insert commit expected_share_commitment
    share_loop check_sessions verify_messages check_ciphertexts ciphertext_matches check_proofs
    recipients legacy_proofs decrypt decrypt_all sum_keys key_share_at key_shares bytes_beq
    check_zero_secret check_zero_secrets refreshed_key_shares
decrypt-deal_example =
    decrypt-deal group5 encoding5 rng5 zk5 z3 1 3 2 z2 keys z4 session 1 2 z3 keys
      {out = dealt z3 1 z2 1} keys_distinct refl refl refl (λ e. omega (arith, e))

abbrev received : Received F5 F5 ℕ
received = (2, (dealt z4 2 z3 6).0) ∷ (3, (dealt z2 3 z1 11).0) ∷ []

pad_fits :
    (sender : ℕ) (msg : Round0Msg F5 F5 ℕ) (c : Ciphertext F5 F5) (key : F5)
    → lookup 1 msg.dkg_header.ciphertexts ≡ some c
    → lookup sender keys ≡ some key
    → c.r_commitment
      ≡ group5.smul z1 (derive_pad group5 encoding5 z2 key msg.dkg_header.random_msg z4).0
    → PadMatches group5 encoding5 1 z2 keys z4 (sender, msg)
pad_fits sender msg c key ec ek fits ct pk e1 e2 =
    ap (λ x. x.r_commitment) (some-injective _ _ (sym e1 ∙ ec))
    ∙ fits
    ∙ ap (λ k. group5.smul z1 (derive_pad group5 encoding5 z2 k msg.dkg_header.random_msg z4).0)
        (some-injective _ _ (sym ek ∙ e2))

abbrev no_output : DkgOutput F5 F5
no_output = record { public_key = z0; public_key_shares = []; secret_share = z0 }

abbrev output : Outcome DkgError (DkgOutput F5 F5) → DkgOutput F5 F5
output (ok o) = o
output _ = no_output

-- The first participant after round 1.
abbrev own1 : Dealt
unfolding deal round1 round1_refresh share_map seal_loop seal_for others new_random draw evaluate
    horner derive_pad pad_of extract_x_as_scalar lookup insert commit expected_share_commitment
    share_loop check_sessions verify_messages check_ciphertexts ciphertext_matches check_proofs
    recipients legacy_proofs decrypt decrypt_all sum_keys key_share_at key_shares bytes_beq
    check_zero_secret check_zero_secrets refreshed_key_shares
own1 = dealt z3 1 z2 1

abbrev out1 : DkgOutput F5 F5
unfolding deal round1 round1_refresh share_map seal_loop seal_for others new_random draw evaluate
    horner derive_pad pad_of extract_x_as_scalar lookup insert commit expected_share_commitment
    share_loop check_sessions verify_messages check_ciphertexts ciphertext_matches check_proofs
    recipients legacy_proofs decrypt decrypt_all sum_keys key_share_at key_shares bytes_beq
    check_zero_secret check_zero_secrets refreshed_key_shares
out1 = output (
    round1 group5 encoding5 zk5 1 z2 keys own1.1 own1.0.dkg_header.vss_commitment received z4
      session)

abbrev ciphertext_of : List (ℕ × Ciphertext F5 F5) → Ciphertext F5 F5
ciphertext_of cts = unwrap_or (lookup 1 cts) (record { r_commitment = z0; encrypted_share = z0 })

pads_match : All (PadMatches group5 encoding5 1 z2 keys z4) received
unfolding deal round1 round1_refresh share_map seal_loop seal_for others new_random draw evaluate
    horner derive_pad pad_of extract_x_as_scalar lookup insert commit expected_share_commitment
    share_loop check_sessions verify_messages check_ciphertexts ciphertext_matches check_proofs
    recipients legacy_proofs decrypt decrypt_all sum_keys key_share_at key_shares bytes_beq
    check_zero_secret check_zero_secrets refreshed_key_shares
pads_match = (
  pad_fits 2 (dealt z4 2 z3 6).0 (ciphertext_of (dealt z4 2 z3 6).0.dkg_header.ciphertexts) z3 refl
      refl refl,
  (
    pad_fits 3 (dealt z2 3 z1 11).0 (ciphertext_of (dealt z2 3 z1 11).0.dkg_header.ciphertexts) z1
        refl refl refl,
    tt,
  ),
)

round1_agreement_example : lookup 1 out1.public_key_shares ≡ some (group5.smul z1 out1.secret_share)
unfolding deal round1 round1_refresh share_map seal_loop seal_for others new_random draw evaluate
    horner derive_pad pad_of extract_x_as_scalar lookup insert commit expected_share_commitment
    share_loop check_sessions verify_messages check_ciphertexts ciphertext_matches check_proofs
    recipients legacy_proofs decrypt decrypt_all sum_keys key_share_at key_shares bytes_beq
    check_zero_secret check_zero_secrets refreshed_key_shares
round1_agreement_example =
    round1_agreement group5 encoding5 zk5 1 z2 keys own1.1 own1.0.dkg_header.vss_commitment received
      z4 session {out = out1} (omega arith) (omega arith) refl pads_match refl

-- What the three dealers drew, and the sum: 4 + 3 x.
abbrev drawn_by : ℕ → Polynomial F5
drawn_by i = (new_random rng5 (if nat_beq i 2 then z4 else z2) 1 (if nat_beq i 2 then 6 else 11)).0

abbrev own_poly : Polynomial F5
own_poly = (new_random rng5 z3 1 1).0

abbrev total : Polynomial F5
total = record { coefficients = z4 ∷ z3 ∷ [] }

adds_up :
    (z : F5)
    → evaluate field5 total z
      ≡ add (evaluate field5 own_poly z) (sum_at field5 drawn_by z (2 ∷ 3 ∷ []))
unfolding evaluate horner new_random draw
adds_up z0 = refl
adds_up z1 = refl
adds_up z2 = refl
adds_up z3 = refl
adds_up z4 = refl

round1_secret_example :
    (out1.secret_share ≡ evaluate field5 total z1)
    × (out1.public_key ≡ group5.smul z1 (evaluate field5 total z0))
    × ((k : ℕ)
        → 1 ≤ k
        → k ≤ 3
        → lookup k out1.public_key_shares
          ≡ some (group5.smul z1 (evaluate field5 total (field5.from_u64 k))))
unfolding deal round1 round1_refresh share_map seal_loop seal_for others new_random draw evaluate
    horner derive_pad pad_of extract_x_as_scalar lookup insert commit expected_share_commitment
    share_loop check_sessions verify_messages check_ciphertexts ciphertext_matches check_proofs
    recipients legacy_proofs decrypt decrypt_all sum_keys key_share_at key_shares bytes_beq
    check_zero_secret check_zero_secrets refreshed_key_shares
round1_secret_example =
    round1_secret group5 encoding5 zk5 drawn_by own_poly total 1 z2 keys received z4 session
      {out = out1} adds_up (refl, (refl, tt)) pads_match refl

-- The deltas of a refresh.
abbrev own_delta : Dealt
unfolding deal round1 round1_refresh share_map seal_loop seal_for others new_random draw evaluate
    horner derive_pad pad_of extract_x_as_scalar lookup insert commit expected_share_commitment
    share_loop check_sessions verify_messages check_ciphertexts ciphertext_matches check_proofs
    recipients legacy_proofs decrypt decrypt_all sum_keys key_share_at key_shares bytes_beq
    check_zero_secret check_zero_secrets refreshed_key_shares
own_delta = dealt z0 1 z2 3

abbrev deltas : Received F5 F5 ℕ
unfolding deal round1 round1_refresh share_map seal_loop seal_for others new_random draw evaluate
    horner derive_pad pad_of extract_x_as_scalar lookup insert commit expected_share_commitment
    share_loop check_sessions verify_messages check_ciphertexts ciphertext_matches check_proofs
    recipients legacy_proofs decrypt decrypt_all sum_keys key_share_at key_shares bytes_beq
    check_zero_secret check_zero_secrets refreshed_key_shares
deltas = (2, (dealt z0 2 z3 7).0) ∷ (3, (dealt z0 3 z1 4).0) ∷ []

abbrev out2 : DkgOutput F5 F5
unfolding deal round1 round1_refresh share_map seal_loop seal_for others new_random draw evaluate
    horner derive_pad pad_of extract_x_as_scalar lookup insert commit expected_share_commitment
    share_loop check_sessions verify_messages check_ciphertexts ciphertext_matches check_proofs
    recipients legacy_proofs decrypt decrypt_all sum_keys key_share_at key_shares bytes_beq
    check_zero_secret check_zero_secrets refreshed_key_shares
out2 = output (
    round1_refresh group5 encoding5 zk5 1 z2 keys own_delta.1 own_delta.0.dkg_header.vss_commitment
      deltas z4 out1.secret_share out1.public_key out1.public_key_shares session)

deltas_match : All (PadMatches group5 encoding5 1 z2 keys z4) deltas
unfolding deal round1 round1_refresh share_map seal_loop seal_for others new_random draw evaluate
    horner derive_pad pad_of extract_x_as_scalar lookup insert commit expected_share_commitment
    share_loop check_sessions verify_messages check_ciphertexts ciphertext_matches check_proofs
    recipients legacy_proofs decrypt decrypt_all sum_keys key_share_at key_shares bytes_beq
    check_zero_secret check_zero_secrets refreshed_key_shares
deltas_match = (
  pad_fits 2 (dealt z0 2 z3 7).0 (ciphertext_of (dealt z0 2 z3 7).0.dkg_header.ciphertexts) z3 refl
      refl refl,
  (
    pad_fits 3 (dealt z0 3 z1 4).0 (ciphertext_of (dealt z0 3 z1 4).0.dkg_header.ciphertexts) z1
        refl refl refl,
    tt,
  ),
)

refresh_agreement_example :
    (lookup 1 out2.public_key_shares ≡ some (group5.smul z1 out2.secret_share))
    × (out2.public_key ≡ out1.public_key)
unfolding deal round1 round1_refresh share_map seal_loop seal_for others new_random draw evaluate
    horner derive_pad pad_of extract_x_as_scalar lookup insert commit expected_share_commitment
    share_loop check_sessions verify_messages check_ciphertexts ciphertext_matches check_proofs
    recipients legacy_proofs decrypt decrypt_all sum_keys key_share_at key_shares bytes_beq
    check_zero_secret check_zero_secrets refreshed_key_shares
refresh_agreement_example =
    refresh_agreement group5 encoding5 zk5 1 z2 keys own_delta.1
      own_delta.0.dkg_header.vss_commitment deltas z4 out1.secret_share out1.public_key
      out1.public_key_shares session {out = out2} (omega arith) (omega arith) refl refl deltas_match
      refl

refresh_adds_zero_example :
    key_share_at group5
      (expected_share_commitment group5 own_delta.0.dkg_header.vss_commitment 0)
      0
      deltas
    ≡ z0
unfolding deal round1 round1_refresh share_map seal_loop seal_for others new_random draw evaluate
    horner derive_pad pad_of extract_x_as_scalar lookup insert commit expected_share_commitment
    share_loop check_sessions verify_messages check_ciphertexts ciphertext_matches check_proofs
    recipients legacy_proofs decrypt decrypt_all sum_keys key_share_at key_shares bytes_beq
    check_zero_secret check_zero_secrets refreshed_key_shares
refresh_adds_zero_example =
    refresh_adds_zero group5 encoding5 zk5 1 z2 keys own_delta.1
      own_delta.0.dkg_header.vss_commitment deltas z4 out1.secret_share out1.public_key
      out1.public_key_shares session {out = out2} refl
