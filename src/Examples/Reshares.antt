-- ===== src/Examples/Reshares.antt =====
-- Two old members, with shares of 3 + x, reshare to a new group.
use mathlib.Core.Option.{some-injective}
use golden_rs.Common.{
  ℕ, ◌≤◌, ◌≡◌, ◌≢◌, ◌↔◌, ◌∙◌, sym, ap, refl, unwrap_or, some, Bytes, List, [], ◌∷◌, length, map,
  All, arith, bytes_beq, nat_beq, nat_eq, lookup, insert, if◌then◌else◌,
}
use golden_rs.Algebra.Polynomials.{value}
use golden_rs.Algebra.Polynomials.Roots.{Apart}
use golden_rs.Shamir.{Polynomial, draw, new_random, horner, evaluate}
use golden_rs.Shamir.Interpolation.{Holds}
use golden_rs.Threshold.Signing.Reconstruction.{nodes}
use golden_rs.Vss.{commit, share_loop, expected_share_commitment}
use golden_rs.Evrf.{derive_pad, pad_of, extract_x_as_scalar}
use golden_rs.Dkg.Outcome.{Outcome, ok, panic}
use golden_rs.Dkg.Types.{Ciphertext, ReshareMsg, DkgOutput}
use golden_rs.Dkg.Round0.{degree_of}
use golden_rs.Dkg.Round1.{ciphertext_matches, first}
use golden_rs.Dkg.Dealing.Seals.{DistinctKeys}
use golden_rs.Dkg.Reshare.{
  ReshareError, Dealings, seal_members, reshare_deal, check_dealing_sessions, check_key_share,
  check_sub_shares, verify_dealings, decrypt_sub_share, decrypt_sub_shares, coefficient_loop,
  aggregate_loop, new_key_share, new_key_shares, reshare_receive,
}
use golden_rs.Dkg.Reshare.Interface.{verify_reshare_dealing}
use golden_rs.Dkg.Reshare.Aggregation.{combined}
use golden_rs.Dkg.Reshare.Dealing.{SubPadMatches}
use golden_rs.Dkg.Reshare.Secret.{new_members, reshare_receive-secret}
use golden_rs.Dkg.Reshare.Honest.{OldMember, dealing_by, reshare_receive-reshare_deal}
use golden_rs.Dkg.Reshare.Errors.{verify_reshare_dealing-exact}
use golden_rs.Dkg.Reshare.Panics.{Usable, reshare_receive-ne-panic}
use golden_rs.Examples.Toy.{F5, z0, z1, z2, z3, z4, field5, group5, rng5, encoding5}

abbrev session : Bytes
session = 9 ∷ []

abbrev member1 : OldMember F5 ℕ
member1 = record { id = 1; share = z4; sk_identity = z2; rng_state = 1 }

abbrev member2 : OldMember F5 ℕ
member2 = record { id = 2; share = z0; sk_identity = z3; rng_state = 6 }

abbrev olds : List (OldMember F5 ℕ)
olds = member1 ∷ member2 ∷ []

abbrev old_keys : List (ℕ × F5)
old_keys = (1, z2) ∷ (2, z3) ∷ []

abbrev old_shares : List (ℕ × F5)
old_shares = (1, z4) ∷ (2, z0) ∷ []

-- The new group: the secrets 4 and 2.
abbrev joining : List (ℕ × F5)
joining = (1, z4) ∷ (4, z2) ∷ []

joining_distinct : DistinctKeys joining
joining_distinct = (((λ e. omega (arith, e)), tt), (tt, tt))

abbrev drawn_by : ℕ → Polynomial F5
drawn_by i =
    if nat_beq i 1
    then (new_random rng5 z4 (degree_of 2) 1).0
    else (new_random rng5 z0 (degree_of 2) 6).0

abbrev received : Dealings F5 F5
received = map (dealing_by group5 encoding5 rng5 joining 2 z4 session) olds

nodes-Apart : Apart (nodes field5 (1 ∷ 2 ∷ []))
nodes-Apart = (((λ e. absurd (cc)), tt), (tt, tt))

reshare_receive-reshare_deal_example :
    (out : DkgOutput F5 F5) × (reshare_receive group5 encoding5 4 z2 old_keys received z4 z3
        old_shares 2 session
      ≡ ok out)
    × (out.secret_share ≡ value field5 (combined field5 drawn_by (1 ∷ 2 ∷ []) (1 ∷ 2 ∷ [])) z4)
unfolding lookup
reshare_receive-reshare_deal_example =
    reshare_receive-reshare_deal group5 encoding5 rng5 joining 2 z4 session drawn_by 4 z2 old_keys
      member1 (member2 ∷ []) z3 old_shares 2 (refl, (refl, tt)) joining_distinct refl
      (refl, (refl, tt)) (refl, (refl, tt)) (omega arith) nodes-Apart

abbrev no_output : DkgOutput F5 F5
no_output = record { public_key = z0; public_key_shares = []; secret_share = z0 }

abbrev output : Outcome ReshareError (DkgOutput F5 F5) → DkgOutput F5 F5
output (ok o) = o
output _ = no_output

-- The new member 4 after the resharing.
abbrev out4 : DkgOutput F5 F5
unfolding reshare_receive reshare_deal seal_members check_dealing_sessions check_key_share
    check_sub_shares verify_dealings decrypt_sub_share decrypt_sub_shares coefficient_loop
    aggregate_loop new_key_share new_key_shares ciphertext_matches new_random draw evaluate horner
    derive_pad pad_of extract_x_as_scalar lookup insert commit expected_share_commitment share_loop
    bytes_beq
out4 = output (reshare_receive group5 encoding5 4 z2 old_keys received z4 z3 old_shares 2 session)

pad_fits :
    (sender : ℕ) (msg : ReshareMsg F5 F5) (c : Ciphertext F5 F5) (key : F5)
    → lookup 4 msg.reshare_header.ciphertexts ≡ some c
    → lookup sender old_keys ≡ some key
    → c.r_commitment
      ≡ group5.smul z1 (derive_pad group5 encoding5 z2 key msg.reshare_header.random_msg z4).0
    → SubPadMatches group5 encoding5 4 z2 old_keys z4 (sender, msg)
pad_fits sender msg c key ec ek fits ct pk e1 e2 =
    ap (λ x. x.r_commitment) (some-injective _ _ (sym e1 ∙ ec))
    ∙ fits
    ∙ ap (λ k. group5.smul z1 (derive_pad group5 encoding5 z2 k msg.reshare_header.random_msg z4).0)
        (some-injective _ _ (sym ek ∙ e2))

abbrev message_of : OldMember F5 ℕ → ReshareMsg F5 F5
message_of m = (dealing_by group5 encoding5 rng5 joining 2 z4 session m).1

abbrev ciphertext_of : List (ℕ × Ciphertext F5 F5) → Ciphertext F5 F5
unfolding reshare_receive reshare_deal seal_members check_dealing_sessions check_key_share
    check_sub_shares verify_dealings decrypt_sub_share decrypt_sub_shares coefficient_loop
    aggregate_loop new_key_share new_key_shares ciphertext_matches new_random draw evaluate horner
    derive_pad pad_of extract_x_as_scalar lookup insert commit expected_share_commitment share_loop
    bytes_beq
ciphertext_of cts = unwrap_or (lookup 4 cts) (record { r_commitment = z0; encrypted_share = z0 })

pads_match : All (SubPadMatches group5 encoding5 4 z2 old_keys z4) received
unfolding reshare_receive reshare_deal seal_members check_dealing_sessions check_key_share
    check_sub_shares verify_dealings decrypt_sub_share decrypt_sub_shares coefficient_loop
    aggregate_loop new_key_share new_key_shares ciphertext_matches new_random draw evaluate horner
    derive_pad pad_of extract_x_as_scalar lookup insert commit expected_share_commitment share_loop
    bytes_beq
pads_match = (
  pad_fits 1 (message_of member1) (ciphertext_of (message_of member1).reshare_header.ciphertexts) z2
      refl refl refl,
  (
    pad_fits 2 (message_of member2) (ciphertext_of (message_of member2).reshare_header.ciphertexts)
        z3 refl refl refl,
    tt,
  ),
)

abbrev old_poly : Polynomial F5
old_poly = record { coefficients = z3 ∷ z1 ∷ [] }

few : All (λ i. length (drawn_by i).coefficients ≤ 2) (1 ∷ 2 ∷ [])
unfolding reshare_receive reshare_deal seal_members check_dealing_sessions check_key_share
    check_sub_shares verify_dealings decrypt_sub_share decrypt_sub_shares coefficient_loop
    aggregate_loop new_key_share new_key_shares ciphertext_matches new_random draw evaluate horner
    derive_pad pad_of extract_x_as_scalar lookup insert commit expected_share_commitment share_loop
    bytes_beq
few = (omega arith, (omega arith, tt))

reshare_receive-secret_example :
    let new : Polynomial F5 = record {
      coefficients = combined field5 drawn_by (1 ∷ 2 ∷ []) (1 ∷ 2 ∷ []);
    } in
    (length new.coefficients ≤ 2)
    × (evaluate field5 new z0 ≡ evaluate field5 old_poly z0)
    × (out4.secret_share ≡ evaluate field5 new z4)
    × ((k : ℕ)
        → Holds k (new_members received)
        → lookup k out4.public_key_shares
          ≡ some (group5.smul z1 (evaluate field5 new (field5.from_u64 k))))
    × (out4.public_key ≡ z3)
unfolding reshare_receive reshare_deal seal_members check_dealing_sessions check_key_share
    check_sub_shares verify_dealings decrypt_sub_share decrypt_sub_shares coefficient_loop
    aggregate_loop new_key_share new_key_shares ciphertext_matches new_random draw evaluate horner
    derive_pad pad_of extract_x_as_scalar lookup insert commit expected_share_commitment share_loop
    bytes_beq
reshare_receive-secret_example =
    reshare_receive-secret group5 encoding5 drawn_by old_poly 2 4 z2 old_keys received z4 z3
      old_shares 2 session {out = out4} nodes-Apart (omega arith) few (refl, (refl, tt))
      (refl, (refl, tt)) pads_match refl

reshare_receive-ne-panic_example :
    reshare_receive group5 encoding5 4 z2 old_keys received z4 z3 old_shares 2 session ≢ panic
unfolding reshare_receive reshare_deal seal_members check_dealing_sessions check_key_share
    check_sub_shares verify_dealings decrypt_sub_share decrypt_sub_shares coefficient_loop
    aggregate_loop new_key_share new_key_shares ciphertext_matches new_random draw evaluate horner
    derive_pad pad_of extract_x_as_scalar lookup insert commit expected_share_commitment share_loop
    bytes_beq
reshare_receive-ne-panic_example =
    reshare_receive-ne-panic group5 encoding5 4 z2 old_keys received z4 z3 old_shares 2 session
      usable
  where
    usable : All (Usable group5 old_keys) received
    usable = (((λ e. cc), (λ e. cc)), (((λ e. cc), (λ e. cc)), tt))

verify_reshare_dealing-exact_example :
    let header = (message_of member1).reshare_header in
    (verify_reshare_dealing group5 (message_of member1) old_shares session ≡ ok tt) ↔ (
      (header.session_id ≡ session)
      × ((p : F5)
          → lookup header.sender old_shares ≡ some p
          → first header.vss_commitment ≡ some p))
verify_reshare_dealing-exact_example =
    verify_reshare_dealing-exact group5 (message_of member1) old_shares session
