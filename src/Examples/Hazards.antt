-- ===== src/Examples/Hazards.antt =====
-- Replicas in the states where the handlers do what a reader may not expect.
use golden_rs.Common.{◌≡◌, refl, some, [], ◌∷◌, arith, bytes_beq, lookup, insert, be_bytes}
use golden_rs.Threshold.Signing.{
  combine_dynamic, combine_loop, first_partials, lagrange_coeff, lagrange_loop, lagrange_step,
  partial_sign,
}
use golden_rs.Threshold.Beacon.{digest_message, hash_to_g2, derive_randomness, g2_to_bytes}
use golden_rs.Consensus.Types.{
  Block, Certificate, CertKind, Message, block_hash, block_bytes, genesis, finalized, zero_hash,
  pending,
}
use golden_rs.Consensus.Vrf.{elect_leader, vrf_message}
use golden_rs.Consensus.Replica.{
  Replica, Run, new, run, apply_message, push_vote, sign_bytes, sign_vote, sign_dummy,
  sign_finalize, leader_for, has_signer, seed_of,
}
use golden_rs.Consensus.Safety.OneVote.{count_votes}
use golden_rs.Consensus.Safety.Hazards.{twice, propose_twice, finalize_mixes_views}
use golden_rs.Examples.Toy.{F5, z1, group5, hashing5}
use golden_rs.Examples.Votes.{config4, by, replica1}

propose_twice_example :
    (q : Run F5 F5 F5) × (run group5 hashing5 replica1 (twice replica1 (7 ∷ []) (8 ∷ [])) ≡ some q)
    × (count_votes 1 q.2 ≡ 2)
unfolding run apply_message leader_for elect_leader new block_hash block_bytes be_bytes genesis
    bytes_beq lookup insert push_vote sign_bytes sign_vote sign_dummy sign_finalize partial_sign
    combine_dynamic combine_loop first_partials lagrange_coeff lagrange_loop lagrange_step
    digest_message hash_to_g2 derive_randomness g2_to_bytes vrf_message has_signer seed_of
propose_twice_example = propose_twice group5 hashing5 replica1 (7 ∷ []) (8 ∷ []) refl

-- Three finalize votes are there.
abbrev settled : Replica F5 F5 F5
settled = record replica1 { finalize_votes = (2, by 2 z1) ∷ (3, by 3 z1) ∷ (4, by 4 z1) ∷ [] }

abbrev pair_of : Replica F5 F5 F5
pair_of = record replica1 { config = record config4 { t = 2 }; current_view = 6 }

finalize_mixes_views_example :
    (q : Run F5 F5 F5) × (run group5 hashing5 pair_of
        (Message.finalize_vote 5 2 (by 2 z1) ∷ Message.finalize_vote 6 3 (by 3 z1) ∷ [])
      ≡ some q)
    × (q.1 ≡ pending ∷ finalized 6 zero_hash ∷ [])
unfolding run apply_message leader_for elect_leader new block_hash block_bytes be_bytes genesis
    bytes_beq lookup insert push_vote sign_bytes sign_vote sign_dummy sign_finalize partial_sign
    combine_dynamic combine_loop first_partials lagrange_coeff lagrange_loop lagrange_step
    digest_message hash_to_g2 derive_randomness g2_to_bytes vrf_message has_signer seed_of
finalize_mixes_views_example =
    finalize_mixes_views group5 hashing5 pair_of 2 3 (by 2 z1) (by 3 z1) refl refl
      (λ e. omega (arith, e))

-- A block that names another view, and two certificates for it.
abbrev stray : Block
stray = record { view = 9; parent_hash = []; payload = []; proposer = 4 }

abbrev cert_of : F5 → Certificate F5
cert_of signature = record { view = 3; kind = CertKind.nullification; signature = signature }
