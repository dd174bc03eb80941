-- ===== src/Examples/Quorums.antt =====
-- Replicas that notarize, nullify and finalize.
use golden_rs.Common.{
  some, ◌≡◌, ◌≤◌, refl, unwrap_or, Bytes, List, [], ◌∷◌, length, arith, bytes_beq, lookup, insert,
  be_bytes,
}
use golden_rs.Threshold.Signing.{
  combine_dynamic, combine_loop, first_partials, lagrange_coeff, lagrange_loop, lagrange_step,
  partial_sign,
}
use golden_rs.Threshold.Beacon.{digest_message, hash_to_g2, derive_randomness, g2_to_bytes}
use golden_rs.Consensus.Types.{Message, block_hash, block_bytes, genesis, zero_hash, pending}
use golden_rs.Consensus.Vrf.{elect_leader, vrf_message}
use golden_rs.Consensus.Replica.{
  Replica, Run, Stepped, new, run, apply_message, own_block, push_vote, sign_bytes, sign_vote,
  sign_dummy, sign_finalize, leader_for, has_signer, seed_of,
}
use golden_rs.Consensus.Safety.Finality.{Distinct, finalized_quorum, finalized_names_zero}
use golden_rs.Consensus.Safety.Quorum.{
  VotesDistinct, AdmissibleRun, run-new-VotesDistinct, apply_message-VotesDistinct,
  new-VotesDistinct,
}
use golden_rs.Consensus.Safety.Quorum.Ballots.{votes_in}
use golden_rs.Consensus.Safety.Quorum.Certificates.{Certified, nullified_quorum, nullify_ballots}
use golden_rs.Consensus.Safety.Quorum.Notarizations.{
  notarized_quorum, notarize_ballots, voted_block,
}
use golden_rs.Examples.Toy.{F5, z1, z2, z4, group5, hashing5}
use golden_rs.Examples.Votes.{share1, config4, by, hash1, replica1}

-- The block of view 1 is notarized, and nodes 2 and 3 vote to finalize it.
abbrev before_last : List (Message F5)
before_last =
    Message.propose_request 1 (7 ∷ [])
    ∷ Message.vote 1 hash1 2 (by 2 z1)
    ∷ Message.vote 1 hash1 3 (by 3 z4)
    ∷ Message.finalize_vote 1 2 (by 2 z1)
    ∷ Message.finalize_vote 1 3 (by 3 z1)
    ∷ []

abbrev last : Message F5
last = Message.finalize_vote 1 4 (by 4 z2)

abbrev nearly : Run F5 F5 F5
unfolding run apply_message leader_for elect_leader new block_hash block_bytes be_bytes genesis
    bytes_beq lookup insert push_vote sign_bytes sign_vote sign_dummy sign_finalize partial_sign
    combine_dynamic combine_loop first_partials lagrange_coeff lagrange_loop lagrange_step
    digest_message hash_to_g2 derive_randomness g2_to_bytes vrf_message has_signer seed_of
nearly = unwrap_or (run group5 hashing5 (new 1 share1 config4) before_last) (replica1, [], [])

abbrev final : Stepped F5 F5 F5
unfolding run apply_message leader_for elect_leader new block_hash block_bytes be_bytes genesis
    bytes_beq lookup insert push_vote sign_bytes sign_vote sign_dummy sign_finalize partial_sign
    combine_dynamic combine_loop first_partials lagrange_coeff lagrange_loop lagrange_step
    digest_message hash_to_g2 derive_randomness g2_to_bytes vrf_message has_signer seed_of
final = unwrap_or (apply_message group5 hashing5 nearly.0 last) (replica1, pending, [])

finalized_quorum_example : (3 ≤ length final.0.finalize_votes) × Distinct final.0.finalize_votes
unfolding run apply_message leader_for elect_leader new block_hash block_bytes be_bytes genesis
    bytes_beq lookup insert push_vote sign_bytes sign_vote sign_dummy sign_finalize partial_sign
    combine_dynamic combine_loop first_partials lagrange_coeff lagrange_loop lagrange_step
    digest_message hash_to_g2 derive_randomness g2_to_bytes vrf_message has_signer seed_of
finalized_quorum_example =
    finalized_quorum group5 hashing5 1 share1 config4 before_last last {q = nearly} {s = final}
      {view = 1} {bh = zero_hash} refl refl refl

finalized_names_zero_example : zero_hash ≡ zero_hash
unfolding run apply_message leader_for elect_leader new block_hash block_bytes be_bytes genesis
    bytes_beq lookup insert push_vote sign_bytes sign_vote sign_dummy sign_finalize partial_sign
    combine_dynamic combine_loop first_partials lagrange_coeff lagrange_loop lagrange_step
    digest_message hash_to_g2 derive_randomness g2_to_bytes vrf_message has_signer seed_of
finalized_names_zero_example =
    finalized_names_zero group5 hashing5 1 share1 config4 before_last last {q = nearly} {s = final}
      {view = 1} {bh = zero_hash} refl refl refl

-- The nullification vote of node 2, then the timer.
abbrev others_time_out : List (Message F5)
others_time_out = Message.nullify_vote 1 2 (by 2 z1) ∷ Message.timeout 1 ∷ []

abbrev timed_out : Run F5 F5 F5
unfolding run apply_message leader_for elect_leader new block_hash block_bytes be_bytes genesis
    bytes_beq lookup insert push_vote sign_bytes sign_vote sign_dummy sign_finalize partial_sign
    combine_dynamic combine_loop first_partials lagrange_coeff lagrange_loop lagrange_step
    digest_message hash_to_g2 derive_randomness g2_to_bytes vrf_message has_signer seed_of
timed_out =
    unwrap_or (run group5 hashing5 (new 1 share1 config4) others_time_out) (replica1, [], [])

admissible : AdmissibleRun group5 hashing5 (new 1 share1 config4) others_time_out
unfolding run apply_message leader_for elect_leader new block_hash block_bytes be_bytes genesis
    bytes_beq lookup insert push_vote sign_bytes sign_vote sign_dummy sign_finalize partial_sign
    combine_dynamic combine_loop first_partials lagrange_coeff lagrange_loop lagrange_step
    digest_message hash_to_g2 derive_randomness g2_to_bytes vrf_message has_signer seed_of
admissible = ((λ e. omega (arith, e)), λ s e. (tt, λ s' e'. tt))

run-new-VotesDistinct_example :
    Distinct timed_out.0.nullify_votes
    × ((bh : Bytes) → Distinct (votes_in timed_out.0.notarize_votes bh))
unfolding run apply_message leader_for elect_leader new block_hash block_bytes be_bytes genesis
    bytes_beq lookup insert push_vote sign_bytes sign_vote sign_dummy sign_finalize partial_sign
    combine_dynamic combine_loop first_partials lagrange_coeff lagrange_loop lagrange_step
    digest_message hash_to_g2 derive_randomness g2_to_bytes vrf_message has_signer seed_of
run-new-VotesDistinct_example =
    run-new-VotesDistinct group5 hashing5 1 share1 config4 others_time_out {q = timed_out}
      admissible refl

timed_out-VotesDistinct : VotesDistinct timed_out.0
unfolding run apply_message leader_for elect_leader new block_hash block_bytes be_bytes genesis
    bytes_beq lookup insert push_vote sign_bytes sign_vote sign_dummy sign_finalize partial_sign
    combine_dynamic combine_loop first_partials lagrange_coeff lagrange_loop lagrange_step
    digest_message hash_to_g2 derive_randomness g2_to_bytes vrf_message has_signer seed_of
timed_out-VotesDistinct =
    apply_message-VotesDistinct group5 hashing5 _ (Message.timeout 1)
      (apply_message-VotesDistinct group5 hashing5 (new 1 share1 config4)
        (Message.nullify_vote 1 2 (by 2 z1)) (new-VotesDistinct group5 hashing5 1 share1 config4)
        (λ e. omega (arith, e)) refl)
      tt refl

abbrev third : Message F5
third = Message.nullify_vote 1 3 (by 3 z2)

abbrev gave_up : Stepped F5 F5 F5
unfolding run apply_message leader_for elect_leader new block_hash block_bytes be_bytes genesis
    bytes_beq lookup insert push_vote sign_bytes sign_vote sign_dummy sign_finalize partial_sign
    combine_dynamic combine_loop first_partials lagrange_coeff lagrange_loop lagrange_step
    digest_message hash_to_g2 derive_randomness g2_to_bytes vrf_message has_signer seed_of
gave_up = unwrap_or (apply_message group5 hashing5 timed_out.0 third) (replica1, pending, [])

nullified_quorum_example :
    (1 ≡ timed_out.0.current_view)
    × Certified group5 hashing5 3 gave_up.0.chain_state.vrf_seed
        (nullify_ballots group5 hashing5 timed_out.0 third)
unfolding run apply_message leader_for elect_leader new block_hash block_bytes be_bytes genesis
    bytes_beq lookup insert push_vote sign_bytes sign_vote sign_dummy sign_finalize partial_sign
    combine_dynamic combine_loop first_partials lagrange_coeff lagrange_loop lagrange_step
    digest_message hash_to_g2 derive_randomness g2_to_bytes vrf_message has_signer seed_of
nullified_quorum_example =
    nullified_quorum group5 hashing5 timed_out.0 third {s = gave_up} {v = 1} timed_out-VotesDistinct
      refl refl

-- Node 3 of a network with a threshold of two, which has the vote of node 2 and gets the proposal.
abbrev replica3 : Replica F5 F5 F5
unfolding run apply_message leader_for elect_leader new block_hash block_bytes be_bytes genesis
    bytes_beq lookup insert push_vote sign_bytes sign_vote sign_dummy sign_finalize partial_sign
    combine_dynamic combine_loop first_partials lagrange_coeff lagrange_loop lagrange_step
    digest_message hash_to_g2 derive_randomness g2_to_bytes vrf_message has_signer seed_of
replica3 = new 3 (record share1 { id = 3 }) (record config4 { t = 2 })

abbrev vote2 : Message F5
vote2 = Message.vote 1 hash1 2 (by 2 z1)

abbrev voted : Stepped F5 F5 F5
unfolding run apply_message leader_for elect_leader new block_hash block_bytes be_bytes genesis
    bytes_beq lookup insert push_vote sign_bytes sign_vote sign_dummy sign_finalize partial_sign
    combine_dynamic combine_loop first_partials lagrange_coeff lagrange_loop lagrange_step
    digest_message hash_to_g2 derive_randomness g2_to_bytes vrf_message has_signer seed_of
voted = unwrap_or (apply_message group5 hashing5 replica3 vote2) (replica3, pending, [])

voted-VotesDistinct : VotesDistinct voted.0
unfolding run apply_message leader_for elect_leader new block_hash block_bytes be_bytes genesis
    bytes_beq lookup insert push_vote sign_bytes sign_vote sign_dummy sign_finalize partial_sign
    combine_dynamic combine_loop first_partials lagrange_coeff lagrange_loop lagrange_step
    digest_message hash_to_g2 derive_randomness g2_to_bytes vrf_message has_signer seed_of
voted-VotesDistinct =
    apply_message-VotesDistinct group5 hashing5 replica3 vote2 {s = voted}
      (new-VotesDistinct group5 hashing5 3 (record share1 { id = 3 }) (record config4 { t = 2 }))
      (λ e. omega (arith, e)) refl

abbrev proposed : Message F5
proposed = Message.proposal (own_block (new {G2 = F5} 1 share1 config4) 1 (7 ∷ []))

abbrev agreed : Stepped F5 F5 F5
unfolding run apply_message leader_for elect_leader new block_hash block_bytes be_bytes genesis
    bytes_beq lookup insert push_vote sign_bytes sign_vote sign_dummy sign_finalize partial_sign
    combine_dynamic combine_loop first_partials lagrange_coeff lagrange_loop lagrange_step
    digest_message hash_to_g2 derive_randomness g2_to_bytes vrf_message has_signer seed_of
agreed = unwrap_or (apply_message group5 hashing5 voted.0 proposed) (replica3, pending, [])

notarized_quorum_example :
    (1 ≡ voted.0.current_view)
    × (voted_block hashing5 proposed ≡ some hash1)
    × Certified group5 hashing5 2 agreed.0.chain_state.vrf_seed
        (notarize_ballots group5 hashing5 voted.0 proposed hash1)
unfolding run apply_message leader_for elect_leader new block_hash block_bytes be_bytes genesis
    bytes_beq lookup insert push_vote sign_bytes sign_vote sign_dummy sign_finalize partial_sign
    combine_dynamic combine_loop first_partials lagrange_coeff lagrange_loop lagrange_step
    digest_message hash_to_g2 derive_randomness g2_to_bytes vrf_message has_signer seed_of
notarized_quorum_example =
    notarized_quorum group5 hashing5 voted.0 proposed {s = agreed} {v = 1} {b = hash1}
      voted-VotesDistinct refl refl refl
