-- ===== src/Examples/Votes.antt =====
-- One replica of four, with a threshold of three.
use golden_rs.Common.{
  ℕ, ◌≡◌, refl, unwrap_or, Bytes, true, false, List, [], ◌∷◌, arith, bytes_beq, lookup, insert,
  be_bytes,
}
use golden_rs.Threshold.Types.{KeyShare, PartialSignature}
use golden_rs.Threshold.Signing.{
  combine_dynamic, combine_loop, first_partials, lagrange_coeff, lagrange_loop, lagrange_step,
  partial_sign,
}
use golden_rs.Threshold.Beacon.{digest_message, hash_to_g2, derive_randomness, g2_to_bytes}
use golden_rs.Consensus.Types.{Message, NetworkConfig, block_hash, block_bytes, genesis}
use golden_rs.Consensus.Vrf.{elect_leader, vrf_message}
use golden_rs.Consensus.Replica.{
  Replica, Run, new, run, apply_message, own_block, push_vote, sign_bytes, sign_vote, sign_dummy,
  sign_finalize, leader_for, has_signer,
}
use golden_rs.Consensus.Safety.Exclusion.{finalize_excludes_nullify}
use golden_rs.Consensus.Safety.Effects.{sends_finalize, sends_nullify}
use golden_rs.Consensus.Safety.OneVote.{one_vote_per_view, count_votes, count_requests}
use golden_rs.Common.{◌≤◌, ◌+◌}
use golden_rs.Consensus.Replica.{seed_of}
use golden_rs.Consensus.Safety.Ledger.{run-ledger, ledger, Implements}
use golden_rs.Consensus.Safety.OneVote.{one_vote_per_view, count_votes, count_requests}
use golden_rs.Consensus.Safety.Ledger.{run-ledger, ledger, Implements}
use golden_rs.Examples.Toy.{F5, z1, z2, z3, z4, group5, hashing5}

abbrev pub share1 : KeyShare F5 F5
share1 = record {
  id = 1;
  secret = z3;
  group_info = record { public_key = z2; threshold = 3; num_nodes = 4 };
}

abbrev pub config4 : NetworkConfig F5
config4 = record { n = 4; t = 3; f = 1; group_pk = z2 }

abbrev pub replica1 : Replica F5 F5 F5
unfolding new
replica1 = new 1 share1 config4

abbrev pub by : ℕ → F5 → PartialSignature F5
by signer signature = record { signer = signer; signature = signature }

abbrev pub hash1 : Bytes
unfolding block_hash block_bytes be_bytes new
hash1 = block_hash hashing5 (own_block (new {G2 = F5} 1 share1 config4) 1 (7 ∷ []))

abbrev notarize_then_time_out : List (Message F5)
notarize_then_time_out =
    Message.propose_request 1 (7 ∷ [])
    ∷ Message.vote 1 hash1 2 (by 2 z1)
    ∷ Message.vote 1 hash1 3 (by 3 z4)
    ∷ Message.timeout 2
    ∷ []

-- What the run gives.
abbrev ran : Run F5 F5 F5
unfolding run apply_message leader_for elect_leader new block_hash block_bytes be_bytes genesis
    bytes_beq lookup insert push_vote sign_bytes sign_vote sign_dummy sign_finalize partial_sign
    combine_dynamic combine_loop first_partials lagrange_coeff lagrange_loop lagrange_step
    digest_message hash_to_g2 derive_randomness g2_to_bytes vrf_message has_signer seed_of
ran =
    unwrap_or (run group5 hashing5 (new 1 share1 config4) notarize_then_time_out) (replica1, [], [])

finalize_excludes_nullify_example : sends_nullify 1 ran.2 ≡ false
unfolding run apply_message leader_for elect_leader new block_hash block_bytes be_bytes genesis
    bytes_beq lookup insert push_vote sign_bytes sign_vote sign_dummy sign_finalize partial_sign
    combine_dynamic combine_loop first_partials lagrange_coeff lagrange_loop lagrange_step
    digest_message hash_to_g2 derive_randomness g2_to_bytes vrf_message has_signer seed_of
finalize_excludes_nullify_example =
    finalize_excludes_nullify group5 hashing5 1 share1 config4 notarize_then_time_out 1 {q = ran}
      (omega arith) refl refl

-- The run does send both kinds of votes, for different views.
ran_sends : (sends_finalize 1 ran.2 ≡ true) × (sends_nullify 2 ran.2 ≡ true)
unfolding run apply_message leader_for elect_leader new block_hash block_bytes be_bytes genesis
    bytes_beq lookup insert push_vote sign_bytes sign_vote sign_dummy sign_finalize partial_sign
    combine_dynamic combine_loop first_partials lagrange_coeff lagrange_loop lagrange_step
    digest_message hash_to_g2 derive_randomness g2_to_bytes vrf_message has_signer seed_of
ran_sends = (refl, refl)

one_vote_per_view_example : count_votes 1 ran.2 ≤ 1 + count_requests 1 notarize_then_time_out
unfolding run apply_message leader_for elect_leader new block_hash block_bytes be_bytes genesis
    bytes_beq lookup insert push_vote sign_bytes sign_vote sign_dummy sign_finalize partial_sign
    combine_dynamic combine_loop first_partials lagrange_coeff lagrange_loop lagrange_step
    digest_message hash_to_g2 derive_randomness g2_to_bytes vrf_message has_signer seed_of
one_vote_per_view_example =
    one_vote_per_view group5 hashing5 1 share1 config4 notarize_then_time_out 1 {q = ran}
      (omega arith) refl

run-ledger_example : Implements (ledger (new {G2 = F5} 1 share1 config4)) (ledger ran.0) ran.1
unfolding run apply_message leader_for elect_leader new block_hash block_bytes be_bytes genesis
    bytes_beq lookup insert push_vote sign_bytes sign_vote sign_dummy sign_finalize partial_sign
    combine_dynamic combine_loop first_partials lagrange_coeff lagrange_loop lagrange_step
    digest_message hash_to_g2 derive_randomness g2_to_bytes vrf_message has_signer seed_of
run-ledger_example =
    run-ledger group5 hashing5 (new 1 share1 config4) notarize_then_time_out {q = ran} refl
