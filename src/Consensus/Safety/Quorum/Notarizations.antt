-- ===== src/Consensus/Safety/Quorum/Notarizations.antt =====
-- What a notarization by votes rests on, and the seed that it leaves.
use mathlib.Core.Option.{some-injective}
use golden_rs.Common.{
  ap, subst, Option, ℕ, ◌≤◌, ◌≡◌, Bool, true, false, Bytes, [], ◌∷◌, ◌++◌, some, none, arith,
  length, map, bytes_eq,
}
use golden_rs.Algebra.{Field, Curve, Hashing}
use golden_rs.Threshold.Types.{ThresholdSignature}
use golden_rs.Threshold.Signing.{combine_dynamic}
use golden_rs.Consensus.Types.{Message, notarized, block_hash}
use golden_rs.Consensus.Replica.{Replica, Votes, Stepped, apply_message, seed_of, sign_vote}
use golden_rs.Consensus.Safety.Finality.{Distinct, Distinct-append}
use golden_rs.Consensus.Safety.Quorum.Ballots.{
  votes_in, DistinctAll-votes, has_signer-votes, lookup-push,
}
use golden_rs.Consensus.Safety.Quorum.{VotesDistinct}
use golden_rs.Consensus.Safety.Quorum.Certificates.{Certified, certify}

-- A relayed notarization brings no votes.
abbrev pub is_relay : {G2 : Type 0} → Message G2 → Bool
is_relay (Message.notarization view block certificate) = true
is_relay _ = false

-- The hash of the block that a vote or a proposal is about.
abbrev pub voted_block : {G2 : Type 0} → Hashing G2 → Message G2 → Option Bytes
voted_block h (Message.proposal block) = some (block_hash h block)
voted_block h (Message.vote view bh signer partial) = some bh
voted_block h _ = none

module _ {F G1 G2 : Type 0} {f : Field F} (g : Curve f G2) (h : Hashing G2) where
  -- The votes for a block, with the one that the message brings or causes.
  abbrev pub notarize_ballots : Replica F G1 G2 → Message G2 → Bytes → Votes G2
  notarize_ballots r (Message.proposal block) b =
      votes_in r.notarize_votes b ++ ((r.id, sign_vote g h r block.view b) ∷ [])
  notarize_ballots r (Message.vote view bh signer partial) b =
      votes_in r.notarize_votes b ++ ((signer, partial) ∷ [])
  notarize_ballots r _ b = votes_in r.notarize_votes b

  -- The same, for the block that the message is about.
  abbrev message_ballots : Replica F G1 G2 → Message G2 → Votes G2
  message_ballots r (Message.proposal block) =
      notarize_ballots r (Message.proposal block) (block_hash h block)
  message_ballots r (Message.vote view bh signer partial) =
      notarize_ballots r (Message.vote view bh signer partial) bh
  message_ballots r _ = []

  ballots_of_block :
      (r : Replica F G1 G2) (m : Message G2) (b : Bytes)
      → voted_block h m ≡ some b
      → message_ballots r m ≡ notarize_ballots r m b
  ballots_of_block r (Message.proposal block) b e =
      ap (notarize_ballots r (Message.proposal block)) (some-injective _ _ e)
  ballots_of_block r (Message.vote view bh signer partial) b e =
      ap (notarize_ballots r (Message.vote view bh signer partial)) (some-injective _ _ e)
  ballots_of_block r (Message.timeout view) b e = cc
  ballots_of_block r (Message.nullify_vote view signer partial) b e = cc
  ballots_of_block r (Message.finalize_vote view signer partial) b e = cc
  ballots_of_block r (Message.notarization view block certificate) b e = cc
  ballots_of_block r (Message.propose_request view payload) b e = cc

  message_ballots-Distinct :
      (r : Replica F G1 G2) (m : Message G2) {s : Stepped F G1 G2} {v : ℕ} {b : Bytes}
      → VotesDistinct r
      → apply_message g h r m ≡ some s
      → s.1 ≡ notarized v b
      → Distinct (message_ballots r m)
  unfolding apply_message
  message_ballots-Distinct r (Message.proposal block) d e p =
      let bh = block_hash h block in
      ground (
        arith,
        d.own_notarize,
        has_signer-votes r.id r.notarize_votes bh,
        DistinctAll-votes r.notarize_votes bh d.notarizes,
        Distinct-append r.id (sign_vote g h r block.view bh) (votes_in r.notarize_votes bh),
      )
  message_ballots-Distinct r (Message.vote view bh signer partial) d e p = ground (
    arith,
    DistinctAll-votes r.notarize_votes bh d.notarizes,
    Distinct-append signer partial (votes_in r.notarize_votes bh),
  )
  message_ballots-Distinct r m d e p = tt

  notarized_facts :
      (r : Replica F G1 G2) (m : Message G2) {s : Stepped F G1 G2} {v : ℕ} {b : Bytes}
      → is_relay m ≡ false
      → apply_message g h r m ≡ some s
      → s.1 ≡ notarized v b
      → let votes = message_ballots r m in
        (r.config.t ≤ length votes)
        × ¬ (combine_dynamic g (map (λ v. v.1) votes) r.config.t ≡ none)
        × ((c : ThresholdSignature G2)
            → combine_dynamic g (map (λ v. v.1) votes) r.config.t ≡ some c
            → s.0.chain_state.vrf_seed ≡ seed_of h c)
  unfolding apply_message sign_vote
  notarized_facts r (Message.proposal block) n e p =
      let bh = block_hash h block in
      ground (arith, lookup-push bh r.id (sign_vote g h r block.view bh) r.notarize_votes)
  notarized_facts r (Message.vote view bh signer partial) n e p =
      ground (arith, lookup-push bh signer partial r.notarize_votes)
  notarized_facts r (Message.timeout view) n e p = ground arith
  notarized_facts r (Message.nullify_vote view signer partial) n e p = ground arith
  notarized_facts r (Message.finalize_vote view signer partial) n e p = ground arith
  notarized_facts r (Message.notarization view block certificate) n e p = ground arith
  notarized_facts r (Message.propose_request view payload) n e p = ground arith

  notarized_block :
      (r : Replica F G1 G2) (m : Message G2) {s : Stepped F G1 G2} {v : ℕ} {b : Bytes}
      → is_relay m ≡ false
      → apply_message g h r m ≡ some s
      → s.1 ≡ notarized v b
      → (v ≡ r.current_view) × (voted_block h m ≡ some b)
  unfolding apply_message
  notarized_block r (Message.proposal block) n e p = ground arith
  notarized_block r (Message.vote view bh signer partial) n e p = ground arith
  notarized_block r (Message.timeout view) n e p = ground arith
  notarized_block r (Message.nullify_vote view signer partial) n e p = ground arith
  notarized_block r (Message.finalize_vote view signer partial) n e p = ground arith
  notarized_block r (Message.notarization view block certificate) n e p = ground arith
  notarized_block r (Message.propose_request view payload) n e p = ground arith

  -- Take a replica in whose vote lists no signer occurs twice for one thing voted for, and which has
  -- no vote of its own among the nullification votes unless `dummy_sent` is set, nor among the votes
  -- for blocks unless `voted_in_view` is set. If a message other than a relayed
  -- notarization makes it report that a block is notarized in a view, then that is its current view,
  -- the message is a vote for that block or its proposal, the replica has votes for that block of at
  -- least `t` different signers (the vote that the message brings or causes included), and their
  -- combination gives the seed of the next election.
  pub notarized_quorum :
      (r : Replica F G1 G2) (m : Message G2) {s : Stepped F G1 G2} {v : ℕ} {b : Bytes}
      → VotesDistinct r
      → is_relay m ≡ false
      → apply_message g h r m ≡ some s
      → s.1 ≡ notarized v b
      → (v ≡ r.current_view)
        × (voted_block h m ≡ some b)
        × Certified g h r.config.t s.0.chain_state.vrf_seed (notarize_ballots r m b)
  notarized_quorum r m {s} {b = b} d n e p =
      let facts = notarized_facts r m {s = s} n e p in
      let (current, voted) = notarized_block r m {s = s} n e p in
      (
        current,
        voted,
        subst (Certified g h r.config.t s.0.chain_state.vrf_seed) (ballots_of_block r m b voted) (
            certify g h r.config.t s.0.chain_state.vrf_seed (message_ballots r m)
              (message_ballots-Distinct r m d e p) facts.0 facts.1 facts.2),
      )
