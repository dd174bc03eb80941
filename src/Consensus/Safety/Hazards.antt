-- ===== src/Consensus/Safety/Hazards.antt =====
-- Behaviour of the handlers that the comments of golden-dkg/src/consensus/replica.rs exclude.
use golden_rs.Common.{
  ℕ, ◌-◌, ◌≤◌, ◌≡◌, false, Bytes, List, [], ◌∷◌, none, some, arith, length, length-append, ◌≢◌,
  Option-cases, inl, inr, unwrap_or, nat_eq,
}
use golden_rs.Algebra.{Field, Curve, Hashing}
use golden_rs.Threshold.Types.{PartialSignature}
use golden_rs.Consensus.Types.{
  Message, finalized, pending, zero_hash, Block, Certificate, block_hash,
}
use golden_rs.Consensus.Replica.{
  Replica, Run, Stepped, incr, run, apply_message, has_signer, leader_for,
}
use golden_rs.Consensus.Safety.OneVote.{count_votes}

module _ {F G1 G2 : Type 0} where
  abbrev pub relayed : Replica F G1 G2 → Block → Certificate G2 → Message G2
  relayed r block certificate = Message.notarization r.current_view block certificate

  abbrev pub twice : Replica F G1 G2 → Bytes → Bytes → List (Message G2)
  twice r payload other =
      Message.propose_request r.current_view payload
      ∷ Message.propose_request r.current_view other
      ∷ []

module _ {F G1 G2 : Type 0} {f : Field F} (g : Curve f G2) (h : Hashing G2) where
  -- Two requests to propose in one view, given to its leader, make it vote twice in that view:
  -- the handler of the request does not read `voted_in_view`.
  pub propose_twice :
      (r : Replica F G1 G2) (payload other : Bytes)
      → leader_for h r r.current_view ≡ some r.id
      → (q : Run F G1 G2) × (run g h r (twice r payload other) ≡ some q)
        × (count_votes r.current_view q.2 ≡ 2)
  unfolding run apply_message leader_for
  propose_twice r payload other e = elim (Option-cases (run g h r (twice r payload other))) [
    | inl stops ↦ absurd (ground (arith, e, stops))
    | inr (q, returns) ↦ (q, returns, ground (arith, e, returns))
  ]

  -- Once the finalize votes have reached the threshold, a vote of another signer for the current
  -- view is again answered by a finalization and counted as one: no block is remembered as
  -- finalized.
  pub finalize_again :
      (r : Replica F G1 G2) (signer : ℕ) (partial : PartialSignature G2)
      → r.config.t ≤ length r.finalize_votes
      → has_signer signer r.finalize_votes ≡ false
      → (s : Stepped F G1 G2) × (apply_message g h r
            (Message.finalize_vote r.current_view signer partial)
          ≡ some s)
        × (s.1 ≡ finalized r.current_view (unwrap_or r.notarized_in_view zero_hash))
        × (s.0.chain_state.finalized_count ≡ incr r.chain_state.finalized_count)
  unfolding apply_message
  finalize_again r signer partial enough fresh =
      elim (Option-cases
        (apply_message g h r (Message.finalize_vote r.current_view signer partial))) [
          | inl stops ↦
              absurd
                (ground (arith, stops, length-append r.finalize_votes ((signer, partial) ∷ [])))
          | inr (s, returns) ↦ (
            s,
            returns,
            ground (arith, returns, length-append r.finalize_votes ((signer, partial) ∷ [])),
            ground (arith, returns, length-append r.finalize_votes ((signer, partial) ∷ [])),
          )
        ]

  -- Finalize votes for the view before and for the current one are counted together: with a
  -- threshold of two and no vote so far, one vote for each by two signers finalizes the current
  -- view.
  pub finalize_mixes_views :
      (r : Replica F G1 G2) (a b : ℕ) (pa pb : PartialSignature G2)
      → r.config.t ≡ 2
      → r.finalize_votes ≡ []
      → a ≢ b
      → (q : Run F G1 G2) × (run g h r (
            Message.finalize_vote (r.current_view - 1) a pa
            ∷ Message.finalize_vote r.current_view b pb
            ∷ [])
          ≡ some q)
        × (q.1 ≡ pending ∷ finalized r.current_view (unwrap_or r.notarized_in_view zero_hash) ∷ [])
  unfolding run apply_message has_signer
  finalize_mixes_views r a b pa pb two fresh ne =
      elim (Option-cases (
        run g h r (
          Message.finalize_vote (r.current_view - 1) a pa
          ∷ Message.finalize_vote r.current_view b pb
          ∷ []))) [
            | inl stops ↦ absurd (ground (arith, stops))
            | inr (q, returns) ↦ (q, returns, ground (arith, returns))
          ]

  -- A relayed notarization for the current view is accepted whatever certificate it carries and
  -- whatever view its block names: two certificates leave the same state, which has the hash of
  -- the block as its tip and is one view further, with the seed of the election unchanged.
  pub notarization_unchecked :
      (r : Replica F G1 G2) (block : Block) (certificate other : Certificate G2)
      → r.notarized_in_view ≡ none
      → (s t : Stepped F G1 G2) × (apply_message g h r (relayed r block certificate) ≡ some s)
        × (apply_message g h r (relayed r block other) ≡ some t)
        × (s.0 ≡ t.0)
        × (s.0.chain_state.tip_hash ≡ block_hash h block)
        × (s.0.chain_state.vrf_seed ≡ r.chain_state.vrf_seed)
        × (s.0.current_view ≡ incr r.current_view)
  unfolding apply_message
  notarization_unchecked r block certificate other e =
      elim (Option-cases (apply_message g h r (relayed r block certificate))) [
        | inl stops ↦ absurd (ground (arith, stops, e))
        | inr (s, returns) ↦ elim (Option-cases (apply_message g h r (relayed r block other))) [
          | inl stops ↦ absurd (ground (arith, stops, e))
          | inr (t, again) ↦ (
            s,
            t,
            returns,
            again,
            ground (arith, e, returns, again),
            ground (arith, e, returns),
            ground (arith, e, returns),
            ground (arith, e, returns),
          )
        ]
      ]
