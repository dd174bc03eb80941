-- ===== src/Consensus/Safety/Quorum/Certificates.antt =====
-- What a nullification rests on, and the seed that it leaves.

use golden_rs.Common.{
  ℕ, ◌≤◌, ◌≡◌, Bytes, [], ◌∷◌, ◌++◌, some, none, inl, inr, arith, length, map, Option-cases,
  bytes_eq,
}
use golden_rs.Algebra.{Field, Curve, Hashing}
use golden_rs.Threshold.Types.{ThresholdSignature}
use golden_rs.Threshold.Signing.{combine_dynamic}
use golden_rs.Consensus.Types.{Message, nullified}
use golden_rs.Consensus.Replica.{Replica, Votes, Stepped, apply_message, seed_of, sign_dummy}
use golden_rs.Consensus.Safety.Finality.{Distinct, Distinct-append}
use golden_rs.Consensus.Safety.Quorum.{VotesDistinct}

module _ {F G2 : Type 0} {f : Field F} (g : Curve f G2) (h : Hashing G2) where
  -- At least `t` votes of different signers, combined into the seed of the next election.
  pub record Certified (t : ℕ) (seed : Bytes) (votes : Votes G2) : Type 0 where
    pub distinct : Distinct votes
    pub enough : t ≤ length votes
    pub combined : ThresholdSignature G2
    pub combines : combine_dynamic g (map (λ v. v.1) votes) t ≡ some combined
    pub seeds : seed ≡ seed_of h combined

  pub certify :
      (t : ℕ) (seed : Bytes) (votes : Votes G2)
      → Distinct votes
      → t ≤ length votes
      → ¬ (combine_dynamic g (map (λ v. v.1) votes) t ≡ none)
      → ((c : ThresholdSignature G2)
          → combine_dynamic g (map (λ v. v.1) votes) t ≡ some c
          → seed ≡ seed_of h c)
      → Certified t seed votes
  certify t seed votes d enough returns seeds =
      elim (Option-cases (combine_dynamic g (map (λ v. v.1) votes) t)) [
        | inl stops ↦ absurd (returns stops)
        | inr (c, e) ↦ record {
          distinct = d;
          enough = enough;
          combined = c;
          combines = e;
          seeds = seeds c e;
        }
      ]

-- The votes that a certificate is made of, once the message is added.
abbrev pub nullify_ballots :
    {F G1 G2 : Type 0} {f : Field F}
    → Curve f G2
    → Hashing G2
    → Replica F G1 G2
    → Message G2
    → Votes G2
nullify_ballots g h r (Message.timeout view) =
    r.nullify_votes ++ ((r.id, sign_dummy g h r view) ∷ [])
nullify_ballots g h r (Message.nullify_vote view signer partial) =
    r.nullify_votes ++ ((signer, partial) ∷ [])
nullify_ballots g h r _ = r.nullify_votes

module _ {F G1 G2 : Type 0} {f : Field F} (g : Curve f G2) (h : Hashing G2) where
  nullify_ballots-Distinct :
      (r : Replica F G1 G2) (m : Message G2) {s : Stepped F G1 G2} {v : ℕ}
      → VotesDistinct r
      → apply_message g h r m ≡ some s
      → s.1 ≡ nullified v
      → Distinct (nullify_ballots g h r m)
  unfolding apply_message
  nullify_ballots-Distinct r (Message.timeout view) d e p =
      ground (arith, Distinct-append r.id (sign_dummy g h r view) r.nullify_votes)
  nullify_ballots-Distinct r (Message.nullify_vote view signer partial) d e p =
      ground (arith, Distinct-append signer partial r.nullify_votes)
  nullify_ballots-Distinct r m d e p = d.nullifies

  nullified_facts :
      (r : Replica F G1 G2) (m : Message G2) {s : Stepped F G1 G2} {v : ℕ}
      → apply_message g h r m ≡ some s
      → s.1 ≡ nullified v
      → let votes = nullify_ballots g h r m in
        (r.config.t ≤ length votes)
        × ¬ (combine_dynamic g (map (λ v. v.1) votes) r.config.t ≡ none)
        × ((c : ThresholdSignature G2)
            → combine_dynamic g (map (λ v. v.1) votes) r.config.t ≡ some c
            → s.0.chain_state.vrf_seed ≡ seed_of h c)
  unfolding apply_message
  nullified_facts r (Message.proposal block) e p = ground arith
  nullified_facts r (Message.vote view bh signer partial) e p = ground arith
  nullified_facts r (Message.timeout view) e p = ground arith
  nullified_facts r (Message.nullify_vote view signer partial) e p = ground arith
  nullified_facts r (Message.finalize_vote view signer partial) e p = ground arith
  nullified_facts r (Message.notarization view block certificate) e p = ground arith
  nullified_facts r (Message.propose_request view payload) e p = ground arith

  nullified_view :
      (r : Replica F G1 G2) (m : Message G2) {s : Stepped F G1 G2} {v : ℕ}
      → apply_message g h r m ≡ some s
      → s.1 ≡ nullified v
      → v ≡ r.current_view
  unfolding apply_message
  nullified_view r (Message.proposal block) e p = ground arith
  nullified_view r (Message.vote view bh signer partial) e p = ground arith
  nullified_view r (Message.timeout view) e p = ground arith
  nullified_view r (Message.nullify_vote view signer partial) e p = ground arith
  nullified_view r (Message.finalize_vote view signer partial) e p = ground arith
  nullified_view r (Message.notarization view block certificate) e p = ground arith
  nullified_view r (Message.propose_request view payload) e p = ground arith

  -- Take a replica in whose vote lists no signer occurs twice for one thing voted for, and which has
  -- no vote of its own among the nullification votes unless `dummy_sent` is set, nor among the votes
  -- for blocks unless `voted_in_view` is set. If a message makes it report that a view
  -- is nullified, then that is its current view, it has nullification votes of at least `t`
  -- different signers (the vote that the message brings or causes included), and their combination
  -- gives the seed of the next election.
  pub nullified_quorum :
      (r : Replica F G1 G2) (m : Message G2) {s : Stepped F G1 G2} {v : ℕ}
      → VotesDistinct r
      → apply_message g h r m ≡ some s
      → s.1 ≡ nullified v
      → (v ≡ r.current_view)
        × Certified g h r.config.t s.0.chain_state.vrf_seed (nullify_ballots g h r m)
  nullified_quorum r m {s} d e p =
      let facts = nullified_facts r m {s = s} e p in
      (
        nullified_view r m {s = s} e p,
        certify g h r.config.t s.0.chain_state.vrf_seed (nullify_ballots g h r m)
            (nullify_ballots-Distinct r m d e p) facts.0 facts.1 facts.2,
      )
