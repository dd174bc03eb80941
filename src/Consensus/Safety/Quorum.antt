-- ===== src/Consensus/Safety/Quorum.antt =====
-- The signers behind a notarization and a nullification are different ones, as long as no foreign
-- message carries the replica's own id and no second vote is asked of it.
pub mod Ballots
pub mod Certificates
pub mod Notarizations
use mathlib.Core.Option.{some-injective}
use golden_rs.Common.{
  subst, sym, refl, ℕ, ◌≤◌, ◌≡◌, Bool, true, false, Bytes, List, [], ◌∷◌, ◌++◌, some, arith, length,
  ◌≢◌, insert, bytes_eq, map,
}
use golden_rs.Algebra.{Field, Curve, Hashing}
use golden_rs.Threshold.Types.{KeyShare, PartialSignature, ThresholdSignature}
use golden_rs.Threshold.Signing.{combine_dynamic}
use golden_rs.Consensus.Types.{Message, NetworkConfig, notarized, nullified, block_hash}
use golden_rs.Consensus.Replica.{
  Replica, Run, new, run, Votes, Stepped, incr, apply_message, handle_proposal, try_notarize,
  handle_vote, handle_timeout, try_nullify, handle_nullify_vote, handle_finalize_vote, try_finalize,
  handle_notarization, handle_propose_request, has_signer, seed_of, push_vote, sign_vote,
  sign_dummy, own_block,
}
use golden_rs.Consensus.Safety.Finality.{Distinct, has_signer-append, Distinct-append}
use golden_rs.Consensus.Safety.Effects.{run-cons}
use Ballots.{
  DistinctAll, NoOwn, votes_in, DistinctAll-nil, DistinctAll-push, NoOwn-nil, NoOwn-push,
  has_signer-votes, DistinctAll-votes,
}

module _ {F G1 G2 : Type 0} where
  -- The vote lists of a replica have no signer twice, and its own vote only if the flag says so.
  pub record VotesDistinct (r : Replica F G1 G2) : Type 0 where
    pub nullifies : Distinct r.nullify_votes
    pub own_nullify : r.dummy_sent ≡ false → has_signer r.id r.nullify_votes ≡ false
    pub notarizes : DistinctAll r.notarize_votes
    pub own_notarize : r.voted_in_view ≡ false → NoOwn r.id r.notarize_votes

  -- Votes come from others, and a request to propose before the replica has voted.
  abbrev pub Admissible : Replica F G1 G2 → Message G2 → Type 0
  Admissible r (Message.vote view bh signer partial) = signer ≢ r.id
  Admissible r (Message.nullify_vote view signer partial) = signer ≢ r.id
  Admissible r (Message.propose_request view payload) = r.voted_in_view ≡ false
  Admissible r _ = Unit {0}

module _ {F G1 G2 : Type 0} {f : Field F} (g : Curve f G2) (h : Hashing G2) where
  pub apply_message-VotesDistinct :
      (r : Replica F G1 G2) (m : Message G2) {s : Stepped F G1 G2}
      → VotesDistinct r
      → Admissible r m
      → apply_message g h r m ≡ some s
      → VotesDistinct s.0
  unfolding apply_message
  apply_message-VotesDistinct r (Message.proposal block) v a e =
      let bh = block_hash h block in
      let sig =
        sign_vote g h (record r { known_blocks = insert bh block r.known_blocks }) block.view bh in
      ground (
        arith,
        DistinctAll-nil G2,
        NoOwn-nil G2 r.id,
        DistinctAll-push bh r.id sig r.notarize_votes,
        has_signer-votes r.id r.notarize_votes bh,
      )
  apply_message-VotesDistinct r (Message.vote view bh signer partial) v a e = ground (
    arith,
    DistinctAll-nil G2,
    NoOwn-nil G2 r.id,
    DistinctAll-push bh signer partial r.notarize_votes,
    NoOwn-push r.id bh signer partial r.notarize_votes,
  )
  apply_message-VotesDistinct r (Message.timeout view) v a e = ground (
    arith,
    DistinctAll-nil G2,
    NoOwn-nil G2 r.id,
    Distinct-append r.id (sign_dummy g h r view) r.nullify_votes,
  )
  apply_message-VotesDistinct r (Message.nullify_vote view signer partial) v a e = ground (
    arith,
    DistinctAll-nil G2,
    NoOwn-nil G2 r.id,
    Distinct-append signer partial r.nullify_votes,
    has_signer-append r.id signer partial r.nullify_votes,
  )
  apply_message-VotesDistinct r (Message.finalize_vote view signer partial) v a e = ground arith
  apply_message-VotesDistinct r (Message.notarization view block certificate) v a e =
      ground (arith, DistinctAll-nil G2, NoOwn-nil G2 r.id)
  apply_message-VotesDistinct r (Message.propose_request view payload) v a e =
      let bh = block_hash h (own_block r view payload) in
      let sig = sign_vote g h r view bh in
      ground (
        arith,
        DistinctAll-push bh r.id sig r.notarize_votes,
        has_signer-votes r.id r.notarize_votes bh,
      )

  -- A run in which every message is admissible where it arrives.
  abbrev pub AdmissibleRun : Replica F G1 G2 → List (Message G2) → Type 0
  AdmissibleRun r [] = Unit {0}
  AdmissibleRun r (m ∷ ms) =
      Admissible r m
      × ((s : Stepped F G1 G2) → apply_message g h r m ≡ some s → AdmissibleRun s.0 ms)

  run-VotesDistinct :
      (r : Replica F G1 G2) (ms : List (Message G2)) {q : Run F G1 G2}
      → VotesDistinct r
      → AdmissibleRun r ms
      → run g h r ms ≡ some q
      → VotesDistinct q.0
  unfolding run
  run-VotesDistinct r [] v a e =
      subst (λ (x : Run F G1 G2). VotesDistinct x.0) (some-injective _ _ e) v
  run-VotesDistinct r (m ∷ ms) v a e =
      let (s, rest, first, later, e1) = run-cons g h r m ms e in
      subst (λ (x : Run F G1 G2). VotesDistinct x.0) (sym e1)
        (run-VotesDistinct s.0 ms {q = rest} (apply_message-VotesDistinct r m v a.0 first)
          (a.1 s first) later)

  pub new-VotesDistinct :
      (id : ℕ) (share : KeyShare F G1) (config : NetworkConfig G1)
      → VotesDistinct {G2 = G2} (new id share config)
  unfolding new has_signer
  new-VotesDistinct id share config = record {
    nullifies = tt;
    own_nullify = λ _. refl;
    notarizes = DistinctAll-nil G2;
    own_notarize = λ _. NoOwn-nil G2 id;
  }

  -- After a run of a new replica over admissible messages, no signer occurs twice among its
  -- nullification votes nor among the votes for any one block.
  pub run-new-VotesDistinct :
      (id : ℕ) (share : KeyShare F G1) (config : NetworkConfig G1) (ms : List (Message G2))
      {q : Run F G1 G2}
      → AdmissibleRun (new id share config) ms
      → run g h (new id share config) ms ≡ some q
      → Distinct q.0.nullify_votes × ((bh : Bytes) → Distinct (votes_in q.0.notarize_votes bh))
  run-new-VotesDistinct id share config ms {q} a e =
      let v = run-VotesDistinct _ ms {q = q} (new-VotesDistinct id share config) a e in
      (v.nullifies, λ bh. DistinctAll-votes q.0.notarize_votes bh v.notarizes)
