-- ===== src/Consensus/Replica/Handlers.antt =====
-- The handlers of the seven messages, `apply_message`, and the run over a sequence of messages.
use golden_rs.Common.{
  ℕ, ◌-◌, Bool, true, not, ◌&&◌, ◌||◌, Bytes, List, [], ◌∷◌, ◌++◌, Option, none, some, any,
  if◌then◌else◌, ◌>>=◌, ◌==◌, nat_eq, bytes_eq, is_some, unwrap_or, lookup, insert,
}
use golden_rs.Algebra.{Field, Curve, Hashing}
use golden_rs.Threshold.Types.{PartialSignature}
use golden_rs.Consensus.Types.{
  Block, Certificate, Message, notarized, rejected, RejectReason, pending, wrong_leader,
  bad_parent_hash, wrong_view, already_voted, StateTransition, Outgoing, block_hash,
}
use golden_rs.Consensus.Replica.State.{
  Replica, Votes, Step, stay, advance_view, push_vote, sign_vote, sign_dummy, leader_for,
}
use golden_rs.Consensus.Replica.Thresholds.{
  announce_finalize, try_notarize, try_nullify, try_finalize,
}

-- `votes.iter().any(|(id, _)| *id == signer)`.
unfoldable pub has_signer : {G2 : Type 0} → ℕ → Votes G2 → Bool
has_signer signer votes = any (λ v. v.0 == signer) votes

module _ {F G1 G2 : Type 0} where
  -- `outgoing.extend(extra)` before the result of a threshold check.
  abbrev pub after : List (Outgoing G2) → Step F G1 G2 → Step F G1 G2
  after outgoing none = none
  after outgoing (some (r, transition, extra)) = some (r, transition, outgoing ++ extra)

  abbrev pub reject : Replica F G1 G2 → ℕ → RejectReason → Step F G1 G2
  reject r view reason = some (r, rejected view reason, [])

-- The block that a leader builds from its own chain state.
abbrev pub own_block : {F G1 G2 : Type 0} → Replica F G1 G2 → ℕ → Bytes → Block
own_block r view payload = record {
  view = view;
  parent_hash = r.chain_state.tip_hash;
  payload = payload;
  proposer = r.id;
}

module _ {F G1 G2 : Type 0} {f : Field F} (g : Curve f G2) (h : Hashing G2) where
  unfoldable pub propose : Replica F G1 G2 → ℕ → Bytes → Step F G1 G2
  propose r view payload =
      let block = own_block r view payload in
      let bh = block_hash h block in
      let sig = sign_vote g h r view bh in
      some (
        record r {
          voted_in_view = true;
          voted_block = some block;
          known_blocks = insert bh block r.known_blocks;
          notarize_votes = push_vote bh r.id sig r.notarize_votes;
        },
        pending,
        Outgoing.proposal block ∷ Outgoing.vote view bh sig ∷ [],
      )

  unfoldable pub handle_propose_request : Replica F G1 G2 → ℕ → Bytes → Step F G1 G2
  unfolding propose
  handle_propose_request r view payload = if not (view == r.current_view) then stay r else (do
    leader ← leader_for h r view
    if not (leader == r.id) then stay r else propose r view payload)

  -- All checks pass: vote, and see whether that vote reaches the threshold.
  unfoldable pub vote_for : Replica F G1 G2 → Block → Step F G1 G2
  vote_for r block =
      let bh = block_hash h block in
      let sig = sign_vote g h r block.view bh in
      let r1 = record r {
        voted_in_view = true;
        voted_block = some block;
        notarize_votes = push_vote bh r.id sig r.notarize_votes;
      } in
      after (Outgoing.vote block.view bh sig ∷ []) (try_notarize g h r1 block.view bh block)

  -- The checks of the leader, of an earlier vote and of the parent.
  unfoldable pub check_proposal : Replica F G1 G2 → Block → ℕ → Step F G1 G2
  unfolding vote_for
  check_proposal r block leader =
      if not (block.proposer == leader)
      then reject r block.view wrong_leader
      else if r.voted_in_view
      then reject r block.view already_voted
      else if not (block.parent_hash == r.chain_state.tip_hash)
      then reject r block.view bad_parent_hash
      else vote_for r block

  -- The block is known before the checks, so it stays known when they fail.
  unfoldable pub handle_proposal : Replica F G1 G2 → Block → Step F G1 G2
  unfolding check_proposal
  handle_proposal r block =
      let r1 = record r { known_blocks = insert (block_hash h block) block r.known_blocks } in
      if not (block.view == r.current_view)
      then reject r block.view wrong_view
      else leader_for h r1 block.view >>= check_proposal r1 block

  unfoldable pub handle_timeout : Replica F G1 G2 → ℕ → Step F G1 G2
  handle_timeout r view =
      let sig = sign_dummy g h r view in
      let r1 = record r {
        timer_fired = true;
        dummy_sent = true;
        nullify_votes = r.nullify_votes ++ ((r.id, sig) ∷ []);
      } in
      if not (view == r.current_view)
      then stay r
      else if r.finalize_sent || r.dummy_sent
      then stay r
      else after (Outgoing.nullify_vote view sig ∷ []) (try_nullify g h r1 view)

  -- The check of the threshold, for a block that is known.
  abbrev pub notarize_known : Replica F G1 G2 → ℕ → Bytes → Option Block → Step F G1 G2
  notarize_known r view bh none = stay r
  notarize_known r view bh (some block) = try_notarize g h r view bh block

  unfoldable pub handle_vote : Replica F G1 G2 → ℕ → Bytes → ℕ → PartialSignature G2 → Step F G1 G2
  unfolding has_signer
  handle_vote r view bh signer partial =
      let r1 = record r { notarize_votes = push_vote bh signer partial r.notarize_votes } in
      if not (view == r.current_view)
      then stay r
      else if is_some r.notarized_in_view
      then stay r
      else if has_signer signer (unwrap_or (lookup bh r.notarize_votes) [])
      then stay r
      else notarize_known r1 view bh (lookup bh r1.known_blocks)

  unfoldable pub handle_nullify_vote : Replica F G1 G2 → ℕ → ℕ → PartialSignature G2 → Step F G1 G2
  unfolding has_signer
  handle_nullify_vote r view signer partial =
      if not (view == r.current_view)
      then stay r
      else if has_signer signer r.nullify_votes
      then stay r
      else try_nullify g h
          (record r { nullify_votes = r.nullify_votes ++ ((signer, partial) ∷ []) }) view

  -- The current view, or the one just left.
  unfoldable pub handle_finalize_vote : Replica F G1 G2 → ℕ → ℕ → PartialSignature G2 → Step F G1 G2
  unfolding has_signer
  handle_finalize_vote r view signer partial =
      if not (view == r.current_view) && not (view == r.current_view - 1)
      then stay r
      else if has_signer signer r.finalize_votes
      then stay r
      else try_finalize (record r { finalize_votes = r.finalize_votes ++ ((signer, partial) ∷ []) })
          view

  -- The relayed certificate is not verified.
  unfoldable pub accept_notarization : Replica F G1 G2 → ℕ → Block → Certificate G2 → Step F G1 G2
  unfolding announce_finalize advance_view
  accept_notarization r view block certificate =
      let bh = block_hash h block in
      let marked = record r {
        notarized_in_view = some bh;
        chain_state = record (r.chain_state) { tip_hash = bh };
      } in
      let (r1, outgoing) = announce_finalize g h marked view in
      some (
        advance_view r1,
        notarized view bh,
        outgoing ++ (Outgoing.relay_notarization view block certificate ∷ []),
      )

  unfoldable pub handle_notarization : Replica F G1 G2 → ℕ → Block → Certificate G2 → Step F G1 G2
  unfolding accept_notarization
  handle_notarization r view block certificate =
      if not (view == r.current_view)
      then stay r
      else if is_some r.notarized_in_view
      then stay r
      else accept_notarization r view block certificate

  unfoldable pub apply_message : Replica F G1 G2 → Message G2 → Step F G1 G2
  unfolding handle_proposal handle_vote handle_timeout handle_nullify_vote handle_finalize_vote
      handle_notarization handle_propose_request try_notarize try_nullify try_finalize
  apply_message r (Message.proposal block) = handle_proposal r block
  apply_message r (Message.vote view bh signer partial) = handle_vote r view bh signer partial
  apply_message r (Message.timeout view) = handle_timeout r view
  apply_message r (Message.nullify_vote view signer partial) =
      handle_nullify_vote r view signer partial
  apply_message r (Message.finalize_vote view signer partial) =
      handle_finalize_vote r view signer partial
  apply_message r (Message.notarization view block certificate) =
      handle_notarization r view block certificate
  apply_message r (Message.propose_request view payload) = handle_propose_request r view payload

  -- A caller that delivers messages one after the other, with the transitions and the broadcasts
  -- collected in order.
  unfoldable pub run :
      Replica F G1 G2
      → List (Message G2)
      → Option (Replica F G1 G2 × List StateTransition × List (Outgoing G2))
  run r [] = some (r, [], [])
  run r (m ∷ ms) = do
    s ← apply_message r m
    rest ← run s.0 ms
    some (rest.0, s.1 ∷ rest.1, s.2 ++ rest.2)
