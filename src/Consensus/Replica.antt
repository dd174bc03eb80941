-- ===== src/Consensus/Replica.antt =====
-- The replica, a state machine with `apply_message` as its only entry point:
-- golden-dkg/src/consensus/replica.rs. The children hold the state, the threshold checks and the
-- handlers.
mod State
mod Thresholds
mod Handlers
mod Vetkd
unfoldable pub use Vetkd.{vetkd_encrypted_key_share}
pub use State.{Replica, Votes, Run, Stepped, Step}
unfoldable pub use State.{new, advance_view, push_vote, incr, stay, leader_for}
unfoldable pub use State.{sign_bytes, sign_vote, sign_dummy, sign_finalize}
unfoldable pub use Thresholds.{
  announce_finalize, seed_of, notarize, vote_count, nullify, try_notarize, try_nullify,
  try_finalize,
}
unfoldable pub use Handlers.{
  handle_propose_request, handle_proposal, handle_timeout, handle_vote, handle_nullify_vote,
  handle_finalize_vote, handle_notarization, has_signer, after, reject, own_block, propose,
  vote_for, check_proposal, notarize_known, accept_notarization, apply_message, run,
}
