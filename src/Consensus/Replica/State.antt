-- ===== src/Consensus/Replica/State.antt =====
-- The state of a replica, `advance_view`, and the signatures that it makes.
use golden_rs.Common.{
  ℕ, ◌+◌, ◌%◌, Bool, false, Bytes, List, [], ◌∷◌, ◌++◌, Option, none, some, u64_mod, u64_be_bytes,
  unwrap_or, lookup, insert, bytes_eq,
}
use golden_rs.Algebra.{Field, Curve, Hashing}
use golden_rs.Threshold.Types.{KeyShare, PartialSignature}
use golden_rs.Threshold.Signing.{partial_sign}
use golden_rs.Threshold.Beacon.{digest_message, hash_to_g2}
use golden_rs.Consensus.Types.{
  Block, StateTransition, pending, Outgoing, NetworkConfig, ChainState, genesis,
}
use golden_rs.Consensus.Vrf.{vrf_message, elect_leader}

-- `Vec<(NodeId, PartialSignature)>`.
abbrev pub Votes : Type 0 → Type 0
Votes G2 = List (ℕ × PartialSignature G2)

pub record Replica (F G1 G2 : Type 0) : Type 0 where
  pub id : ℕ
  pub share : KeyShare F G1
  pub config : NetworkConfig G1
  pub current_view : ℕ
  pub voted_in_view : Bool
  pub timer_fired : Bool
  pub finalize_sent : Bool
  pub dummy_sent : Bool
  pub voted_block : Option Block
  pub known_blocks : List (Bytes × Block)
  pub notarize_votes : List (Bytes × Votes G2)
  pub nullify_votes : Votes G2
  pub finalize_votes : Votes G2
  pub notarized_in_view : Option Bytes
  pub chain_state : ChainState

-- A replica after a run, with the transitions and the broadcasts.
abbrev pub Run : Type 0 → Type 0 → Type 0 → Type 0
Run F G1 G2 = Replica F G1 G2 × List StateTransition × List (Outgoing G2)

-- A replica after a message, with the transition and the broadcasts.
abbrev pub Stepped : Type 0 → Type 0 → Type 0 → Type 0
Stepped F G1 G2 = Replica F G1 G2 × StateTransition × List (Outgoing G2)

-- What a handler returns: `&mut self` afterwards, and its result; `none` is a panic.
abbrev pub Step : Type 0 → Type 0 → Type 0 → Type 0
Step F G1 G2 = Option (Stepped F G1 G2)

-- `+= 1` on a `u64`, in the build that wraps.
abbrev pub incr : ℕ → ℕ
incr n = (n + 1) % u64_mod

module _ {F G1 G2 : Type 0} where
  -- `(StateTransition::Pending, vec![])`.
  abbrev pub stay : Replica F G1 G2 → Step F G1 G2
  stay r = some (r, pending, [])

  unfoldable pub new : ℕ → KeyShare F G1 → NetworkConfig G1 → Replica F G1 G2
  unfolding genesis
  new id share config = record {
    id = id;
    share = share;
    config = config;
    current_view = 1;
    voted_in_view = false;
    timer_fired = false;
    finalize_sent = false;
    dummy_sent = false;
    voted_block = none;
    known_blocks = [];
    notarize_votes = [];
    nullify_votes = [];
    finalize_votes = [];
    notarized_in_view = none;
    chain_state = genesis;
  }

  unfoldable pub advance_view : Replica F G1 G2 → Replica F G1 G2
  advance_view r = record r {
    current_view = incr r.current_view;
    voted_in_view = false;
    timer_fired = false;
    finalize_sent = false;
    dummy_sent = false;
    voted_block = none;
    known_blocks = [];
    notarize_votes = [];
    nullify_votes = [];
    finalize_votes = [];
    notarized_in_view = none;
  }

-- `notarize_votes.entry(bh).or_default().push((signer, partial))`.
unfoldable pub push_vote :
    {G2 : Type 0}
    → Bytes
    → ℕ
    → PartialSignature G2
    → List (Bytes × Votes G2)
    → List (Bytes × Votes G2)
push_vote bh signer partial votes =
    insert bh (unwrap_or (lookup bh votes) [] ++ ((signer, partial) ∷ [])) votes

-- b"finalize-"
abbrev finalize_tag : Bytes
finalize_tag = b'f' ∷ b'i' ∷ b'n' ∷ b'a' ∷ b'l' ∷ b'i' ∷ b'z' ∷ b'e' ∷ b'-' ∷ []

module _ {F G1 G2 : Type 0} {f : Field F} (g : Curve f G2) (h : Hashing G2) where
  -- The message hash that the three signatures share.
  unfoldable pub sign_bytes : Replica F G1 G2 → ℕ → Bytes → PartialSignature G2
  sign_bytes r view msg = partial_sign g (hash_to_g2 h (digest_message h view (some msg))) r.share

  unfoldable pub sign_vote : Replica F G1 G2 → ℕ → Bytes → PartialSignature G2
  unfolding sign_bytes
  sign_vote r view bh = sign_bytes r view (u64_be_bytes view ++ bh)

  unfoldable pub sign_dummy : Replica F G1 G2 → ℕ → PartialSignature G2
  unfolding sign_bytes
  sign_dummy r view = sign_bytes r view (vrf_message view)

  unfoldable pub sign_finalize : Replica F G1 G2 → ℕ → PartialSignature G2
  unfolding sign_bytes
  sign_finalize r view = sign_bytes r view (finalize_tag ++ u64_be_bytes view)

-- The leader is elected from the seed of the chain state; the view is not used.
unfoldable pub leader_for : {F G1 G2 : Type 0} → Hashing G2 → Replica F G1 G2 → ℕ → Option ℕ
leader_for h r _ = elect_leader h r.chain_state.vrf_seed r.config.n
