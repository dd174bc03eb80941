-- ===== src/Consensus/Safety/OneVote.antt =====
-- The `voted_in_view` flag over a whole run (Lemma 3.2 of the Simplex paper), and the request to
-- propose, which does not read it.
use golden_rs.Common.{
  ℕ, ◌+◌, ◌≤◌, ◌<◌, ◌≡◌, ◌⊎◌, true, false, List, [], ◌∷◌, ◌++◌, some, arith, length, u64_mod,
  if◌then◌else◌, ◌==◌, nat_eq,
}
use golden_rs.Algebra.{Field, Curve, Hashing}
use golden_rs.Threshold.Types.{KeyShare}
use golden_rs.Consensus.Types.{Message, Outgoing, NetworkConfig}
use golden_rs.Consensus.Replica.{Replica, Run, Stepped, incr, new, run, apply_message}
use golden_rs.Consensus.Safety.Effects.{AtRest, apply_message-Effect, run-cons, new-AtRest}

module _ {G2 : Type 0} where
  -- 1 for a notarization vote for a block of the view.
  abbrev pub vote_for_view : ℕ → Outgoing G2 → ℕ
  vote_for_view w (Outgoing.vote view _ _) = if w == view then 1 else 0
  vote_for_view w _ = 0

  abbrev pub count_votes : ℕ → List (Outgoing G2) → ℕ
  count_votes w [] = 0
  count_votes w (o ∷ outs) = vote_for_view w o + count_votes w outs

  -- 1 for a request to propose in the view.
  abbrev pub request_for_view : ℕ → Message G2 → ℕ
  request_for_view w (Message.propose_request view _) = if w == view then 1 else 0
  request_for_view w _ = 0

  abbrev pub count_requests : ℕ → List (Message G2) → ℕ
  count_requests w [] = 0
  count_requests w (m ∷ ms) = request_for_view w m + count_requests w ms

  pub count_votes-append :
      (w : ℕ) (xs ys : List (Outgoing G2))
      → count_votes w (xs ++ ys) ≡ count_votes w xs + count_votes w ys
  count_votes-append w [] ys = omega arith
  count_votes-append w (x ∷ xs) ys = omega (arith, count_votes-append w xs ys)

module _ {F G1 G2 : Type 0} where
  -- Which votes a message may cause.
  pub record VoteEffect (r : Replica F G1 G2) (m : Message G2) (s : Stepped F G1 G2) : Type 0 where
    pub keeps :
        r.voted_in_view ≡ true
        → (s.0.current_view ≡ incr r.current_view) ⊎ (s.0.voted_in_view ≡ true)
    pub votes_bound :
        (w : ℕ)
        → (count_votes w s.2 ≡ 0)
          ⊎ ((w ≡ r.current_view)
              × (count_votes w s.2 ≡ 1)
              × ((s.0.current_view ≡ incr r.current_view) ⊎ (s.0.voted_in_view ≡ true))
              × ((r.voted_in_view ≡ false) ⊎ (request_for_view w m ≡ 1)))

module _ {F G1 G2 : Type 0} {f : Field F} (g : Curve f G2) (h : Hashing G2) where
  pub apply_message-VoteEffect :
      (r : Replica F G1 G2) (m : Message G2) {s : Stepped F G1 G2}
      → apply_message g h r m ≡ some s
      → VoteEffect r m s
  unfolding apply_message
  apply_message-VoteEffect r (Message.proposal block) e = ground arith
  apply_message-VoteEffect r (Message.vote view bh signer partial) e = ground arith
  apply_message-VoteEffect r (Message.timeout view) e = ground arith
  apply_message-VoteEffect r (Message.nullify_vote view signer partial) e = ground arith
  apply_message-VoteEffect r (Message.finalize_vote view signer partial) e = ground arith
  apply_message-VoteEffect r (Message.notarization view block certificate) e = ground arith
  apply_message-VoteEffect r (Message.propose_request view payload) e = ground arith

  -- The view is left, or the replica has voted in it.
  abbrev pub Voted : ℕ → Replica F G1 G2 → Type 0
  Voted w r = (w < r.current_view) ⊎ ((w ≡ r.current_view) × (r.voted_in_view ≡ true))

  pub Voted-votes :
      (w : ℕ) (r : Replica F G1 G2) (ms : List (Message G2)) {q : Run F G1 G2}
      → AtRest r
      → r.current_view + length ms < u64_mod
      → Voted w r
      → run g h r ms ≡ some q
      → count_votes w q.2 ≤ count_requests w ms
  unfolding run
  Voted-votes w r [] v b p e = ground arith
  Voted-votes w r (m ∷ ms) v b p e =
      let (s, rest, first, later, e1) = run-cons g h r m ms e in
      let now = apply_message-Effect g h r m v first in
      let votes = apply_message-VoteEffect r m first in
      ground (
        arith,
        e1,
        count_votes-append w s.2 rest.2,
        now.moved,
        votes.keeps,
        votes.votes_bound w,
        Voted-votes w s.0 ms {q = rest} now.rest (ground arith) (ground arith) later,
      )

  run_votes :
      (w : ℕ) (r : Replica F G1 G2) (ms : List (Message G2)) {q : Run F G1 G2}
      → AtRest r
      → r.current_view + length ms < u64_mod
      → run g h r ms ≡ some q
      → count_votes w q.2 ≤ 1 + count_requests w ms
  unfolding run
  run_votes w r [] v b e = ground arith
  run_votes w r (m ∷ ms) v b e =
      let (s, rest, first, later, e1) = run-cons g h r m ms e in
      let now = apply_message-Effect g h r m v first in
      let b' : s.0.current_view + length ms < u64_mod = ground (arith, now.moved) in
      ground (
        arith,
        e1,
        count_votes-append w s.2 rest.2,
        (apply_message-VoteEffect r m first).votes_bound w,
        λ (p : Voted w s.0). Voted-votes w s.0 ms {q = rest} now.rest b' p later,
        run_votes w s.0 ms {q = rest} now.rest b' later,
      )

  -- In every run of a new replica over fewer than 2^64 - 1 messages, the notarization votes that
  -- it broadcasts for one view are at most one more than the requests to propose in that view
  -- that it was given: without such a request it votes at most once in a view.
  pub one_vote_per_view :
      (id : ℕ) (share : KeyShare F G1) (config : NetworkConfig G1) (ms : List (Message G2)) (w : ℕ)
      {q : Run F G1 G2}
      → 1 + length ms < u64_mod
      → run g h (new id share config) ms ≡ some q
      → count_votes w q.2 ≤ 1 + count_requests w ms
  unfolding new
  one_vote_per_view id share config ms w b e = run_votes w _ ms (new-AtRest id share config) b e
