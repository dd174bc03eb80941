-- ===== src/Consensus/Safety/Finality.antt =====
-- What a finalization rests on, and what it reports.
use golden_rs.Common.{
  ℕ, ◌≤◌, ◌≡◌, ◌∙◌, false, Bytes, List, [], ◌∷◌, ◌++◌, none, some, arith, length, nat_eq, ◌≢◌,
}
use golden_rs.Algebra.{Field, Curve, Hashing}
use golden_rs.Threshold.Types.{KeyShare}
use golden_rs.Consensus.Types.{Message, finalized, NetworkConfig, zero_hash}
use golden_rs.Consensus.Replica.{Replica, Votes, Run, Stepped, new, run, apply_message, has_signer}
use golden_rs.Consensus.Safety.Effects.{AtRest, run-cons, apply_message-Effect, new-AtRest}

module _ {G2 : Type 0} where
  -- No signer occurs twice.
  abbrev pub Distinct : Votes G2 → Type 0
  Distinct [] = Unit {0}
  Distinct (v ∷ votes) = (has_signer v.0 votes ≡ false) × Distinct votes

  pub has_signer-append :
      (k j : ℕ) (p : _) (votes : Votes G2)
      → has_signer k votes ≡ false
      → k ≢ j
      → has_signer k (votes ++ ((j, p) ∷ [])) ≡ false
  unfolding has_signer
  has_signer-append k j p [] a b = ground arith
  has_signer-append k j p (v ∷ votes) a b = ground (arith, has_signer-append k j p votes)

  pub Distinct-append :
      (j : ℕ) (p : _) (votes : Votes G2)
      → Distinct votes
      → has_signer j votes ≡ false
      → Distinct (votes ++ ((j, p) ∷ []))
  unfolding has_signer
  Distinct-append j p [] d b = ground arith
  Distinct-append j p (v ∷ votes) d b =
      ground (arith, has_signer-append v.0 j p votes, Distinct-append j p votes)

module _ {F G1 G2 : Type 0} {f : Field F} (g : Curve f G2) (h : Hashing G2) where
  pub apply_message-Distinct :
      (r : Replica F G1 G2) (m : Message G2) {s : Stepped F G1 G2}
      → Distinct r.finalize_votes
      → apply_message g h r m ≡ some s
      → Distinct s.0.finalize_votes
  unfolding apply_message
  apply_message-Distinct r (Message.proposal block) v e = ground arith
  apply_message-Distinct r (Message.vote view bh signer partial) v e = ground arith
  apply_message-Distinct r (Message.timeout view) v e = ground arith
  apply_message-Distinct r (Message.nullify_vote view signer partial) v e = ground arith
  apply_message-Distinct r (Message.finalize_vote view signer partial) v e =
      ground (arith, Distinct-append signer partial r.finalize_votes)
  apply_message-Distinct r (Message.notarization view block certificate) v e = ground arith
  apply_message-Distinct r (Message.propose_request view payload) v e = ground arith

  -- The parameters of a replica never change.
  pub apply_message-config :
      (r : Replica F G1 G2) (m : Message G2) {s : Stepped F G1 G2}
      → apply_message g h r m ≡ some s
      → s.0.config ≡ r.config
  unfolding apply_message
  apply_message-config r (Message.proposal block) e = ground arith
  apply_message-config r (Message.vote view bh signer partial) e = ground arith
  apply_message-config r (Message.timeout view) e = ground arith
  apply_message-config r (Message.nullify_vote view signer partial) e = ground arith
  apply_message-config r (Message.finalize_vote view signer partial) e = ground arith
  apply_message-config r (Message.notarization view block certificate) e = ground arith
  apply_message-config r (Message.propose_request view payload) e = ground arith

  pub run-config :
      (r : Replica F G1 G2) (ms : List (Message G2)) {q : Run F G1 G2}
      → run g h r ms ≡ some q
      → q.0.config ≡ r.config
  unfolding run
  run-config r [] e = ground arith
  run-config r (m ∷ ms) e =
      let (s, rest, first, later, e1) = run-cons g h r m ms e in
      rw e1 (run-config s.0 ms {q = rest} later ∙ apply_message-config r m first)

  pub run_finality :
      (r : Replica F G1 G2) (ms : List (Message G2)) {q : Run F G1 G2}
      → AtRest r
      → Distinct r.finalize_votes
      → run g h r ms ≡ some q
      → AtRest q.0 × Distinct q.0.finalize_votes
  unfolding run
  run_finality r [] v d e = ground arith
  run_finality r (m ∷ ms) v d e =
      let (s, rest, first, later, e1) = run-cons g h r m ms e in
      ground (
        arith,
        run_finality s.0 ms {q = rest} (apply_message-Effect g h r m v first).rest
            (apply_message-Distinct r m d first) later,
        e1,
      )

  finalized_facts :
      (r : Replica F G1 G2) (m : Message G2) {s : Stepped F G1 G2} {view : ℕ} {bh : Bytes}
      → r.notarized_in_view ≡ none
      → apply_message g h r m ≡ some s
      → s.1 ≡ finalized view bh
      → (r.config.t ≤ length s.0.finalize_votes) × (bh ≡ zero_hash)
  unfolding apply_message
  finalized_facts r (Message.proposal block) v e p = ground arith
  finalized_facts r (Message.vote view bh signer partial) v e p = ground arith
  finalized_facts r (Message.timeout view) v e p = ground arith
  finalized_facts r (Message.nullify_vote view signer partial) v e p = ground arith
  finalized_facts r (Message.finalize_vote view signer partial) v e p = ground arith
  finalized_facts r (Message.notarization view block certificate) v e p = ground arith
  finalized_facts r (Message.propose_request view payload) v e p = ground arith

  -- After any run of a new replica: if a message makes it report a finalization, then it holds
  -- finalize votes of at least `t` different signers.
  pub finalized_quorum :
      (id : ℕ) (share : KeyShare F G1) (config : NetworkConfig G1) (ms : List (Message G2))
      (m : Message G2) {q : Run F G1 G2} {s : Stepped F G1 G2} {view : ℕ} {bh : Bytes}
      → run g h (new id share config) ms ≡ some q
      → apply_message g h q.0 m ≡ some s
      → s.1 ≡ finalized view bh
      → (config.t ≤ length s.0.finalize_votes) × Distinct s.0.finalize_votes
  unfolding new
  finalized_quorum id share config ms m {q} e a p =
      let (rest, distinct) = run_finality _ ms {q = q} (new-AtRest id share config) tt e in
      let facts = finalized_facts q.0 m rest.unmarked a p in
      let same = run-config _ ms {q = q} e in
      (rw (← same) facts.0, apply_message-Distinct q.0 m distinct a)

  -- After any run of a new replica, every finalization that it reports names the zero hash: the
  -- mark that it reads is cleared when the view is left.
  pub finalized_names_zero :
      (id : ℕ) (share : KeyShare F G1) (config : NetworkConfig G1) (ms : List (Message G2))
      (m : Message G2) {q : Run F G1 G2} {s : Stepped F G1 G2} {view : ℕ} {bh : Bytes}
      → run g h (new id share config) ms ≡ some q
      → apply_message g h q.0 m ≡ some s
      → s.1 ≡ finalized view bh
      → bh ≡ zero_hash
  unfolding new
  finalized_names_zero id share config ms m {q} e a p =
      let (rest, distinct) = run_finality _ ms {q = q} (new-AtRest id share config) tt e in
      (finalized_facts q.0 m rest.unmarked a p).1
