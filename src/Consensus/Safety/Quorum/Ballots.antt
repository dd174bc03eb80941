-- ===== src/Consensus/Safety/Quorum/Ballots.antt =====
-- The map from block hashes to the votes for them.
use golden_rs.Common.{
  some, ℕ, ◌≡◌, refl, false, Bytes, List, [], ◌∷◌, ◌++◌, arith, ◌≢◌, lookup, lookup-insert,
  unwrap_or, bytes_eq,
}
use golden_rs.Threshold.Types.{PartialSignature}
use golden_rs.Consensus.Replica.{Votes, has_signer, push_vote}
use golden_rs.Consensus.Safety.Finality.{Distinct, has_signer-append, Distinct-append}

module _ {G2 : Type 0} where
  -- `notarize_votes.get(bh)`, empty if there is none.
  abbrev pub votes_in : List (Bytes × Votes G2) → Bytes → Votes G2
  votes_in m bh = unwrap_or (lookup bh m) []

  -- No block has two votes of one signer. (Shut, so that a proof about the state sees it whole.)
  pub DistinctAll : List (Bytes × Votes G2) → Type 0
  DistinctAll m = (bh : Bytes) → Distinct (votes_in m bh)

  -- No block has a vote of this signer.
  pub NoOwn : ℕ → List (Bytes × Votes G2) → Type 0
  NoOwn id m = (bh : Bytes) → has_signer id (votes_in m bh) ≡ false

  pub DistinctAll-votes :
      (m : List (Bytes × Votes G2)) (bh : Bytes) → DistinctAll m → Distinct (votes_in m bh)
  unfolding DistinctAll
  DistinctAll-votes m bh d = d bh

  pub has_signer-votes :
      (id : ℕ) (m : List (Bytes × Votes G2)) (bh : Bytes)
      → NoOwn id m
      → has_signer id (votes_in m bh) ≡ false
  unfolding NoOwn
  has_signer-votes id m bh n = n bh

  -- The list of a block after a push.
  pub lookup-push :
      (bh : Bytes) (k : ℕ) (p : PartialSignature G2) (m : List (Bytes × Votes G2))
      → lookup bh (push_vote bh k p m) ≡ some (votes_in m bh ++ ((k, p) ∷ []))
  unfolding push_vote
  lookup-push bh k p m =
      ground (arith, lookup-insert bh bh (votes_in m bh ++ ((k, p) ∷ [])) m, bytes_eq.beq_iff bh bh)

  pub DistinctAll-push :
      (bh : Bytes) (k : ℕ) (p : PartialSignature G2) (m : List (Bytes × Votes G2))
      → DistinctAll m
      → has_signer k (votes_in m bh) ≡ false
      → DistinctAll (push_vote bh k p m)
  unfolding DistinctAll push_vote
  DistinctAll-push bh k p m d fresh other = ground (
    arith,
    lookup-insert bh other (votes_in m bh ++ ((k, p) ∷ [])) m,
    Distinct-append k p (votes_in m bh) (d bh) fresh,
    d other,
  )

  pub NoOwn-push :
      (id : ℕ) (bh : Bytes) (k : ℕ) (p : PartialSignature G2) (m : List (Bytes × Votes G2))
      → NoOwn id m
      → k ≢ id
      → NoOwn id (push_vote bh k p m)
  unfolding NoOwn push_vote
  NoOwn-push id bh k p m n ne other = ground (
    arith,
    lookup-insert bh other (votes_in m bh ++ ((k, p) ∷ [])) m,
    has_signer-append id k p (votes_in m bh) (n bh),
    n other,
  )

pub DistinctAll-nil : (G2 : Type 0) → DistinctAll {G2 = G2} []
unfolding DistinctAll lookup
DistinctAll-nil G2 bh = tt

pub NoOwn-nil : (G2 : Type 0) (id : ℕ) → NoOwn {G2 = G2} id []
unfolding NoOwn lookup has_signer
NoOwn-nil G2 id bh = refl
