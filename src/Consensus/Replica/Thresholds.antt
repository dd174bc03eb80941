-- ===== src/Consensus/Replica/Thresholds.antt =====
-- The threshold checks: `try_notarize`, `try_nullify` and `try_finalize`.
use golden_rs.Common.{
  ℕ, true, not, ◌&&◌, Bytes, List, [], ◌∷◌, ◌++◌, some, ltb, length, map, if◌then◌else◌, ◌>>=◌,
  is_some, unwrap_or, lookup, bytes_eq,
}
use golden_rs.Algebra.{Field, Curve, Hashing}
use golden_rs.Threshold.Types.{ThresholdSignature}
use golden_rs.Threshold.Signing.{combine_dynamic}
use golden_rs.Threshold.Beacon.{g2_to_bytes, derive_randomness}
use golden_rs.Consensus.Types.{
  Block, CertKind, Certificate, notarized, finalized, nullified, Outgoing, zero_hash,
}
use golden_rs.Consensus.Replica.State.{Replica, Step, incr, stay, advance_view, sign_finalize}

-- The seed of the next election.
unfoldable pub seed_of : {G2 : Type 0} → Hashing G2 → ThresholdSignature G2 → Bytes
seed_of h combined = derive_randomness h (g2_to_bytes h combined.signature)

module _ {F G1 G2 : Type 0} where
  -- How many votes a block has.
  unfoldable pub vote_count : Replica F G1 G2 → Bytes → ℕ
  vote_count r bh = length (unwrap_or (lookup bh r.notarize_votes) [])

module _ {F G1 G2 : Type 0} {f : Field F} (g : Curve f G2) (h : Hashing G2) where
  -- Step 4: a finalize vote, if the timer has not fired; `outgoing` so far is empty.
  unfoldable pub announce_finalize : Replica F G1 G2 → ℕ → Replica F G1 G2 × List (Outgoing G2)
  announce_finalize r view =
      let sig = sign_finalize g h r view in
      if not r.timer_fired && not r.finalize_sent
      then (
        record r { finalize_sent = true; finalize_votes = r.finalize_votes ++ ((r.id, sig) ∷ []) },
        Outgoing.finalize_vote view sig ∷ [],
      )
      else (r, [])

  -- The threshold is reached: mark, finalize, combine, relay, advance.
  unfoldable pub notarize : Replica F G1 G2 → ℕ → Bytes → Block → Step F G1 G2
  unfolding announce_finalize seed_of advance_view
  notarize r view bh block =
      let marked = record r {
        notarized_in_view = some bh;
        chain_state = record (r.chain_state) { tip_hash = bh };
      } in
      let (r1, outgoing) = announce_finalize marked view in
      (do
        votes ← lookup bh r1.notarize_votes
        combined ← combine_dynamic g (map (λ v. v.1) votes) r1.config.t
        let cert : Certificate G2 = record {
          view = view;
          kind = CertKind.notarization bh;
          signature = combined.signature;
        }
        let r2 = record r1 {
          chain_state = record (r1.chain_state) { vrf_seed = seed_of h combined };
        }
        some (
          advance_view r2,
          notarized view bh,
          outgoing ++ (Outgoing.relay_notarization view block cert ∷ []),
        ))

  unfoldable pub try_notarize : Replica F G1 G2 → ℕ → Bytes → Block → Step F G1 G2
  unfolding notarize vote_count
  try_notarize r view bh block =
      if is_some r.notarized_in_view
      then stay r
      else if ltb (vote_count r bh) r.config.t
      then stay r
      else notarize r view bh block

  -- The dummy block is notarized under the sentinel hash; the tip does not change.
  unfoldable pub nullify : Replica F G1 G2 → ℕ → Step F G1 G2
  unfolding seed_of advance_view
  nullify r view = do
    combined ← combine_dynamic g (map (λ v. v.1) r.nullify_votes) r.config.t
    let r1 = record r {
      notarized_in_view = some zero_hash;
      chain_state = record (r.chain_state) {
        vrf_seed = seed_of h combined;
        nullified_count = incr r.chain_state.nullified_count;
      };
    }
    some (advance_view r1, nullified view, [])

  unfoldable pub try_nullify : Replica F G1 G2 → ℕ → Step F G1 G2
  unfolding nullify
  try_nullify r view =
      if is_some r.notarized_in_view
      then stay r
      else if ltb (length r.nullify_votes) r.config.t
      then stay r
      else nullify r view

module _ {F G1 G2 : Type 0} where
  unfoldable pub try_finalize : Replica F G1 G2 → ℕ → Step F G1 G2
  try_finalize r view =
      if ltb (length r.finalize_votes) r.config.t
      then stay r
      else some (
        record r {
          chain_state = record (r.chain_state) {
            finalized_count = incr r.chain_state.finalized_count;
          };
        },
        finalized view (unwrap_or r.notarized_in_view zero_hash),
        [],
      )
