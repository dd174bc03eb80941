-- ===== src/Consensus/Safety/Exclusion.antt =====
-- The `finalize_sent` and `dummy_sent` flags over a whole run (Lemma 3.3 of the Simplex paper).
use golden_rs.Common.{
  ℕ, ◌+◌, ◌<◌, ◌≡◌, ◌⊎◌, true, false, List, [], ◌∷◌, some, arith, any-append, length, u64_mod,
}
use golden_rs.Algebra.{Field, Curve, Hashing}
use golden_rs.Threshold.Types.{KeyShare}
use golden_rs.Consensus.Types.{Message, NetworkConfig}
use golden_rs.Consensus.Replica.{Replica, Run, new, run}
use golden_rs.Consensus.Safety.Effects.{
  AtRest, sends_finalize, sends_nullify, is_finalize, is_nullify, apply_message-Effect, run-cons,
  new-AtRest,
}

module _ {F G1 G2 : Type 0} {f : Field F} (g : Curve f G2) (h : Hashing G2) where
  -- The view is left, or its timer has fired: no finalize vote for it any more.
  abbrev pub Barred : ℕ → Replica F G1 G2 → Type 0
  Barred w r = (w < r.current_view) ⊎ ((w ≡ r.current_view) × (r.timer_fired ≡ true))

  pub Barred-finalize :
      (w : ℕ) (r : Replica F G1 G2) (ms : List (Message G2)) {q : Run F G1 G2}
      → AtRest r
      → r.current_view + length ms < u64_mod
      → Barred w r
      → run g h r ms ≡ some q
      → sends_finalize w q.2 ≡ false
  unfolding run
  Barred-finalize w r [] v b p e = ground arith
  Barred-finalize w r (m ∷ ms) v b p e =
      let (s, rest, first, later, e1) = run-cons g h r m ms e in
      let now = apply_message-Effect g h r m v first in
      ground (
        arith,
        e1,
        any-append (is_finalize w) s.2 rest.2,
        now.finalizes w,
        Barred-finalize w s.0 ms {q = rest} now.rest (ground arith) (ground arith) later,
      )

  -- A view that is left gets no nullification vote.
  pub left-nullify :
      (w : ℕ) (r : Replica F G1 G2) (ms : List (Message G2)) {q : Run F G1 G2}
      → AtRest r
      → r.current_view + length ms < u64_mod
      → w < r.current_view
      → run g h r ms ≡ some q
      → sends_nullify w q.2 ≡ false
  unfolding run
  left-nullify w r [] v b p e = ground arith
  left-nullify w r (m ∷ ms) v b p e =
      let (s, rest, first, later, e1) = run-cons g h r m ms e in
      let now = apply_message-Effect g h r m v first in
      ground (
        arith,
        e1,
        any-append (is_nullify w) s.2 rest.2,
        now.nullifies w,
        left-nullify w s.0 ms {q = rest} now.rest (ground arith) (ground arith) later,
      )

  run_exclusion :
      (w : ℕ) (r : Replica F G1 G2) (ms : List (Message G2)) {q : Run F G1 G2}
      → AtRest r
      → r.current_view + length ms < u64_mod
      → run g h r ms ≡ some q
      → sends_finalize w q.2 ≡ true
      → sends_nullify w q.2 ≡ false
  unfolding run
  run_exclusion w r [] v b e sent = ground arith
  run_exclusion w r (m ∷ ms) v b e sent =
      let (s, rest, first, later, e1) = run-cons g h r m ms e in
      let now = apply_message-Effect g h r m v first in
      let b' : s.0.current_view + length ms < u64_mod = ground arith in
      ground (
        arith,
        e1,
        any-append (is_finalize w) s.2 rest.2,
        any-append (is_nullify w) s.2 rest.2,
        now.finalizes w,
        now.nullifies w,
        λ (p : Barred w s.0). Barred-finalize w s.0 ms {q = rest} now.rest b' p later,
        λ (p : w < s.0.current_view). left-nullify w s.0 ms {q = rest} now.rest b' p later,
        run_exclusion w s.0 ms {q = rest} now.rest b' later,
      )

  -- In no run of a new replica, whatever messages it is given (fewer than 2^64 - 1), does it
  -- broadcast both a finalize vote and a nullification vote for one view.
  pub finalize_excludes_nullify :
      (id : ℕ) (share : KeyShare F G1) (config : NetworkConfig G1) (ms : List (Message G2)) (w : ℕ)
      {q : Run F G1 G2}
      → 1 + length ms < u64_mod
      → run g h (new id share config) ms ≡ some q
      → sends_finalize w q.2 ≡ true
      → sends_nullify w q.2 ≡ false
  unfolding new
  finalize_excludes_nullify id share config ms w b e =
      run_exclusion w _ ms (new-AtRest id share config) b e
