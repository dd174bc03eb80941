-- ===== src/Consensus/Safety/Effects.antt =====
-- What one message does to the flags and to the view, and which votes it sends.
use golden_rs.Common.{
  ℕ, ◌≡◌, ◌⊎◌, Bool, true, false, List, ◌∷◌, ◌++◌, none, some, arith, any, ◌==◌, nat_eq,
  >>=-eq-some,
}
use golden_rs.Algebra.{Field, Curve, Hashing}
use golden_rs.Threshold.Types.{KeyShare}
use golden_rs.Consensus.Types.{NetworkConfig, Message, Outgoing}
use golden_rs.Consensus.Replica.{Replica, Run, Stepped, incr, new, run, apply_message}

module _ {G2 : Type 0} where
  abbrev pub is_finalize : ℕ → Outgoing G2 → Bool
  is_finalize w (Outgoing.finalize_vote view _) = w == view
  is_finalize w _ = false

  abbrev pub is_nullify : ℕ → Outgoing G2 → Bool
  is_nullify w (Outgoing.nullify_vote view _) = w == view
  is_nullify w _ = false

  -- Whether the broadcasts hold a vote of the kind for the view.
  abbrev pub sends_finalize : ℕ → List (Outgoing G2) → Bool
  sends_finalize w outs = any (is_finalize w) outs

  abbrev pub sends_nullify : ℕ → List (Outgoing G2) → Bool
  sends_nullify w outs = any (is_nullify w) outs

module _ {F G1 G2 : Type 0} where
  -- What holds of a replica between two messages.
  pub record AtRest (r : Replica F G1 G2) : Type 0 where
    pub unmarked : r.notarized_in_view ≡ none
    pub not_finalized : r.finalize_sent ≡ false
    pub dummy_is_timer : r.dummy_sent ≡ r.timer_fired

  pub record Effect (r : Replica F G1 G2) (s : Stepped F G1 G2) : Type 0 where
    pub rest : AtRest s.0
    pub moved : (s.0.current_view ≡ r.current_view) ⊎ (s.0.current_view ≡ incr r.current_view)
    pub fired :
        r.timer_fired ≡ true → (s.0.current_view ≡ incr r.current_view) ⊎ (s.0.timer_fired ≡ true)
    pub finalizes :
        (w : ℕ)
        → sends_finalize w s.2 ≡ true
        → (w ≡ r.current_view)
          × (s.0.current_view ≡ incr r.current_view)
          × (r.timer_fired ≡ false)
          × (sends_nullify w s.2 ≡ false)
    pub nullifies :
        (w : ℕ)
        → sends_nullify w s.2 ≡ true
        → (w ≡ r.current_view)
          × ((s.0.current_view ≡ incr r.current_view) ⊎ (s.0.timer_fired ≡ true))

module _ {F G1 G2 : Type 0} {f : Field F} (g : Curve f G2) (h : Hashing G2) where
  -- Every message, whatever its handler does with it, has such an effect on a replica at rest.
  pub apply_message-Effect :
      (r : Replica F G1 G2) (m : Message G2) {s : Stepped F G1 G2}
      → AtRest r
      → apply_message g h r m ≡ some s
      → Effect r s
  unfolding apply_message
  apply_message-Effect r (Message.proposal block) v e = ground arith
  apply_message-Effect r (Message.vote view bh signer partial) v e = ground arith
  apply_message-Effect r (Message.timeout view) v e = ground arith
  apply_message-Effect r (Message.nullify_vote view signer partial) v e = ground arith
  apply_message-Effect r (Message.finalize_vote view signer partial) v e = ground arith
  apply_message-Effect r (Message.notarization view block certificate) v e = ground arith
  apply_message-Effect r (Message.propose_request view payload) v e = ground arith

  -- A run that returned, taken apart at its first message.
  pub run-cons :
      (r : Replica F G1 G2) (m : Message G2) (ms : List (Message G2)) {q : Run F G1 G2}
      → run g h r (m ∷ ms) ≡ some q
      → (s : Stepped F G1 G2) × (rest : Run F G1 G2) × (apply_message g h r m ≡ some s)
        × (run g h s.0 ms ≡ some rest)
        × (q ≡ (rest.0, s.1 ∷ rest.1, s.2 ++ rest.2))
  unfolding run
  run-cons r m ms e =
      let (s, first, e1) = >>=-eq-some (apply_message g h r m) _ e in
      let (rest, later, e2) = >>=-eq-some (run g h s.0 ms) _ e1 in
      (s, rest, first, later, ground arith)

pub new-AtRest :
    {F G1 G2 : Type 0} (id : ℕ) (share : KeyShare F G1) (config : NetworkConfig G1)
    → AtRest {G2 = G2} (new id share config)
unfolding new
new-AtRest id share config = ground arith
