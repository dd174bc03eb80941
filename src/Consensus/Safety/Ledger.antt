-- ===== src/Consensus/Safety/Ledger.antt =====
-- The chain state of a replica as an abstract ledger, which the handlers implement.
use golden_rs.Common.{ℕ, ◌-◌, ◌≡◌, sym, subst, ◌⊎◌, Bytes, List, [], ◌∷◌, some, arith}
use golden_rs.Algebra.{Field, Curve, Hashing}
use golden_rs.Consensus.Types.{
  Message, StateTransition, notarized, finalized, nullified, rejected, pending,
}
use golden_rs.Consensus.Replica.{Replica, Run, Stepped, incr, run, apply_message}
use golden_rs.Consensus.Safety.Effects.{run-cons}

-- What an observer of the transitions knows.
pub record Ledger : Type 0 where
  pub view : ℕ
  pub tip : Bytes
  pub finalized_blocks : ℕ
  pub nullified_views : ℕ

abbrev pub ledger_step : Ledger → StateTransition → Ledger
ledger_step l (notarized view bh) = record l { view = incr l.view; tip = bh }
ledger_step l (finalized view bh) = record l { finalized_blocks = incr l.finalized_blocks }
ledger_step l (nullified view) = record l {
  view = incr l.view;
  nullified_views = incr l.nullified_views;
}
ledger_step l (rejected view reason) = l
ledger_step l pending = l

abbrev pub ledger_after : Ledger → List StateTransition → Ledger
ledger_after l [] = l
ledger_after l (t ∷ ts) = ledger_after (ledger_step l t) ts

-- When a transition may happen: in the current view, but a finalization also in the one before.
abbrev pub Enabled : Ledger → StateTransition → Type 0
Enabled l (notarized view bh) = view ≡ l.view
Enabled l (finalized view bh) = (view ≡ l.view) ⊎ (view ≡ l.view - 1)
Enabled l (nullified view) = view ≡ l.view
Enabled l (rejected view reason) = Unit {0}
Enabled l pending = Unit {0}

-- A sequence of transitions, each enabled where it happens.
abbrev pub EnabledAll : Ledger → List StateTransition → Type 0
EnabledAll l [] = Unit {0}
EnabledAll l (t ∷ ts) = Enabled l t × EnabledAll (ledger_step l t) ts

-- The transitions are enabled from `l` on, and lead to `l'`.
abbrev pub Implements : Ledger → Ledger → List StateTransition → Type 0
Implements l l' ts = (l' ≡ ledger_after l ts) × EnabledAll l ts

Implements-cons :
    (l l' : Ledger) (t : StateTransition) (ts : List StateTransition) {l1 : Ledger}
    → (l1 ≡ ledger_step l t) × Enabled l t
    → Implements l1 l' ts
    → Implements l l' (t ∷ ts)
Implements-cons l l' t ts step rest =
    let moved = subst (λ x. Implements x l' ts) step.0 rest in (moved.0, (step.1, moved.1))

module _ {F G1 G2 : Type 0} where
  abbrev pub ledger : Replica F G1 G2 → Ledger
  ledger r = record {
    view = r.current_view;
    tip = r.chain_state.tip_hash;
    finalized_blocks = r.chain_state.finalized_count;
    nullified_views = r.chain_state.nullified_count;
  }

module _ {F G1 G2 : Type 0} {f : Field F} (g : Curve f G2) (h : Hashing G2) where
  -- Whatever the state and the message: the new ledger is the abstract step of the old one by the
  -- transition that the handler reports, and that transition is enabled.
  pub apply_message-ledger_step :
      (r : Replica F G1 G2) (m : Message G2) {s : Stepped F G1 G2}
      → apply_message g h r m ≡ some s
      → (ledger s.0 ≡ ledger_step (ledger r) s.1) × Enabled (ledger r) s.1
  unfolding apply_message
  apply_message-ledger_step r (Message.proposal block) e = ground arith
  apply_message-ledger_step r (Message.vote view bh signer partial) e = ground arith
  apply_message-ledger_step r (Message.timeout view) e = ground arith
  apply_message-ledger_step r (Message.nullify_vote view signer partial) e = ground arith
  apply_message-ledger_step r (Message.finalize_vote view signer partial) e = ground arith
  apply_message-ledger_step r (Message.notarization view block certificate) e = ground arith
  apply_message-ledger_step r (Message.propose_request view payload) e = ground arith

  -- Refinement over a run: every transition that a run from any replica reports is enabled in the
  -- abstract ledger, and the final ledger is that of the abstract steps taken one after another.
  pub run-ledger :
      (r : Replica F G1 G2) (ms : List (Message G2)) {q : Run F G1 G2}
      → run g h r ms ≡ some q
      → Implements (ledger r) (ledger q.0) q.1
  unfolding run
  run-ledger r [] e = ground arith
  run-ledger r (m ∷ ms) e =
      let (s, rest, first, later, e1) = run-cons g h r m ms e in
      subst (λ (x : Run F G1 G2). Implements (ledger r) (ledger x.0) x.1) (sym e1)
        (Implements-cons (ledger r) (ledger rest.0) s.1 rest.1 (apply_message-ledger_step r m first)
          (run-ledger s.0 ms {q = rest} later))
