-- ===== src/Threshold/Bootstrap/Ceremony.antt =====
-- The whole key generation in one process: `run_dkg` of golden-dkg/src/threshold/dkg.rs, and
-- `Participant::new` and `SessionId::random` of golden-dkg/src/types.rs. The generators of the
-- threads are one state, used in the order of the participants.
use golden_rs.Common.{
  ℕ, zero, suc, ◌+◌, List, [], ◌∷◌, Option, none, some, ◌>>=◌, if◌then◌else◌, ◌==◌, nat_eq, insert,
}
use golden_rs.Algebra.{Field, Curve, Rng, Encoding}
use golden_rs.Schnorr.{prove}
use golden_rs.Dkg.Outcome.{Outcome, ok, err, panic}
use golden_rs.Dkg.Types.{Participant, DkgConfig, DkgDealing, DkgOutput, ZkEvrf}
use golden_rs.Dkg.Round1.{Received}
use golden_rs.Dkg.Api.{create_dealing, complete}
use golden_rs.Threshold.Types.{GroupInfo, KeyShare}
use golden_rs.Threshold.Bootstrap.{bootstrap}

module _ {F G R : Type 0} {f : Field F} (g : Curve f G) (enc : Encoding F G) (rng : Rng R F) where
  -- `Participant::new`.
  unfoldable pub new_participant : ℕ → R → Participant F G × R
  new_participant id r =
      let (sk_val, r1) = rng.rand_scalar r in
      let pk = g.smul g.generator sk_val in
      let (pok, r2) = prove g enc rng sk_val pk r1 in
      (record { id = id; sk = sk_val; pk = pk; pok = pok }, r2)

  -- `(1..=n).map(..)`, from `id` on.
  unfoldable pub new_participants : ℕ → ℕ → R → List (Participant F G) × R
  new_participants id zero r = ([], r)
  new_participants id (suc left) r =
      let (p, r1) = new_participant id r in
      let (rest, r2) = new_participants (id + 1) left r1 in (p ∷ rest, r2)

module _ {F G : Type 0} where
  -- `participants.iter().map(|p| (p.id, p.pk)).collect()`, into a map.
  unfoldable pub peers_of : List (Participant F G) → List (ℕ × G) → List (ℕ × G)
  peers_of [] peers = peers
  peers_of (p ∷ rest) peers = peers_of rest (insert p.id p.pk peers)

-- `unwrap()` on a `Result`.
abbrev pub unwrap : {E A : Type 0} → Outcome E A → Option A
unwrap (ok a) = some a
unwrap (err e) = none
unwrap panic = none

-- A participant with what it dealt.
abbrev pub Dealer : Type 0 → Type 0 → Type 0 → Type 0
Dealer F G P = Participant F G × DkgDealing F G P

module _ {F G P R : Type 0} {f : Field F} (g : Curve f G) (enc : Encoding F G) (rng : Rng R F)
    (zk : ZkEvrf F G P) where
  -- Every participant with its dealing.
  unfoldable pub deal_all :
      DkgConfig F → List (ℕ × G) → List (Participant F G) → R → Option (List (Dealer F G P) × R)
  deal_all config peers [] r = some ([], r)
  deal_all config peers (p ∷ rest) r = do
    made ← create_dealing g enc rng zk p config peers r
    later ← deal_all config peers rest made.1
    some ((p, made.0) ∷ later.0, later.1)

module _ {F G P : Type 0} where
  -- The messages of the others: all but the one at position `idx`.
  unfoldable pub received_by : ℕ → ℕ → List (Dealer F G P) → Received F G P → Received F G P
  received_by idx jdx [] received = received
  received_by idx jdx ((p, d) ∷ rest) received =
      received_by idx (suc jdx) rest
        (if idx == jdx then received else insert p.id d.message received)

module _ {F G P : Type 0} {f : Field F} (g : Curve f G) (enc : Encoding F G)
    (zk : ZkEvrf F G P) where
  -- The outputs of the participants from position `idx` on.
  unfoldable pub complete_all :
      DkgConfig F
      → List (ℕ × G)
      → List (Dealer F G P)
      → ℕ
      → List (Dealer F G P)
      → Option (List (ℕ × DkgOutput F G))
  complete_all config peers dealers idx [] = some []
  complete_all config peers dealers idx ((p, d) ∷ rest) = do
    output ← unwrap (complete g enc zk p d (received_by idx 0 dealers []) peers config)
    later ← complete_all config peers dealers (suc idx) rest
    some ((p.id, output) ∷ later)

module _ {F G P R : Type 0} {f : Field F} (g : Curve f G) (enc : Encoding F G) (rng : Rng R F)
    (zk : ZkEvrf F G P) where
  unfoldable pub run_dkg : ℕ → ℕ → R → Option ((List (KeyShare F G) × GroupInfo G) × R)
  run_dkg n t r = do
    let (beta, r1) = rng.rand_scalar r
    let (session_id, r2) = rng.fill32 r1
    let (participants, r3) = new_participants g enc rng 1 n r2
    let peers = peers_of participants []
    let config : DkgConfig F = record { n = n; t = t; beta = beta; session_id = session_id }
    dealt ← deal_all g enc rng zk config peers participants r3
    outputs ← complete_all g enc zk config peers dealt.0 0 dealt.0
    made ← bootstrap outputs t
    some (made, dealt.1)
