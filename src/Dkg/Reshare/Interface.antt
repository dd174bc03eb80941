-- ===== src/Dkg/Reshare/Interface.antt =====
-- The interface of the resharing: golden-dkg/src/reshare.rs.
use golden_rs.Common.{ℕ, Bytes, not, List, if◌then◌else◌, ◌==◌, nat_eq, bytes_eq}
use golden_rs.Algebra.{Field, Curve, Rng, Encoding}
use golden_rs.Dkg.Outcome.{Outcome, ok, err}
use golden_rs.Dkg.Types.{ReshareMsg, DkgOutput, Participant}
use golden_rs.Dkg.Reshare.{
  ReshareError, session_mismatch, Dealings, check_key_share, reshare_deal, reshare_receive,
}

module _ {F G R : Type 0} {f : Field F} (g : Curve f G) (enc : Encoding F G) (rng : Rng R F) where
  unfoldable pub create_reshare_dealing :
      Participant F G
      → F
      → List (ℕ × G)
      → ℕ
      → F
      → Bytes
      → R
      → Outcome ReshareError (ReshareMsg F G × R)
  create_reshare_dealing old_participant old_share new_members t_new beta session_id r = ok (
      reshare_deal g enc rng old_participant.id old_share old_participant.sk new_members t_new beta
        r session_id)

module _ {F G : Type 0} {f : Field F} (g : Curve f G) where
  -- `reshare::verify_dealing`: the recipient in its error is 0.
  unfoldable pub verify_reshare_dealing :
      ReshareMsg F G → List (ℕ × G) → Bytes → Outcome ReshareError (Unit {0})
  verify_reshare_dealing dealing old_pk_shares session_id =
      let header = dealing.reshare_header in
      if not (header.session_id == session_id)
      then err (session_mismatch header.sender)
      else check_key_share g header.sender 0 header.vss_commitment old_pk_shares

module _ {F G : Type 0} {f : Field F} (g : Curve f G) (enc : Encoding F G) where
  unfoldable pub complete_reshare :
      Participant F G
      → Dealings F G
      → List (ℕ × G)
      → G
      → List (ℕ × G)
      → ℕ
      → F
      → Bytes
      → Outcome ReshareError (DkgOutput F G)
  complete_reshare new_participant dealings old_members original_pk old_pk_shares t_old beta
        session_id =
      reshare_receive g enc new_participant.id new_participant.sk old_members dealings beta
        original_pk old_pk_shares t_old session_id
