-- ===== src/Dkg/Reshare/Errors.antt =====
-- What the check of a dealing refuses (golden-dkg/src/reshare.rs).

use golden_rs.Common.{
  ℕ, ◌≡◌, ◌↔◌, Bytes, List, arith, some, lookup, nat_eq, bytes_eq, ◌==◌, Bool-cases, Option-cases,
  inl, inr,
}
use golden_rs.Algebra.{Field, Curve}
use golden_rs.Dkg.Outcome.{ok}
use golden_rs.Dkg.Types.{ReshareMsg}
use golden_rs.Dkg.Round1.{first}
use golden_rs.Dkg.Reshare.{check_key_share}
use golden_rs.Dkg.Reshare.Interface.{verify_reshare_dealing}

module _ {F G : Type 0} {f : Field F} (g : Curve f G) where
  check_key_share-exact :
      (sender recipient : ℕ) (commitment : List G) (old_pk_shares : List (ℕ × G))
      → (check_key_share g sender recipient commitment old_pk_shares ≡ ok tt)
        ↔ ((p : G) → lookup sender old_pk_shares ≡ some p → first commitment ≡ some p)
  unfolding check_key_share
  check_key_share-exact sender recipient commitment old_pk_shares =
      elim (Option-cases (lookup sender old_pk_shares)) [
        | inl unknown ↦ (λ e p l. absurd (ground (arith, l, unknown)), λ h. ground (arith, unknown))
        | inr (p, known) ↦ elim (Option-cases (first commitment)) [
          | inl stops ↦ (
            λ e q l. absurd (ground (arith, e, stops, known)),
            λ h. absurd (ground (arith, h p known, stops)),
          )
          | inr (a, starts) ↦ (
            λ e q l. ground (arith, e, l, starts, known, g.eq.beq_iff a p),
            λ h. ground (arith, h p known, starts, known, g.eq.beq_iff a p),
          )
        ]
      ]

  -- `reshare::verify_dealing` accepts a dealing exactly when it has the session and its first
  -- commitment is the sender's key share, if the key shares have one for the sender: a sender
  -- without a key share is accepted.
  pub verify_reshare_dealing-exact :
      (dealing : ReshareMsg F G) (old_pk_shares : List (ℕ × G)) (session_id : Bytes)
      → let header = dealing.reshare_header in
        (verify_reshare_dealing g dealing old_pk_shares session_id ≡ ok tt) ↔ (
          (header.session_id ≡ session_id)
          × ((p : G)
              → lookup header.sender old_pk_shares ≡ some p
              → first header.vss_commitment ≡ some p))
  unfolding verify_reshare_dealing
  verify_reshare_dealing-exact dealing old_pk_shares session_id =
      let header = dealing.reshare_header in
      let (there, back) =
        check_key_share-exact header.sender 0 header.vss_commitment old_pk_shares in
      elim (Bool-cases (header.session_id == session_id)) [
        | inl same ↦ (
          λ e. (
            ground (arith, same, bytes_eq.beq_iff header.session_id session_id),
            there (ground (arith, same, e)),
          ),
          λ h. rw same (back h.1),
        )
        | inr other ↦ (
          λ e. absurd (ground (arith, other, e)),
          λ h. absurd (ground (arith, other, h.0, bytes_eq.beq_iff header.session_id session_id)),
        )
      ]
