-- ===== src/Dkg/Api.antt =====
-- The interface of the key generation: golden-dkg/src/dkg.rs.
use golden_rs.Common.{
  ℕ, true, false, not, List, Option, none, some, map, if◌then◌else◌, ◌==◌, bytes_eq, nat_eq, lookup,
}
use golden_rs.Algebra.{Field, Curve, Rng, Encoding}
use golden_rs.Dkg.Outcome.{Outcome, ok, err, ◌>>=◌, ◌>>◌, ok_or}
use golden_rs.Dkg.Types.{
  Round0Msg, DkgOutput, DkgError, proof_error, unknown_sender, batch_failed, verifier_error,
  session_mismatch, ZkEvrf, DkgConfig, DkgDealing, Participant, Verdict, checked, failed,
}
use golden_rs.Dkg.Round0.{round0}
use golden_rs.Dkg.Round1.{Received, check_ciphertexts, recipients, round1}
use golden_rs.Dkg.Refresh.{dealing_of}

module _ {F G P R : Type 0} {f : Field F} (g : Curve f G) (enc : Encoding F G) (rng : Rng R F)
    (zk : ZkEvrf F G P) where
  unfoldable pub create_dealing :
      Participant F G → DkgConfig F → List (ℕ × G) → R → Option (DkgDealing F G P × R)
  create_dealing participant config peers r =
      elim (round0 g enc rng zk participant.id config.n config.t participant.sk peers config.beta r
        config.session_id) [ none ↦ none | some dealt ↦ some (dealing_of dealt) ]

-- What the verifier of the batch answers.
abbrev pub judge : ℕ → Verdict → Outcome DkgError (Unit {0})
judge sender (checked true) = ok tt
judge sender (checked false) = err (proof_error (batch_failed sender))
judge sender (failed e) = err (proof_error (verifier_error e))

module _ {F G P : Type 0} {f : Field F} (g : Curve f G) (zk : ZkEvrf F G P) where
  unfoldable pub verify_batch_proof :
      Round0Msg F G P → G → List (ℕ × G) → F → Option P → Outcome DkgError (Unit {0})
  verify_batch_proof dealing sender_pk peers beta none = ok tt
  verify_batch_proof dealing sender_pk peers beta (some batch_proof) = do
    let header = dealing.dkg_header
    peers_for_verify ← recipients peers header.ciphertexts
    let pad_commitments = map (λ c. (c.0, c.1.r_commitment)) header.ciphertexts
    judge header.sender
        (zk.verify_batch sender_pk peers_for_verify pad_commitments beta batch_proof)

  unfoldable pub verify_dealing :
      Round0Msg F G P → List (ℕ × G) → DkgConfig F → Outcome DkgError (Unit {0})
  verify_dealing dealing peers config =
      let header = dealing.dkg_header in
      if not (header.session_id == config.session_id)
      then err (session_mismatch header.sender)
      else (do
        check_ciphertexts g header.sender header.vss_commitment header.ciphertexts
        sender_pk ← ok_or (lookup header.sender peers) (proof_error (unknown_sender header.sender))
        verify_batch_proof dealing sender_pk peers config.beta dealing.batch_evrf_proof)

module _ {F G P : Type 0} {f : Field F} (g : Curve f G) (enc : Encoding F G)
    (zk : ZkEvrf F G P) where
  unfoldable pub complete :
      Participant F G
      → DkgDealing F G P
      → Received F G P
      → List (ℕ × G)
      → DkgConfig F
      → Outcome DkgError (DkgOutput F G)
  complete participant own_dealing peer_dealings peers config =
      round1 g enc zk participant.id participant.sk peers own_dealing.private_share
        own_dealing.own_vss_commitment peer_dealings config.beta config.session_id
