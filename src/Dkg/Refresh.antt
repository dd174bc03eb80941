-- ===== src/Dkg/Refresh.antt =====
-- The refresh: `round1_refresh` of golden-dkg/src/protocol.rs and golden-dkg/src/refresh.rs.
pub mod Rotation
use golden_rs.Common.{
  ℕ, ◌%◌, u32_mod, zero, suc, Bool, not, Bytes, List, [], ◌∷◌, Option, none, some, length,
  if◌then◌else◌, ◌==◌, nat_eq, bytes_eq, lookup, insert,
}
use golden_rs.Algebra.{Field, Curve, Rng, Encoding}
use golden_rs.Dkg.Outcome.{Outcome, ok, err, ◌>>=◌, ◌>>◌, or_panic}
use golden_rs.Dkg.Types.{
  Round0Msg, DkgOutput, DkgError, zero_secret_violation, session_mismatch, ZkEvrf, DkgConfig,
  DkgDealing, Participant,
}
use golden_rs.Dkg.Round0.{round0_refresh}
use golden_rs.Dkg.Round1.{
  Received, first, check_sessions, check_ciphertexts, verify_messages, decrypt_all, key_share_at,
}
use golden_rs.Vss.{expected_share_commitment}

module _ {F G : Type 0} {f : Field F} (g : Curve f G) where
  -- A_{j,0} must be the identity; an empty commitment panics.
  unfoldable pub check_zero_secret : ℕ → List G → Outcome DkgError (Unit {0})
  check_zero_secret sender commitment = do
    a0 ← or_panic (first commitment)
    if not (◌==◌ ⦃e = g.eq⦄ a0 g.zero) then err (zero_secret_violation sender) else ok tt

module _ {F G P : Type 0} {f : Field F} (g : Curve f G) where
  unfoldable pub check_zero_secrets : Received F G P → Outcome DkgError (Unit {0})
  check_zero_secrets [] = ok tt
  check_zero_secrets ((sender, msg) ∷ rest) = do
    check_zero_secret g sender msg.dkg_header.vss_commitment
    check_zero_secrets rest

  -- The old key share plus the deltas, for `k` in `1..=n`; a missing old key share panics.
  unfoldable pub refreshed_key_shares :
      List G
      → Received F G P
      → List (ℕ × G)
      → ℕ
      → ℕ
      → List (ℕ × G)
      → Outcome DkgError (List (ℕ × G))
  refreshed_key_shares own received old k zero shares = ok shares
  refreshed_key_shares own received old k (suc left) shares = do
    old_k ← or_panic (lookup k old)
    let delta = key_share_at g (expected_share_commitment g own k) k received
    refreshed_key_shares own received old (suc k) left (insert k (g.add old_k delta) shares)

  -- `refresh::verify_dealing`.
  unfoldable pub verify_refresh_dealing :
      Round0Msg F G P → List (ℕ × G) → DkgConfig F → Outcome DkgError (Unit {0})
  verify_refresh_dealing dealing peers config =
      let header = dealing.dkg_header in
      if not (header.session_id == config.session_id)
      then err (session_mismatch header.sender)
      else (do
        check_zero_secret g header.sender header.vss_commitment
        check_ciphertexts g header.sender header.vss_commitment header.ciphertexts)

module _ {F G P : Type 0} {f : Field F} (g : Curve f G) (enc : Encoding F G)
    (zk : ZkEvrf F G P) where
  unfoldable pub round1_refresh :
      ℕ
      → F
      → List (ℕ × G)
      → F
      → List G
      → Received F G P
      → F
      → F
      → G
      → List (ℕ × G)
      → Bytes
      → Outcome DkgError (DkgOutput F G)
  round1_refresh id sk peers own_delta own received beta existing_share original_pk
        original_pk_shares session_id =
      do
        check_sessions received session_id
        check_zero_secret g id own
        check_zero_secrets g received
        verify_messages g zk peers beta received
        total_delta ← decrypt_all g enc id sk peers beta own_delta received
        shares ←
            refreshed_key_shares g own received original_pk_shares 1 (length peers % u32_mod) []
        ok (record {
          public_key = original_pk;
          public_key_shares = shares;
          secret_share = f.add existing_share total_delta;
        })

  -- `refresh::complete`.
  unfoldable pub complete_refresh :
      Participant F G
      → DkgDealing F G P
      → Received F G P
      → List (ℕ × G)
      → DkgConfig F
      → DkgOutput F G
      → Outcome DkgError (DkgOutput F G)
  complete_refresh participant own_dealing peer_dealings peers config existing =
      round1_refresh participant.id participant.sk peers own_dealing.private_share
        own_dealing.own_vss_commitment peer_dealings config.beta existing.secret_share
        existing.public_key existing.public_key_shares config.session_id

-- `create_dealing` makes of the message and the share a dealing.
abbrev pub dealing_of : {F G P R : Type 0} → Round0Msg F G P × F × R → DkgDealing F G P × R
dealing_of (msg, own_share, r) = (
  record {
    message = msg;
    private_share = own_share;
    own_vss_commitment = msg.dkg_header.vss_commitment;
  },
  r,
)

module _ {F G P R : Type 0} {f : Field F} (g : Curve f G) (enc : Encoding F G) (rng : Rng R F)
    (zk : ZkEvrf F G P) where
  -- `refresh::create_dealing`.
  unfoldable pub create_refresh_dealing :
      Participant F G → DkgConfig F → List (ℕ × G) → R → Option (DkgDealing F G P × R)
  create_refresh_dealing participant config peers r =
      elim (round0_refresh g enc rng zk participant.id config.n config.t participant.sk peers
        config.beta r config.session_id) [ none ↦ none | some dealt ↦ some (dealing_of dealt) ]
