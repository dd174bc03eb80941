-- ===== src/Dkg/Round1.antt =====
-- Round 1, verification and aggregation: `round1` and `round1_refresh` of
-- golden-dkg/src/protocol.rs. A map is visited in the order of its list.
use golden_rs.Common.{
  ℕ, ◌%◌, u32_mod, zero, suc, Bool, not, Bytes, List, [], ◌∷◌, Option, none, some, length,
  if◌then◌else◌, ◌==◌, nat_eq, bytes_eq, lookup, insert, map,
}
use golden_rs.Algebra.{Field, Curve, Encoding}
use golden_rs.Vss.{expected_share_commitment}
use golden_rs.Evrf.{derive_pad}
use golden_rs.Dkg.Outcome.{Outcome, ok, err, ◌>>=◌, ◌>>◌, or_panic, ok_or}
use golden_rs.Dkg.Types.{
  Ciphertext, Round0Msg, DkgOutput, DkgError, ciphertext_verification_failed, missing_ciphertext,
  session_mismatch, ZkEvrf,
}

-- The received messages, by sender.
abbrev pub Received : Type 0 → Type 0 → Type 0 → Type 0
Received F G P = List (ℕ × Round0Msg F G P)

-- `list[0]`.
abbrev pub first : {A : Type 0} → List A → Option A
first [] = none
first (a ∷ rest) = some a

module _ {F G P : Type 0} where
  unfoldable pub check_sessions : Received F G P → Bytes → Outcome DkgError (Unit {0})
  check_sessions [] session_id = ok tt
  check_sessions ((sender, msg) ∷ rest) session_id =
      if not (msg.dkg_header.session_id == session_id)
      then err (session_mismatch sender)
      else check_sessions rest session_id

module _ {F G : Type 0} {f : Field F} (g : Curve f G) where
  -- g^z = R + X for one ciphertext, X from the commitment.
  unfoldable pub ciphertext_matches : List G → ℕ → Ciphertext F G → Bool
  ciphertext_matches commitment recipient ct =
      let expected = expected_share_commitment g commitment recipient in
      let lhs = g.smul g.generator ct.encrypted_share in
      let rhs = g.add ct.r_commitment expected in ◌==◌ ⦃e = g.eq⦄ lhs rhs

  unfoldable pub check_ciphertexts :
      ℕ → List G → List (ℕ × Ciphertext F G) → Outcome DkgError (Unit {0})
  check_ciphertexts sender commitment [] = ok tt
  check_ciphertexts sender commitment ((recipient, ct) ∷ rest) =
      if not (ciphertext_matches commitment recipient ct)
      then err (ciphertext_verification_failed sender recipient)
      else check_ciphertexts sender commitment rest

-- `ciphertexts.keys().map(|&pid| (pid, peers[&pid]))`.
unfoldable pub recipients :
    {F G : Type 0} → List (ℕ × G) → List (ℕ × Ciphertext F G) → Outcome DkgError (List (ℕ × G))
recipients peers [] = ok []
recipients peers ((pid, ct) ∷ rest) = do
  pk ← or_panic (lookup pid peers)
  tail ← recipients peers rest
  ok ((pid, pk) ∷ tail)

module _ {F G P : Type 0} (zk : ZkEvrf F G P) where
  -- The per-peer proofs; what `verify_evrf` answers is dropped.
  unfoldable pub legacy_proofs :
      List (ℕ × G) → F → G → List (ℕ × Ciphertext F G) → List (ℕ × P) → Outcome DkgError (Unit {0})
  legacy_proofs peers beta sender_pk cts [] = ok tt
  legacy_proofs peers beta sender_pk cts ((recipient, proof) ∷ rest) = do
    recipient_pk ← or_panic (lookup recipient peers)
    ct ← or_panic (lookup recipient cts)
    let dropped = zk.verify sender_pk recipient_pk ct.r_commitment beta proof
    legacy_proofs peers beta sender_pk cts rest

  -- The batch proof if there is one; what `verify_evrf_batch` answers is dropped.
  unfoldable pub check_proofs : List (ℕ × G) → F → ℕ → Round0Msg F G P → Outcome DkgError (Unit {0})
  check_proofs peers beta sender msg = do
    sender_pk ← or_panic (lookup sender peers)
    elim msg.batch_evrf_proof [
      | some batch_proof ↦ do
        peers_for_verify ← recipients peers msg.dkg_header.ciphertexts
        let pads = map (λ c. (c.0, c.1.r_commitment)) msg.dkg_header.ciphertexts
        let dropped = zk.verify_batch sender_pk peers_for_verify pads beta batch_proof
        ok tt
      | none ↦ legacy_proofs peers beta sender_pk msg.dkg_header.ciphertexts msg.evrf_proofs
    ]

module _ {F G P : Type 0} {f : Field F} (g : Curve f G) (zk : ZkEvrf F G P) where
  unfoldable pub verify_messages : List (ℕ × G) → F → Received F G P → Outcome DkgError (Unit {0})
  verify_messages peers beta [] = ok tt
  verify_messages peers beta ((sender, msg) ∷ rest) = do
    check_ciphertexts g sender msg.dkg_header.vss_commitment msg.dkg_header.ciphertexts
    check_proofs zk peers beta sender msg
    verify_messages peers beta rest

module _ {F G P : Type 0} {f : Field F} (g : Curve f G) (enc : Encoding F G) where
  -- The share that a message holds for `id`: x = z - r.
  unfoldable pub decrypt : ℕ → F → List (ℕ × G) → F → ℕ → Round0Msg F G P → Outcome DkgError F
  decrypt id sk peers beta sender msg = do
    ct ← ok_or (lookup id msg.dkg_header.ciphertexts) (missing_ciphertext sender id)
    sender_pk ← or_panic (lookup sender peers)
    let pad = derive_pad g enc sk sender_pk msg.dkg_header.random_msg beta
    ok (f.add ct.encrypted_share (f.neg pad.0))

  unfoldable pub decrypt_all : ℕ → F → List (ℕ × G) → F → F → Received F G P → Outcome DkgError F
  decrypt_all id sk peers beta secret_share [] = ok secret_share
  decrypt_all id sk peers beta secret_share ((sender, msg) ∷ rest) = do
    decrypted_share ← decrypt id sk peers beta sender msg
    decrypt_all id sk peers beta (f.add secret_share decrypted_share) rest

module _ {F G P : Type 0} {f : Field F} (g : Curve f G) where
  unfoldable pub sum_keys : G → Received F G P → Outcome DkgError G
  sum_keys pk [] = ok pk
  sum_keys pk ((sender, msg) ∷ rest) = do
    a0 ← or_panic (first msg.dkg_header.vss_commitment)
    sum_keys (g.add pk a0) rest

  unfoldable pub key_share_at : G → ℕ → Received F G P → G
  key_share_at pk_k k [] = pk_k
  key_share_at pk_k k ((sender, msg) ∷ rest) =
      key_share_at (g.add pk_k (expected_share_commitment g msg.dkg_header.vss_commitment k)) k rest

  -- `for k in 1..=n`, from `k` on.
  unfoldable pub key_shares : List G → Received F G P → ℕ → ℕ → List (ℕ × G) → List (ℕ × G)
  key_shares own received k zero shares = shares
  key_shares own received k (suc left) shares =
      key_shares own received (suc k) left
        (insert k (key_share_at (expected_share_commitment g own k) k received) shares)

module _ {F G P : Type 0} {f : Field F} (g : Curve f G) (enc : Encoding F G)
    (zk : ZkEvrf F G P) where
  unfoldable pub round1 :
      ℕ
      → F
      → List (ℕ × G)
      → F
      → List G
      → Received F G P
      → F
      → Bytes
      → Outcome DkgError (DkgOutput F G)
  round1 id sk peers own_share own_vss_commitment received beta session_id = do
    check_sessions received session_id
    verify_messages g zk peers beta received
    secret_share ← decrypt_all g enc id sk peers beta own_share received
    own_key ← or_panic (first own_vss_commitment)
    public_key ← sum_keys g own_key received
    ok (record {
      public_key = public_key;
      public_key_shares = key_shares g own_vss_commitment received 1 (length peers % u32_mod) [];
      secret_share = secret_share;
    })
