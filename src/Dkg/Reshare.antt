-- ===== src/Dkg/Reshare.antt =====
-- Resharing to a new group: golden-dkg/src/reshare_protocol.rs, golden-dkg/src/reshare.rs and
-- `ReshareError` of golden-dkg/src/error.rs. A map is visited in the order of its list.
pub mod Dealing
pub mod Dealers
pub mod Secret
pub mod Honest
pub mod Errors
pub mod Panics
pub mod Aggregation
pub mod Interface
use golden_rs.Common.{
  ℕ, ◌%◌, u32_mod, suc, Bool, not, Bytes, List, [], ◌∷◌, Option, none, some, length, ltb,
  if◌then◌else◌, ◌==◌, nat_eq, bytes_eq, lookup, insert, map,
}
use golden_rs.Algebra.{Field, Curve, Rng, Encoding}
use golden_rs.Shamir.{Polynomial, new_random, evaluate}
use golden_rs.Vss.{commit, expected_share_commitment}
use golden_rs.Evrf.{derive_pad}
use golden_rs.Dkg.Outcome.{Outcome, ok, err, ◌>>=◌, ◌>>◌, or_panic, ok_or}
use golden_rs.Dkg.Types.{Ciphertext, MessageHeader, ReshareMsg, DkgOutput}
use golden_rs.Dkg.Round0.{degree_of}
use golden_rs.Dkg.Round1.{first, ciphertext_matches}

pub data ReshareError : Type 0 where
  ciphertext_verification_failed : ℕ → ℕ → ReshareError
  missing_ciphertext : ℕ → ℕ → ReshareError
  insufficient_dealers : ℕ → ℕ → ReshareError
  broadcast_receive_failed : ℕ → Bytes → ReshareError
  registration_failed : ℕ → Bytes → ReshareError
  duplicate_node_index : ℕ → ReshareError
  no_messages : ReshareError
  session_mismatch : ℕ → ReshareError

-- The received dealings, by sender.
abbrev pub Dealings : Type 0 → Type 0 → Type 0
Dealings F G = List (ℕ × ReshareMsg F G)

module _ {F G : Type 0} {f : Field F} (g : Curve f G) (enc : Encoding F G) where
  -- The loop over the new members.
  unfoldable pub seal_members :
      Polynomial F
      → F
      → Bytes
      → F
      → List (ℕ × G)
      → List (ℕ × Ciphertext F G)
      → List (ℕ × Ciphertext F G)
  seal_members poly old_sk_identity random_msg beta [] ciphertexts = ciphertexts
  seal_members poly old_sk_identity random_msg beta ((new_id, new_pk) ∷ rest) ciphertexts =
      let share_for_new = evaluate f poly (f.from_u64 new_id) in
      let pad = derive_pad g enc old_sk_identity new_pk random_msg beta in
      let ct : Ciphertext F G = record {
        r_commitment = pad.1;
        encrypted_share = f.add pad.0 share_for_new;
      } in
      seal_members poly old_sk_identity random_msg beta rest (insert new_id ct ciphertexts)

module _ {F G R : Type 0} {f : Field F} (g : Curve f G) (enc : Encoding F G) (rng : Rng R F) where
  unfoldable pub reshare_deal : ℕ → F → F → List (ℕ × G) → ℕ → F → R → Bytes → ReshareMsg F G × R
  reshare_deal old_id old_share old_sk_identity new_members t_new beta r session_id =
      let (poly, r1) = new_random rng old_share (degree_of t_new) r in
      let (random_msg, r2) = rng.fill32 r1 in
      (
        record {
          reshare_header = record {
            session_id = session_id;
            sender = old_id;
            random_msg = random_msg;
            vss_commitment = commit g poly;
            ciphertexts = seal_members g enc poly old_sk_identity random_msg beta new_members [];
          };
        },
        r2,
      )

module _ {F G : Type 0} where
  unfoldable pub check_dealing_sessions : Dealings F G → Bytes → Outcome ReshareError (Unit {0})
  check_dealing_sessions [] session_id = ok tt
  check_dealing_sessions ((sender, msg) ∷ rest) session_id =
      if not (msg.reshare_header.session_id == session_id)
      then err (session_mismatch sender)
      else check_dealing_sessions rest session_id

module _ {F G : Type 0} {f : Field F} (g : Curve f G) where
  -- A known key share must be the first commitment; an empty commitment panics.
  unfoldable pub check_key_share : ℕ → ℕ → List G → List (ℕ × G) → Outcome ReshareError (Unit {0})
  check_key_share sender recipient commitment old_pk_shares = elim (lookup sender old_pk_shares) [
    | none ↦ ok tt
    | some expected_pk_share ↦ do
      a0 ← or_panic (first commitment)
      (if not (◌==◌ ⦃e = g.eq⦄ a0 expected_pk_share)
          then err (ciphertext_verification_failed sender recipient)
          else ok tt)
  ]

  unfoldable pub check_sub_shares :
      ℕ → List G → List (ℕ × Ciphertext F G) → Outcome ReshareError (Unit {0})
  check_sub_shares sender commitment [] = ok tt
  check_sub_shares sender commitment ((recipient, ct) ∷ rest) =
      if not (ciphertext_matches g commitment recipient ct)
      then err (ciphertext_verification_failed sender recipient)
      else check_sub_shares sender commitment rest

  unfoldable pub verify_dealings : ℕ → List (ℕ × G) → Dealings F G → Outcome ReshareError (Unit {0})
  verify_dealings new_id old_pk_shares [] = ok tt
  verify_dealings new_id old_pk_shares ((sender, msg) ∷ rest) = do
    let header = msg.reshare_header
    check_key_share sender new_id header.vss_commitment old_pk_shares
    check_sub_shares sender header.vss_commitment header.ciphertexts
    verify_dealings new_id old_pk_shares rest

module _ {F G : Type 0} {f : Field F} (g : Curve f G) (enc : Encoding F G) where
  unfoldable pub decrypt_sub_share :
      ℕ → F → List (ℕ × G) → F → ℕ → ReshareMsg F G → Outcome ReshareError F
  decrypt_sub_share new_id new_sk_identity old_members beta sender msg = do
    let header = msg.reshare_header
    ct ← ok_or (lookup new_id header.ciphertexts) (missing_ciphertext sender new_id)
    sender_pk ← or_panic (lookup sender old_members)
    let pad = derive_pad g enc new_sk_identity sender_pk header.random_msg beta
    ok (f.add ct.encrypted_share (f.neg pad.0))

  -- `sub_shares`, in the order of the dealings.
  unfoldable pub decrypt_sub_shares :
      ℕ → F → List (ℕ × G) → F → Dealings F G → Outcome ReshareError (List (ℕ × F))
  decrypt_sub_shares new_id new_sk_identity old_members beta [] = ok []
  decrypt_sub_shares new_id new_sk_identity old_members beta ((sender, msg) ∷ rest) = do
    decrypted ← decrypt_sub_share new_id new_sk_identity old_members beta sender msg
    sub_shares ← decrypt_sub_shares new_id new_sk_identity old_members beta rest
    ok ((sender, decrypted) ∷ sub_shares)

module _ {F : Type 0} (f : Field F) where
  -- The inner loop: L_i(0) by positions, from position `j` on.
  unfoldable pub coefficient_loop : ℕ → ℕ → ℕ → F → List (ℕ × F) → Outcome ReshareError F
  coefficient_loop i xi_id j li [] = ok li
  coefficient_loop i xi_id j li ((xj_id, _) ∷ rest) = do
    li' ←
        (if i == j then ok li else (do
          let xj = f.from_u64 xj_id
          inv ← ok_or (f.inverse (f.add xj (f.neg (f.from_u64 xi_id)))) (duplicate_node_index xi_id)
          ok (f.mul li (f.mul xj inv))))
    coefficient_loop i xi_id (suc j) li' rest

  -- The outer loop, from position `i` on.
  unfoldable pub aggregate_loop : List (ℕ × F) → ℕ → F → List (ℕ × F) → Outcome ReshareError F
  aggregate_loop sub_shares i new_secret_share [] = ok new_secret_share
  aggregate_loop sub_shares i new_secret_share ((xi_id, sub_share) ∷ rest) = do
    li ← coefficient_loop i xi_id 0 (f.from_u64 1) sub_shares
    aggregate_loop sub_shares (suc i) (f.add new_secret_share (f.mul sub_share li)) rest

module _ {F G : Type 0} {f : Field F} (g : Curve f G) where
  -- The key share of the new member `k`.
  unfoldable pub new_key_share :
      Dealings F G → List (ℕ × F) → ℕ → ℕ → G → List (ℕ × F) → Outcome ReshareError G
  new_key_share received sub_shares k i pk_k [] = ok pk_k
  new_key_share received sub_shares k i pk_k ((sender_id, _) ∷ rest) = do
    li ← coefficient_loop f i sender_id 0 (f.from_u64 1) sub_shares
    msg ← or_panic (lookup sender_id received)
    let share_comm = expected_share_commitment g msg.reshare_header.vss_commitment k
    new_key_share received sub_shares k (suc i) (g.add pk_k (g.smul share_comm li)) rest

  unfoldable pub new_key_shares :
      Dealings F G → List (ℕ × F) → List ℕ → List (ℕ × G) → Outcome ReshareError (List (ℕ × G))
  new_key_shares received sub_shares [] public_key_shares = ok public_key_shares
  new_key_shares received sub_shares (k ∷ rest) public_key_shares = do
    pk_k ← new_key_share received sub_shares k 0 g.zero sub_shares
    new_key_shares received sub_shares rest (insert k pk_k public_key_shares)

module _ {F G : Type 0} {f : Field F} (g : Curve f G) (enc : Encoding F G) where
  unfoldable pub reshare_receive :
      ℕ
      → F
      → List (ℕ × G)
      → Dealings F G
      → F
      → G
      → List (ℕ × G)
      → ℕ
      → Bytes
      → Outcome ReshareError (DkgOutput F G)
  reshare_receive new_id new_sk_identity old_members received beta original_pk old_pk_shares t_old
        session_id =
      check_dealing_sessions received session_id
      >> (if ltb (length received % u32_mod) t_old
          then err (insufficient_dealers t_old (length received % u32_mod))
          else (do
            verify_dealings g new_id old_pk_shares received
            sub_shares ← decrypt_sub_shares g enc new_id new_sk_identity old_members beta received
            new_secret_share ← aggregate_loop f sub_shares 0 (f.from_u64 0) sub_shares
            first_msg ← ok_or (first received) no_messages
            let new_member_ids = map (λ c. c.0) first_msg.1.reshare_header.ciphertexts
            public_key_shares ← new_key_shares g received sub_shares new_member_ids []
            ok (record {
              public_key = original_pk;
              public_key_shares = public_key_shares;
              secret_share = new_secret_share;
            })))
