-- ===== src/Dkg/Round0.antt =====
-- Round 0, the dealing: `round0` and `round0_refresh` of golden-dkg/src/protocol.rs. The two differ
-- in the secret that is dealt; their common rest is `deal`.
use golden_rs.Common.{
  ℕ, zero, suc, ◌+◌, ◌-◌, ◌%◌, Bytes, List, [], ◌∷◌, Option, some, if◌then◌else◌, ◌==◌, nat_eq,
  ◌>>=◌, lookup, insert, map, u32_mod,
}
use golden_rs.Algebra.{Field, Curve, Rng, Encoding}
use golden_rs.Shamir.{Polynomial, new_random, evaluate}
use golden_rs.Vss.{commit}
use golden_rs.Evrf.{derive_pad}
use golden_rs.Dkg.Types.{Ciphertext, MessageHeader, Round0Msg, ZkEvrf}

-- `(t - 1) as usize` on a `u32`, in the build that wraps.
abbrev pub degree_of : ℕ → ℕ
degree_of t = (t + (u32_mod - 1)) % u32_mod

-- What is encrypted so far: the ciphertexts, and the pads for the proof.
pub record Sealed (F G : Type 0) : Type 0 where
  pub ciphertexts : List (ℕ × Ciphertext F G)
  pub peer_pads : List (ℕ × (F × G))

-- The peers other than the dealer itself.
unfoldable pub others : {G : Type 0} → ℕ → List (ℕ × G) → List (ℕ × G)
others id [] = []
others id ((pid, pk) ∷ rest) = if pid == id then others id rest else (pid, pk) ∷ others id rest

module _ {F : Type 0} (f : Field F) where
  -- The shares at 1, 2, ..., n, as a map.
  unfoldable pub share_map : Polynomial F → ℕ → ℕ → List (ℕ × F)
  share_map poly j zero = []
  share_map poly j (suc left) =
      insert j (evaluate f poly (f.from_u64 j)) (share_map poly (suc j) left)

module _ {F G : Type 0} {f : Field F} (g : Curve f G) (enc : Encoding F G) where
  -- One recipient: a missing share panics.
  unfoldable pub seal_for : F → Bytes → F → List (ℕ × F) → ℕ → G → Sealed F G → Option (Sealed F G)
  seal_for sk random_msg beta all_shares peer_id peer_pk s = do
    let pad = derive_pad g enc sk peer_pk random_msg beta
    share ← lookup peer_id all_shares
    some (record {
      ciphertexts =
          insert peer_id (record { r_commitment = pad.1; encrypted_share = f.add pad.0 share })
            s.ciphertexts;
      peer_pads = insert peer_id pad s.peer_pads;
    })

  unfoldable pub seal_loop :
      ℕ → F → Bytes → F → List (ℕ × F) → List (ℕ × G) → Sealed F G → Option (Sealed F G)
  seal_loop id sk random_msg beta all_shares [] s = some s
  seal_loop id sk random_msg beta all_shares ((peer_id, peer_pk) ∷ rest) s = do
    s' ←
        (if peer_id == id then some s else seal_for sk random_msg beta all_shares peer_id peer_pk s)
    seal_loop id sk random_msg beta all_shares rest s'

module _ {F G P R : Type 0} {f : Field F} (g : Curve f G) (enc : Encoding F G) (rng : Rng R F)
    (zk : ZkEvrf F G P) where
  -- The dealing of a secret: the message to broadcast, and the dealer's own share.
  unfoldable pub deal :
      F → ℕ → ℕ → ℕ → F → List (ℕ × G) → F → Bytes → R → Option (Round0Msg F G P × F × R)
  deal secret id n t sk peers beta session_id r = do
    let (poly, r1) = new_random rng secret (degree_of t) r
    let all_shares = share_map f poly 1 n
    own_share ← lookup id all_shares
    let (random_msg, r2) = rng.fill32 r1
    s ←
        seal_loop g enc id sk random_msg beta all_shares peers
          (record { ciphertexts = []; peer_pads = [] })
    my_pk ← lookup id peers
    let pads_for_proof = map (λ p. (p.0, p.1.0, p.1.1)) s.peer_pads
    let header : MessageHeader F G = record {
      session_id = session_id;
      sender = id;
      random_msg = random_msg;
      vss_commitment = commit g poly;
      ciphertexts = s.ciphertexts;
    }
    some (
      record {
        dkg_header = header;
        evrf_proofs = [];
        batch_evrf_proof = zk.prove_batch sk my_pk (others id peers) pads_for_proof beta;
      },
      own_share,
      r2,
    )

  unfoldable pub round0 :
      ℕ → ℕ → ℕ → F → List (ℕ × G) → F → R → Bytes → Option (Round0Msg F G P × F × R)
  round0 id n t sk peers beta r session_id =
      let (secret, r1) = rng.rand_scalar r in deal secret id n t sk peers beta session_id r1

  unfoldable pub round0_refresh :
      ℕ → ℕ → ℕ → F → List (ℕ × G) → F → R → Bytes → Option (Round0Msg F G P × F × R)
  round0_refresh id n t sk peers beta r session_id = deal f.zero id n t sk peers beta session_id r
