-- ===== src/Dkg/Dealing/Seals.antt =====
-- The sealing loop of an honest dealer (golden-dkg/src/protocol.rs, round0): its ciphertexts pass
-- the check, and every peer has its own.

use golden_rs.Common.{
  ℕ, zero, suc, ◌+◌, ◌≤◌, ◌<◌, ◌≡◌, ◌≢◌, subst, sym, ap, ap₂, ◌∙◌, true, false, Bytes, List, [],
  ◌∷◌, some, arith, lookup, insert, lookup-insert, nat_eq, ◌==◌, Option-cases, inl, inr, Bool-cases,
}
use golden_rs.Algebra.{Field, Curve, Encoding}
use golden_rs.Shamir.{Polynomial, evaluate}
use golden_rs.Vss.{commit}
use golden_rs.Vss.Soundness.{expected_share_commitment-commit}
use golden_rs.Evrf.{derive_pad, pad_of}
use golden_rs.Dkg.Outcome.{ok}
use golden_rs.Dkg.Types.{Ciphertext}
use golden_rs.Dkg.Round0.{Sealed, share_map, seal_for, seal_loop}
use golden_rs.Dkg.Round1.{ciphertext_matches, check_ciphertexts}

module _ {F G : Type 0} {f : Field F} (g : Curve f G) where
  -- The check still passes when a matching ciphertext is inserted.
  pub check-insert :
      (sender : ℕ) (commitment : List G) (k : ℕ) (ct : Ciphertext F G)
      (cts : List (ℕ × Ciphertext F G))
      → ciphertext_matches g commitment k ct ≡ true
      → check_ciphertexts g sender commitment cts ≡ ok tt
      → check_ciphertexts g sender commitment (insert k ct cts) ≡ ok tt
  unfolding check_ciphertexts insert
  check-insert sender commitment k ct [] now e = ground arith
  check-insert sender commitment k ct ((j, c) ∷ rest) now e =
      ground (arith, check-insert sender commitment k ct rest)

-- Keys that differ from `k`, and keys that all differ, as in a map.
abbrev pub Fresh : {V : Type 0} → ℕ → List (ℕ × V) → Type 0
Fresh k [] = Unit {0}
Fresh k ((j, v) ∷ rest) = (j ≢ k) × Fresh k rest

abbrev pub DistinctKeys : {V : Type 0} → List (ℕ × V) → Type 0
DistinctKeys [] = Unit {0}
DistinctKeys ((j, v) ∷ rest) = Fresh j rest × DistinctKeys rest

module _ {F : Type 0} (f : Field F) where
  pub share_map-value :
      (poly : Polynomial F) (k left j : ℕ) {share : F}
      → lookup j (share_map f poly k left) ≡ some share
      → share ≡ evaluate f poly (f.from_u64 j)
  unfolding share_map
  share_map-value poly k zero j e = absurd (unfold lookup in cc)
  share_map-value poly k (suc left) j {share = x} e = ground (
    arith,
    lookup-insert k j (evaluate f poly (f.from_u64 k)) (share_map f poly (suc k) left),
    share_map-value poly (suc k) left j {share = x},
  )

  share_map-total :
      (poly : Polynomial F) (k left j : ℕ)
      → k ≤ j
      → j < k + left
      → lookup j (share_map f poly k left) ≡ some (evaluate f poly (f.from_u64 j))
  unfolding share_map
  share_map-total poly k zero j h b = absurd (omega arith)
  share_map-total poly k (suc left) j h b = ground (
    arith,
    lookup-insert k j (evaluate f poly (f.from_u64 k)) (share_map f poly (suc k) left),
    share_map-total poly (suc k) left j,
  )

module _ {F G : Type 0} {f : Field F} (g : Curve f G) (enc : Encoding F G) where
  -- The ciphertext that an honest dealer makes for one recipient.
  abbrev pub honest_ciphertext : Polynomial F → F → Bytes → F → ℕ → G → Ciphertext F G
  honest_ciphertext poly sk random_msg beta j pk =
      let pad = derive_pad g enc sk pk random_msg beta in
      record {
        r_commitment = pad.1;
        encrypted_share = f.add pad.0 (evaluate f poly (f.from_u64 j));
      }

  pub honest_ciphertext_matches :
      (poly : Polynomial F) (sk : F) (random_msg : Bytes) (beta : F) (j : ℕ) (pk : G)
      → ciphertext_matches g (commit g poly) j (honest_ciphertext poly sk random_msg beta j pk)
        ≡ true
  unfolding ciphertext_matches derive_pad pad_of
  honest_ciphertext_matches poly sk random_msg beta j pk =
      (g.eq.beq_iff _ _).1 (
        g.smul-add g.generator _ _ ∙ ap (g.add _) (sym (expected_share_commitment-commit g poly j)))

  seal_for-honest :
      (poly : Polynomial F) (n : ℕ) (sk : F) (random_msg : Bytes) (beta : F) (j : ℕ) (pk : G)
      (s : Sealed F G) {s' : Sealed F G}
      → seal_for g enc sk random_msg beta (share_map f poly 1 n) j pk s ≡ some s'
      → s'.ciphertexts ≡ insert j (honest_ciphertext poly sk random_msg beta j pk) s.ciphertexts
  unfolding seal_for
  seal_for-honest poly n sk random_msg beta j pk s e =
      elim (Option-cases (lookup j (share_map f poly 1 n))) [
        | inl stops ↦ absurd (ground (arith, e, stops))
        | inr (share, found) ↦ ground (arith, e, found, share_map-value f poly 1 n j found)
      ]

  -- A round of the loop for the dealer itself, and one for another peer.
  seal_loop-own :
      (poly : Polynomial F) (n id : ℕ) (sk : F) (random_msg : Bytes) (beta : F) (j : ℕ) (pk : G)
      (rest : List (ℕ × G)) (s t : Sealed F G)
      → (j == id) ≡ true
      → seal_loop g enc id sk random_msg beta (share_map f poly 1 n) ((j, pk) ∷ rest) s ≡ some t
      → seal_loop g enc id sk random_msg beta (share_map f poly 1 n) rest s ≡ some t
  unfolding seal_loop
  seal_loop-own poly n id sk random_msg beta j pk rest s t own e = ground (arith, e, own)

  seal_loop-other :
      (poly : Polynomial F) (n id : ℕ) (sk : F) (random_msg : Bytes) (beta : F) (j : ℕ) (pk : G)
      (rest : List (ℕ × G)) (s t : Sealed F G)
      → (j == id) ≡ false
      → seal_loop g enc id sk random_msg beta (share_map f poly 1 n) ((j, pk) ∷ rest) s ≡ some t
      → (s1 : Sealed F G) × (s1.ciphertexts
          ≡ insert j (honest_ciphertext poly sk random_msg beta j pk) s.ciphertexts)
        × (seal_loop g enc id sk random_msg beta (share_map f poly 1 n) rest s1 ≡ some t)
  unfolding seal_loop
  seal_loop-other poly n id sk random_msg beta j pk rest s t other e =
      elim (Option-cases (seal_for g enc sk random_msg beta (share_map f poly 1 n) j pk s)) [
        | inl stops ↦ absurd (ground (arith, e, other, stops))
        | inr (s1, now) ↦ (
          s1,
          seal_for-honest poly n sk random_msg beta j pk s now,
          ground (arith, e, other, now),
        )
      ]

  pub seal_loop-checks :
      (poly : Polynomial F) (n id : ℕ) (sk : F) (random_msg : Bytes) (beta : F)
      (peers : List (ℕ × G)) (s : Sealed F G) {s' : Sealed F G}
      → check_ciphertexts g id (commit g poly) s.ciphertexts ≡ ok tt
      → seal_loop g enc id sk random_msg beta (share_map f poly 1 n) peers s ≡ some s'
      → check_ciphertexts g id (commit g poly) s'.ciphertexts ≡ ok tt
  unfolding seal_loop
  seal_loop-checks poly n id sk random_msg beta [] s c e = ground (arith, e)
  seal_loop-checks poly n id sk random_msg beta ((j, pk) ∷ rest) s {s' = t} c e =
      elim (Bool-cases (j == id)) [
        | inl own ↦
            seal_loop-checks poly n id sk random_msg beta rest s {s' = t} c
              (seal_loop-own poly n id sk random_msg beta j pk rest s t own e)
        | inr other ↦
            let (s1, now, later) =
              seal_loop-other poly n id sk random_msg beta j pk rest s t other e in
            seal_loop-checks poly n id sk random_msg beta rest s1 {s' = t}
              (rw now (
                check-insert g id (commit g poly) j _ s.ciphertexts
                  (honest_ciphertext_matches poly sk random_msg beta j pk) c))
              later
      ]

  -- The entry of one recipient is not touched by the other ones.
  seal_loop-Fresh :
      (poly : Polynomial F) (n id : ℕ) (sk : F) (random_msg : Bytes) (beta : F)
      (peers : List (ℕ × G)) (s : Sealed F G) (j : ℕ) {s' : Sealed F G}
      → Fresh j peers
      → seal_loop g enc id sk random_msg beta (share_map f poly 1 n) peers s ≡ some s'
      → lookup j s'.ciphertexts ≡ lookup j s.ciphertexts
  unfolding seal_loop
  seal_loop-Fresh poly n id sk random_msg beta [] s j fresh e = ground (arith, e)
  seal_loop-Fresh poly n id sk random_msg beta ((k, pk) ∷ rest) s j {s' = t} fresh e =
      elim (Bool-cases (k == id)) [
        | inl own ↦
            seal_loop-Fresh poly n id sk random_msg beta rest s j {s' = t} fresh.1
              (seal_loop-own poly n id sk random_msg beta k pk rest s t own e)
        | inr other ↦
            let (s1, now, later) =
              seal_loop-other poly n id sk random_msg beta k pk rest s t other e in
            let ct = honest_ciphertext poly sk random_msg beta k pk in
            seal_loop-Fresh poly n id sk random_msg beta rest s1 j {s' = t} fresh.1 later
            ∙ ap (lookup j) now
            ∙ ground (arith, lookup-insert k j ct s.ciphertexts, fresh.0)
      ]

  -- Every other peer has its ciphertext in the sealed map.
  pub seal_loop-lookup :
      (poly : Polynomial F) (n id : ℕ) (sk : F) (random_msg : Bytes) (beta : F)
      (peers : List (ℕ × G)) (s : Sealed F G) (j : ℕ) (pk : G) {s' : Sealed F G}
      → DistinctKeys peers
      → lookup j peers ≡ some pk
      → j ≢ id
      → seal_loop g enc id sk random_msg beta (share_map f poly 1 n) peers s ≡ some s'
      → lookup j s'.ciphertexts ≡ some (honest_ciphertext poly sk random_msg beta j pk)
  unfolding seal_loop lookup
  seal_loop-lookup poly n id sk random_msg beta [] s j pk d l ne e = absurd (cc)
  seal_loop-lookup poly n id sk random_msg beta ((k, qk) ∷ rest) s j pk {s' = t} d l ne e =
      elim (Bool-cases (k == id)) [
        | inl own ↦
            seal_loop-lookup poly n id sk random_msg beta rest s j pk {s' = t} d.1
              (ground (arith, l, own)) ne
              (seal_loop-own poly n id sk random_msg beta k qk rest s t own e)
        | inr other ↦
            let (s1, now, later) =
              seal_loop-other poly n id sk random_msg beta k qk rest s t other e in
            elim (Bool-cases (k == j)) [
              | inl same ↦
                  let kj : k ≡ j = ground (arith, same) in
                  let qp : qk ≡ pk = ground (arith, l, same) in
                  let ct = honest_ciphertext poly sk random_msg beta k qk in
                  seal_loop-Fresh poly n id sk random_msg beta rest s1 j {s' = t}
                    (subst (λ x. Fresh x rest) kj d.0) later
                  ∙ ap (lookup j) now
                  ∙ lookup-insert k j ct s.ciphertexts
                  ∙ rw same
                      (ap₂ (λ x y. some (honest_ciphertext poly sk random_msg beta x y)) kj qp)
              | inr differ ↦
                  seal_loop-lookup poly n id sk random_msg beta rest s1 j pk {s' = t} d.1
                    (ground (arith, l, differ)) ne later
            ]
      ]
