-- ===== src/Dkg/Reshare/Panics.antt =====
-- The resharing does not panic (golden-dkg/src/reshare_protocol.rs).

use golden_rs.Common.{
  ℕ, suc, ◌%◌, u32_mod, ltb, ◌≡◌, ◌≢◌, refl, ap, subst, ◌∙◌, Bool, true, false, Bytes, List, [],
  ◌∷◌, length, arith, All, Option, none, some, lookup, insert, nat_eq, bytes_eq, ◌==◌, Option-cases,
  inl, inr, if◌then◌else◌,
}
use golden_rs.Algebra.{Field, Curve, Encoding}
use golden_rs.Shamir.Interpolation.{ids}
use golden_rs.Dkg.Outcome.{Outcome, ok, err, panic, or_panic, ok_or, ◌>>=◌, >>=-eq-ok, ok_value}
use golden_rs.Dkg.Types.{Ciphertext, ReshareMsg}
use golden_rs.Dkg.Round1.{first}
use golden_rs.Dkg.Reshare.{
  Dealings, duplicate_node_index, no_messages, missing_ciphertext, check_dealing_sessions,
  check_key_share, check_sub_shares, verify_dealings, decrypt_sub_share, decrypt_sub_shares,
  coefficient_loop, aggregate_loop, new_key_share, new_key_shares, reshare_receive,
}

-- A call that does not panic.
abbrev Returns : {E A : Type 0} → Outcome E A → Type 0
Returns o = o ≢ panic

bind-Returns :
    {E A B : Type 0} (m : Outcome E A) (k : A → Outcome E B)
    → Returns m
    → ((a : A) → m ≡ ok a → Returns (k a))
    → Returns (m >>= k)
bind-Returns (ok a) k h each = each a refl
bind-Returns (err e) k h each = λ q. cc
bind-Returns panic k h each = absurd (h refl)

ok_or-Returns : {E A : Type 0} (o : Option A) (e : E) → Returns (ok_or o e)
ok_or-Returns none e = λ q. cc
ok_or-Returns (some a) e = λ q. cc

or_panic-Returns : {E A : Type 0} (o : Option A) → o ≢ none → Returns (or_panic {E = E} o)
or_panic-Returns none h = absurd (h refl)
or_panic-Returns (some a) h = λ q. cc

if-Returns :
    {E A : Type 0} (test : Bool) (x y : Outcome E A)
    → Returns x
    → Returns y
    → Returns (if test then x else y)
if-Returns true x y p q = p
if-Returns false x y p q = q

err-Returns : {E A : Type 0} (e : E) → Returns {E = E} {A = A} (err e)
err-Returns e = λ q. cc

ok-Returns : {E A : Type 0} (a : A) → Returns {E = E} {A = A} (ok a)
ok-Returns a = λ q. cc

module _ {F G : Type 0} where
  check_dealing_sessions-Returns :
      (received : Dealings F G) (session_id : Bytes)
      → Returns (check_dealing_sessions received session_id)
  unfolding check_dealing_sessions
  check_dealing_sessions-Returns [] session_id = ok-Returns tt
  check_dealing_sessions-Returns (d ∷ rest) session_id =
      if-Returns _ _ _ (err-Returns _) (check_dealing_sessions-Returns rest session_id)

module _ {F G : Type 0} {f : Field F} (g : Curve f G) where
  check_key_share-Returns :
      (sender recipient : ℕ) (commitment : List G) (old_pk_shares : List (ℕ × G))
      → first commitment ≢ none
      → Returns (check_key_share g sender recipient commitment old_pk_shares)
  unfolding check_key_share
  check_key_share-Returns sender recipient commitment old_pk_shares h =
      elim (Option-cases (lookup sender old_pk_shares)) [
        | inl unknown ↦ ground (arith, unknown)
        | inr (p, known) ↦ elim (Option-cases (first commitment)) [
          | inl stops ↦ absurd (h stops)
          | inr (a, starts) ↦ ground (arith, starts, known)
        ]
      ]

  check_sub_shares-Returns :
      (sender : ℕ) (commitment : List G) (cts : List (ℕ × Ciphertext F G))
      → Returns (check_sub_shares g sender commitment cts)
  unfolding check_sub_shares
  check_sub_shares-Returns sender commitment [] = ok-Returns tt
  check_sub_shares-Returns sender commitment (c ∷ rest) =
      if-Returns _ _ _ (err-Returns _) (check_sub_shares-Returns sender commitment rest)

  -- A dealing with a commitment, of a known old member.
  abbrev pub Usable : List (ℕ × G) → ℕ × ReshareMsg F G → Type 0
  Usable old_members (sender, msg) =
      (first msg.reshare_header.vss_commitment ≢ none) × (lookup sender old_members ≢ none)

  verify_dealings-Returns :
      (new_id : ℕ) (old_members old_pk_shares : List (ℕ × G)) (received : Dealings F G)
      → All (Usable old_members) received
      → Returns (verify_dealings g new_id old_pk_shares received)
  unfolding verify_dealings
  verify_dealings-Returns new_id old_members old_pk_shares [] usable = ok-Returns tt
  verify_dealings-Returns new_id old_members old_pk_shares ((sender, msg) ∷ rest) usable =
      let header = msg.reshare_header in
      bind-Returns (check_key_share g sender new_id header.vss_commitment old_pk_shares) _
        (check_key_share-Returns sender new_id header.vss_commitment old_pk_shares usable.0.0)
        (λ a p.
          bind-Returns (check_sub_shares g sender header.vss_commitment header.ciphertexts) _
            (check_sub_shares-Returns sender header.vss_commitment header.ciphertexts)
            (λ b q. verify_dealings-Returns new_id old_members old_pk_shares rest usable.1))

module _ {F : Type 0} (f : Field F) where
  coefficient_loop-Returns :
      (i id j : ℕ) (li : F) (rest : List (ℕ × F)) → Returns (coefficient_loop f i id j li rest)
  unfolding coefficient_loop
  coefficient_loop-Returns i id j li [] = ok-Returns li
  coefficient_loop-Returns i id j li ((x, y) ∷ rest) =
      bind-Returns _ _
        (if-Returns (i == j) (ok li) _ (ok-Returns li) (
          bind-Returns
            (ok_or (f.inverse (f.add (f.from_u64 x) (f.neg (f.from_u64 id))))
              (duplicate_node_index id))
            _ (ok_or-Returns _ _) (λ a p. ok-Returns _)))
        (λ li' p. coefficient_loop-Returns i id (suc j) li' rest)

  aggregate_loop-Returns :
      (all : List (ℕ × F)) (i : ℕ) (result : F) (rest : List (ℕ × F))
      → Returns (aggregate_loop f all i result rest)
  unfolding aggregate_loop
  aggregate_loop-Returns all i result [] = ok-Returns result
  aggregate_loop-Returns all i result ((x, y) ∷ rest) =
      bind-Returns (coefficient_loop f i x 0 (f.from_u64 1) all) _
        (coefficient_loop-Returns i x 0 (f.from_u64 1) all)
        (λ li p. aggregate_loop-Returns all (suc i) _ rest)

module _ {F G : Type 0} {f : Field F} (g : Curve f G) where
  new_key_share-Returns :
      (received : Dealings F G) (all : List (ℕ × F)) (k i : ℕ) (pk_k : G) (rest : List (ℕ × F))
      → All (λ x. lookup x received ≢ none) (ids rest)
      → Returns (new_key_share g received all k i pk_k rest)
  unfolding new_key_share
  new_key_share-Returns received all k i pk_k [] found = ok-Returns pk_k
  new_key_share-Returns received all k i pk_k ((x, y) ∷ rest) found =
      bind-Returns (coefficient_loop f i x 0 (f.from_u64 1) all) _
        (coefficient_loop-Returns f i x 0 (f.from_u64 1) all)
        (λ li p.
          bind-Returns (or_panic (lookup x received)) _
            (or_panic-Returns (lookup x received) found.0)
            (λ msg q. new_key_share-Returns received all k (suc i) _ rest found.1))

  new_key_shares-Returns :
      (received : Dealings F G) (all : List (ℕ × F)) (members : List ℕ) (keys : List (ℕ × G))
      → All (λ x. lookup x received ≢ none) (ids all)
      → Returns (new_key_shares g received all members keys)
  unfolding new_key_shares
  new_key_shares-Returns received all [] keys found = ok-Returns keys
  new_key_shares-Returns received all (k ∷ rest) keys found =
      bind-Returns (new_key_share g received all k 0 g.zero all) _
        (new_key_share-Returns received all k 0 g.zero all found)
        (λ pk_k p. new_key_shares-Returns received all rest (insert k pk_k keys) found)

if-ne-none :
    {V : Type 0} (test : Bool) (y : V) (o : Option V)
    → o ≢ none
    → (if test then some y else o) ≢ none
if-ne-none true y o h = λ q. cc
if-ne-none false y o h = h

lookup_first :
    {V : Type 0} (rest entries : List (ℕ × V)) (x : ℕ) (y : V)
    → All (λ i. lookup i entries ≢ none) (ids rest)
    → All (λ i. lookup i ((x, y) ∷ entries) ≢ none) (ids rest)
unfolding lookup
lookup_first [] entries x y found = tt
lookup_first ((i, v) ∷ rest) entries x y found =
    (if-ne-none (x == i) y (lookup i entries) found.0, lookup_first rest entries x y found.1)

lookup-ids :
    {V : Type 0} (entries : List (ℕ × V)) → All (λ i. lookup i entries ≢ none) (ids entries)
unfolding lookup
lookup-ids [] = tt
lookup-ids ((x, y) ∷ rest) = (ground arith, lookup_first rest rest x y (lookup-ids rest))

module _ {F G : Type 0} {f : Field F} (g : Curve f G) (enc : Encoding F G) where
  decrypt_sub_shares-Returns :
      (new_id : ℕ) (sk : F) (old_members : List (ℕ × G)) (beta : F) (received : Dealings F G)
      → All (Usable g old_members) received
      → Returns (decrypt_sub_shares g enc new_id sk old_members beta received)
  unfolding decrypt_sub_shares decrypt_sub_share
  decrypt_sub_shares-Returns new_id sk old_members beta [] usable = ok-Returns []
  decrypt_sub_shares-Returns new_id sk old_members beta ((sender, msg) ∷ rest) usable =
      bind-Returns (decrypt_sub_share g enc new_id sk old_members beta sender msg) _
        (bind-Returns
          (ok_or (lookup new_id msg.reshare_header.ciphertexts) (missing_ciphertext sender new_id))
          _ (ok_or-Returns _ _)
          (λ ct p.
            bind-Returns (or_panic (lookup sender old_members)) _
              (or_panic-Returns (lookup sender old_members) usable.0.1) (λ pk q. ok-Returns _)))
        (λ x p.
          bind-Returns (decrypt_sub_shares g enc new_id sk old_members beta rest) _
            (decrypt_sub_shares-Returns new_id sk old_members beta rest usable.1)
            (λ xs q. ok-Returns _))

  decrypt_sub_shares-ids :
      (new_id : ℕ) (sk : F) (old_members : List (ℕ × G)) (beta : F) (received : Dealings F G)
      (subs : List (ℕ × F))
      → decrypt_sub_shares g enc new_id sk old_members beta received ≡ ok subs
      → ids received ≡ ids subs
  unfolding decrypt_sub_shares
  decrypt_sub_shares-ids new_id sk old_members beta [] subs e = ap ids (ok_value _ _ e)
  decrypt_sub_shares-ids new_id sk old_members beta ((sender, msg) ∷ rest) subs e =
      let (x, now, e1) =
        >>=-eq-ok (decrypt_sub_share g enc new_id sk old_members beta sender msg) _ e in
      let (xs, later, e2) =
        >>=-eq-ok (decrypt_sub_shares g enc new_id sk old_members beta rest) _ e1 in
      ap (◌∷◌ sender) (decrypt_sub_shares-ids new_id sk old_members beta rest xs later)
      ∙ ap ids (ok_value _ _ e2)

  -- `reshare_receive` does not panic, whatever the dealings say, if every sender is one of the
  -- old members and every dealing has a commitment that is not empty.
  pub reshare_receive-ne-panic :
      (new_id : ℕ) (sk : F) (old_members : List (ℕ × G)) (received : Dealings F G) (beta : F)
      (original_pk : G) (old_pk_shares : List (ℕ × G)) (t_old : ℕ) (session_id : Bytes)
      → All (Usable g old_members) received
      → reshare_receive g enc new_id sk old_members received beta original_pk old_pk_shares t_old
          session_id
        ≢ panic
  unfolding reshare_receive
  reshare_receive-ne-panic new_id sk old_members received beta original_pk old_pk_shares t_old
        session_id usable =
      bind-Returns (check_dealing_sessions received session_id) _
        (check_dealing_sessions-Returns received session_id)
        (λ a p. if-Returns (ltb (length received % u32_mod) t_old) _ _ (err-Returns _) (
          bind-Returns (verify_dealings g new_id old_pk_shares received) _
            (verify_dealings-Returns g new_id old_members old_pk_shares received usable)
            (λ b q.
              bind-Returns (decrypt_sub_shares g enc new_id sk old_members beta received) _
                (decrypt_sub_shares-Returns new_id sk old_members beta received usable)
                (λ subs is.
                  bind-Returns (aggregate_loop f subs 0 (f.from_u64 0) subs) _
                    (aggregate_loop-Returns f subs 0 (f.from_u64 0) subs)
                    (λ share r.
                      bind-Returns (ok_or (first received) no_messages) _ (ok_or-Returns _ _)
                        (λ d s.
                          bind-Returns _ _
                            (new_key_shares-Returns g received subs _ [] (
                              subst (All (λ i. lookup i received ≢ none))
                                (decrypt_sub_shares-ids new_id sk old_members beta received subs is)
                                (lookup-ids received)))
                            (λ keys t. ok-Returns _)))))))
