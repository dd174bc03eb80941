-- ===== src/Dkg/Reshare/Secret.antt =====
-- The resharing keeps the secret and the key (golden-dkg/src/reshare_protocol.rs).
use mathlib.Core.Option.{some-injective}
use golden_rs.Common.{
  Bool, if◌then◌else◌, ℕ, ◌%◌, u32_mod, ◌≤◌, ltb, false, ◌≡◌, sym, ap, subst, ◌∙◌, Bytes, List, [],
  ◌∷◌, length, length-map, map, arith, All, Option, none, some, lookup, nat_eq, true, Bool-cases,
  inl, inr,
}
use golden_rs.Algebra.{Field, Curve, Encoding}
use golden_rs.Algebra.Polynomials.{value}
use golden_rs.Algebra.Polynomials.Roots.{Apart}
use golden_rs.Shamir.{Polynomial, evaluate}
use golden_rs.Shamir.Evaluation.{evaluate-value}
use golden_rs.Shamir.Interpolation.{ids, Holds, through}
use golden_rs.Threshold.Signing.Reconstruction.{nodes}
use golden_rs.Threshold.Signing.Secret.{through_unique}
use golden_rs.Dkg.Outcome.{ok_value, ok, >>=-eq-ok, ok_or}
use golden_rs.Dkg.Types.{ReshareMsg, DkgOutput}
use golden_rs.Dkg.Round1.{first}
use golden_rs.Dkg.Reshare.{
  Dealings, ReshareError, no_messages, check_dealing_sessions, verify_dealings, decrypt_sub_shares,
  aggregate_loop, check_key_share, reshare_receive,
}
use golden_rs.Dkg.Reshare.Aggregation.{
  dealt_points, combined, value-combined, length-combined, keys_at, lookup-keys_at,
}
use golden_rs.Dkg.Reshare.Dealers.{
  ids-dealt_points, Committed, reshare_receive_returns, decrypt_sub_shares-dealt_points,
}
use golden_rs.Dkg.Reshare.Dealing.{
  Verified, verify_dealings-Verified, check_key_share-secret, SubPadMatches,
}

module _ {F G : Type 0} {f : Field F} (g : Curve f G) (polys : ℕ → Polynomial F)
    (old : Polynomial F) where
  -- The old key shares of the dealers are g to the values of the old polynomial.
  abbrev pub KnownKeys : List (ℕ × G) → Dealings F G → Type 0
  KnownKeys old_pk_shares received =
      All
        (λ d.
          lookup d.0 old_pk_shares
          ≡ some (g.smul g.generator (value f old.coefficients (f.from_u64 d.0))))
        received

  dealt_secrets :
      (new_id : ℕ) (old_pk_shares : List (ℕ × G)) (received : Dealings F G)
      → All (Verified g new_id old_pk_shares) received
      → Committed g polys received
      → KnownKeys old_pk_shares received
      → All
          (λ s. s.1 ≡ value f old.coefficients (f.from_u64 s.0))
          (dealt_points f polys f.zero (ids received))
  dealt_secrets new_id old_pk_shares [] checked commits known = tt
  dealt_secrets new_id old_pk_shares ((sender, msg) ∷ rest) checked commits known = (
    check_key_share-secret g sender new_id (polys sender).coefficients _ old_pk_shares known.0 (
        subst (λ c. check_key_share g sender new_id c old_pk_shares ≡ ok tt) commits.0 checked.0.0),
    dealt_secrets new_id old_pk_shares rest checked.1 commits.1 known.1,
  )

  -- The combined polynomial has the old one's secret.
  combined_secret :
      (new_id : ℕ) (old_pk_shares : List (ℕ × G)) (received : Dealings F G)
      → Apart (nodes f (ids received))
      → length old.coefficients ≤ length received
      → All (Verified g new_id old_pk_shares) received
      → Committed g polys received
      → KnownKeys old_pk_shares received
      → value f (combined f polys (ids received) (ids received)) f.zero
        ≡ value f old.coefficients f.zero
  combined_secret new_id old_pk_shares received apart enough checked commits known =
      let dealers = ids received in
      let secrets = dealt_points f polys f.zero dealers in
      let same : ids secrets ≡ dealers = ids-dealt_points f polys f.zero dealers in
      value-combined f polys dealers dealers f.zero
      ∙ ap (λ xs. value f (through f xs secrets) f.zero) (sym same)
      ∙ through_unique f old.coefficients secrets f.zero
          (subst (λ xs. Apart (nodes f xs)) (sym same) apart)
          (omega (
            arith,
            length-map {A = ℕ × ReshareMsg F G} {B = ℕ} (λ s. s.0) received,
            length-map {A = ℕ} {B = ℕ × F} (λ i. (i, value f (polys i).coefficients f.zero))
                dealers,
            enough,
          ))
          (dealt_secrets new_id old_pk_shares received checked commits known)

-- The recipients of the first dealing.
abbrev pub new_members : {F G : Type 0} → Dealings F G → List ℕ
new_members [] = []
new_members (d ∷ rest) = map (λ c. c.0) d.1.reshare_header.ciphertexts

new_members-first :
    {F G : Type 0} (received : Dealings F G) (d : ℕ × ReshareMsg F G)
    → first received ≡ some d
    → map (λ c. c.0) d.1.reshare_header.ciphertexts ≡ new_members received
new_members-first [] d e = cc
new_members-first (x ∷ rest) d e =
    ap (λ y. map (λ c. c.0) y.1.reshare_header.ciphertexts) (sym (some-injective _ _ e))

-- What a successful call has computed on its way.
record Parts {F G : Type 0} {f : Field F} (g : Curve f G) (enc : Encoding F G) (new_id : ℕ) (sk : F)
    (old_members : List (ℕ × G)) (received : Dealings F G) (beta : F) (old_pk_shares : List (ℕ × G))
    (t_old : ℕ) (session_id : Bytes) : Type 0 where
  sub_shares : List (ℕ × F)
  head : ℕ × ReshareMsg F G
  sessions : check_dealing_sessions received session_id ≡ ok tt
  enough : ltb (length received % u32_mod) t_old ≡ false
  verified : verify_dealings g new_id old_pk_shares received ≡ ok tt
  decrypted : decrypt_sub_shares g enc new_id sk old_members beta received ≡ ok sub_shares
  starts : first received ≡ some head

otherwise :
    {A : Type 0} (test : Bool) (x y : A) {a : A}
    → test ≡ false
    → (if test then x else y) ≡ a
    → y ≡ a
otherwise true x y off e = cc
otherwise false x y off e = e

module _ {F G : Type 0} {f : Field F} (g : Curve f G) (enc : Encoding F G) where
  reshare_receive-Parts :
      (new_id : ℕ) (sk : F) (old_members : List (ℕ × G)) (received : Dealings F G) (beta : F)
      (original_pk : G) (old_pk_shares : List (ℕ × G)) (t_old : ℕ) (session_id : Bytes)
      {out : DkgOutput F G}
      → reshare_receive g enc new_id sk old_members received beta original_pk old_pk_shares t_old
          session_id
        ≡ ok out
      → Parts g enc new_id sk old_members received beta old_pk_shares t_old session_id
  unfolding reshare_receive
  reshare_receive-Parts new_id sk old_members received beta original_pk old_pk_shares t_old
        session_id e =
      let (a, sessions, e1) = >>=-eq-ok (check_dealing_sessions received session_id) _ e in
      elim (Bool-cases (ltb (length received % u32_mod) t_old)) [
        | inl few ↦ absurd (ground (arith, few, e1))
        | inr enough ↦
            let (b, verified, e3) =
              >>=-eq-ok (verify_dealings g new_id old_pk_shares received) _
                (otherwise (ltb (length received % u32_mod) t_old) _ _ enough e1) in
            let (subs, decrypted, e4) =
              >>=-eq-ok (decrypt_sub_shares g enc new_id sk old_members beta received) _ e3 in
            let (share, shared, e5) =
              >>=-eq-ok (aggregate_loop f subs 0 (f.from_u64 0) subs) _ e4 in
            let (d, starts, e6) = >>=-eq-ok (ok_or (first received) no_messages) _ e5 in
            record {
              sub_shares = subs;
              head = d;
              sessions = sessions;
              enough = enough;
              verified = verified;
              decrypted = decrypted;
              starts = ok_or_some (first received) no_messages starts;
            }
      ]
    where
      ok_or_some :
          {A : Type 0} (o : Option A) (x : ReshareError) {a : A} → ok_or o x ≡ ok a → o ≡ some a
      ok_or_some none x e = cc
      ok_or_some (some b) x e = ap some (ok_value _ _ e)

module _ {F G : Type 0} {f : Field F} (g : Curve f G) (enc : Encoding F G) where
  -- Dealers that committed to any polynomials, their nodes different, at least as many as the old
  -- polynomial has coefficients, with key shares that are g to its values and pad commitments
  -- that are those of the new member's pads: if `reshare_receive` succeeds, then there is one
  -- polynomial with the old secret, the same for every new member, such that the new share is its
  -- value at the new member's node, and the new key share of every recipient is g to its value
  -- there. It has no more coefficients than the longest of the dealers', and the public key is kept.
  pub reshare_receive-secret :
      (polys : ℕ → Polynomial F) (old : Polynomial F) (n : ℕ) (new_id : ℕ) (sk : F)
      (old_members : List (ℕ × G)) (received : Dealings F G) (beta : F) (original_pk : G)
      (old_pk_shares : List (ℕ × G)) (t_old : ℕ) (session_id : Bytes) {out : DkgOutput F G}
      → Apart (nodes f (ids received))
      → length old.coefficients ≤ length received
      → All (λ i. length (polys i).coefficients ≤ n) (ids received)
      → Committed g polys received
      → KnownKeys g polys old old_pk_shares received
      → All (SubPadMatches g enc new_id sk old_members beta) received
      → reshare_receive g enc new_id sk old_members received beta original_pk old_pk_shares t_old
          session_id
        ≡ ok out
      → let new : Polynomial F = record {
        coefficients = combined f polys (ids received) (ids received);
      } in
        (length new.coefficients ≤ n)
        × (evaluate f new f.zero ≡ evaluate f old f.zero)
        × (out.secret_share ≡ evaluate f new (f.from_u64 new_id))
        × ((k : ℕ)
            → Holds k (new_members received)
            → lookup k out.public_key_shares
              ≡ some (g.smul g.generator (evaluate f new (f.from_u64 k))))
        × (out.public_key ≡ original_pk)
  reshare_receive-secret polys old n new_id sk old_members received beta original_pk old_pk_shares
        t_old session_id {out} apart enough few commits known pads e =
      let z = f.from_u64 new_id in
      let dealers = ids received in
      let new = combined f polys dealers dealers in
      let parts =
        reshare_receive-Parts g enc new_id sk old_members received beta original_pk old_pk_shares
          t_old session_id {out = out} e in
      let checked = verify_dealings-Verified g new_id old_pk_shares received parts.verified in
      let decrypted =
        decrypt_sub_shares-dealt_points g enc polys new_id sk old_members beta old_pk_shares
          received {sub_shares = parts.sub_shares} checked commits pads parts.decrypted in
      let returns = ok_value _ _ (
        sym e
        ∙ reshare_receive_returns g enc polys new_id sk old_members received beta original_pk
            old_pk_shares t_old session_id parts.head parts.sessions parts.enough parts.verified
            decrypted parts.starts apart commits) in
      (
        length-combined f polys n dealers dealers few,
        evaluate-value f (record { coefficients = new }) f.zero
            ∙ combined_secret g polys old new_id old_pk_shares received apart enough checked commits
                known
            ∙ sym (evaluate-value f old f.zero),
        ap (λ o. o.secret_share) returns ∙ sym (evaluate-value f (record { coefficients = new }) z),
        (λ k held.
            ap (λ o. lookup k o.public_key_shares) returns
            ∙ ap (λ ms. lookup k (keys_at g polys dealers ms []))
                (new_members-first received parts.head parts.starts)
            ∙ lookup-keys_at g polys dealers (new_members received) k [] held
            ∙ ap (λ v. some (g.smul g.generator v))
                (sym (evaluate-value f (record { coefficients = new }) (f.from_u64 k)))),
        ap (λ o. o.public_key) returns,
      )
