-- ===== src/Schnorr/Completeness.antt =====
-- The check accepts the proofs that `prove` makes.
use golden_rs.Common.{◌≡◌, refl, sym, ap, ◌∙◌, ◌↔◌, true}
use golden_rs.Algebra.{Field, Curve, Rng, Encoding}
use golden_rs.Algebra.Group.{point_left_cancel}
use golden_rs.Schnorr.{prove, verify, compute_challenge}

module _ {F G R : Type 0} {f : Field F} (g : Curve f G) (enc : Encoding F G) (rng : Rng R F) where
  split_response :
      (nonce c sk : F)
      → g.smul g.generator (f.add nonce (f.mul c sk))
        ≡ g.add (g.smul g.generator nonce) (g.smul (g.smul g.generator sk) c)
  split_response nonce c sk =
      g.smul-add g.generator nonce (f.mul c sk)
      ∙ ap (g.add (g.smul g.generator nonce))
          (ap (g.smul g.generator) (f.mul_comm c sk) ∙ g.smul-mul g.generator sk c)

  -- A proof made with the secret `sk` for the key `pk` is accepted exactly when `pk`, raised to the
  -- challenge, is the challenge multiple of g^sk.
  pub verify-prove :
      (sk : F) (pk : G) (r : R)
      → let proof = (prove g enc rng sk pk r).0 in
        let c = compute_challenge g enc pk proof.commitment in
        (verify g enc pk proof ≡ true) ↔ (g.smul pk c ≡ g.smul (g.smul g.generator sk) c)
  unfolding prove verify
  verify-prove sk pk r =
      let nonce = (rng.rand_scalar r).0 in
      let c = compute_challenge g enc pk (g.smul g.generator nonce) in
      let response = split_response nonce c sk in
      let test =
        g.eq.beq_iff (g.smul g.generator (f.add nonce (f.mul c sk)))
          (g.add (g.smul g.generator nonce) (g.smul pk c)) in
      (
        λ e. sym (point_left_cancel g (g.smul g.generator nonce) _ _ (sym response ∙ test.0 e)),
        λ e. test.1 (response ∙ ap (g.add (g.smul g.generator nonce)) (sym e)),
      )

  -- So a proof made with the secret of the key is always accepted.
  pub verify-prove_own :
      (sk : F) (r : R)
      → let pk = g.smul g.generator sk in verify g enc pk (prove g enc rng sk pk r).0 ≡ true
  verify-prove_own sk r = (verify-prove sk (g.smul g.generator sk) r).1 refl
