-- ===== src/Evrf/Symmetry.antt =====
-- Both ends of a Diffie-Hellman exchange derive one pad.
use golden_rs.Common.{◌≡◌, refl, sym, ap, ◌∙◌, Bytes}
use golden_rs.Algebra.{Field, Curve, Encoding}
use golden_rs.Evrf.{derive_pad, pad_of}

module _ {F G : Type 0} {f : Field F} (g : Curve f G) (enc : Encoding F G) where
  -- The pad that one party derives from its secret and the other's key is the pad that the other
  -- derives from its own secret and the first one's key, and the commitment is g to the pad.
  pub derive_pad_symmetric :
      (a b : F) (msg : Bytes) (beta : F)
      → (derive_pad g enc a (g.smul g.generator b) msg beta
          ≡ derive_pad g enc b (g.smul g.generator a) msg beta)
        × ((derive_pad g enc a (g.smul g.generator b) msg beta).1
            ≡ g.smul g.generator (derive_pad g enc a (g.smul g.generator b) msg beta).0)
  unfolding derive_pad pad_of
  derive_pad_symmetric a b msg beta = (
    ap (λ s. pad_of g enc s msg beta)
        (sym (g.smul-mul g.generator b a)
          ∙ ap (g.smul g.generator) (f.mul_comm b a)
          ∙ g.smul-mul g.generator a b),
    refl,
  )
