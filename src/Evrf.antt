-- ===== src/Evrf.antt =====
-- Pads from a Diffie-Hellman secret: golden-dkg/src/evrf.rs.
pub mod Symmetry
use golden_rs.Common.{Bytes, List, [], ◌∷◌, if◌then◌else◌, ◌==◌}
use golden_rs.Algebra.{Field, Curve, Encoding}

-- b"golden-evrf-h1" and b"golden-evrf-h2"
abbrev h1_domain : Bytes
h1_domain =
    b'g' ∷ b'o' ∷ b'l' ∷ b'd' ∷ b'e' ∷ b'n' ∷ b'-' ∷ b'e' ∷ b'v' ∷ b'r' ∷ b'f' ∷ b'-' ∷ b'h' ∷ b'1'
    ∷ []

abbrev h2_domain : Bytes
h2_domain =
    b'g' ∷ b'o' ∷ b'l' ∷ b'd' ∷ b'e' ∷ b'n' ∷ b'-' ∷ b'e' ∷ b'v' ∷ b'r' ∷ b'f' ∷ b'-' ∷ b'h' ∷ b'2'
    ∷ []

module _ {F G : Type 0} {f : Field F} (g : Curve f G) (enc : Encoding F G) where
  unfoldable pub extract_x_as_scalar : G → F
  extract_x_as_scalar point =
      if ◌==◌ ⦃e = g.eq⦄ point g.zero then f.from_u64 0 else enc.from_le_bytes (enc.x_bytes point)

  -- From the shared point on.
  unfoldable pub pad_of : G → Bytes → F → F × G
  pad_of s msg beta =
      let k = extract_x_as_scalar s in
      let t1 = g.smul (enc.hash_to_curve h1_domain msg) k in
      let t2 = g.smul (enc.hash_to_curve h2_domain msg) k in
      let r1 = extract_x_as_scalar t1 in
      let r2 = extract_x_as_scalar t2 in
      let r = f.add (f.mul beta r1) r2 in (r, g.smul g.generator r)

  unfoldable pub derive_pad : F → G → Bytes → F → F × G
  derive_pad sk peer_pk msg beta = pad_of (g.smul peer_pk sk) msg beta
