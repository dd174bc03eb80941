-- ===== src/Algebra/Interfaces.antt =====
-- What the program takes from arkworks (ark-ff, ark-ec): the scalar field and the curve groups,
-- as interfaces with the laws that their documentation states.
use golden_rs.Common.{ℕ, suc, ◌≡◌, Option, none, some, Eq, Bytes, length}

-- `ark_ff::Field` with `From<u64>`.
pub record Field (F : Type 0) : Type 0 where
  pub zero : F
  pub one : F
  pub add : F → F → F
  pub mul : F → F → F
  pub neg : F → F
  pub inverse : F → Option F
  pub from_u64 : ℕ → F
  pub eq : Eq F
  pub add_assoc : (a b c : F) → add (add a b) c ≡ add a (add b c)
  pub add_comm : (a b : F) → add a b ≡ add b a
  pub zero-add : (a : F) → add zero a ≡ a
  pub add-neg : (a : F) → add a (neg a) ≡ zero
  pub mul_assoc : (a b c : F) → mul (mul a b) c ≡ mul a (mul b c)
  pub mul_comm : (a b : F) → mul a b ≡ mul b a
  pub one-mul : (a : F) → mul one a ≡ a
  pub mul-add : (a b c : F) → mul a (add b c) ≡ add (mul a b) (mul a c)
  -- `inverse` is `None` at zero only.
  pub inverse-some : (a b : F) → inverse a ≡ some b → mul a b ≡ one
  pub inverse-none : (a : F) → inverse a ≡ none → a ≡ zero
  -- `from` is the ring map of the numbers.
  pub from_u64-zero : from_u64 0 ≡ zero
  pub from_u64-suc : (n : ℕ) → from_u64 (suc n) ≡ add (from_u64 n) one

-- A group of prime order with its generator (`ark_ec::CurveGroup` and `AffineRepr`), written
-- additively. Affine and projective points are one type: `into_affine` and `into_group` change
-- the representation only.
pub record Curve {F : Type 0} (f : Field F) (G : Type 0) : Type 0 where
  pub zero : G
  pub generator : G
  pub add : G → G → G
  pub smul : G → F → G
  pub eq : Eq G
  pub add_assoc : (p q r : G) → add (add p q) r ≡ add p (add q r)
  pub add_comm : (p q : G) → add p q ≡ add q p
  pub zero-add : (p : G) → add zero p ≡ p
  pub smul-zero : (p : G) → smul p f.zero ≡ zero
  pub smul-one : (p : G) → smul p f.one ≡ p
  pub smul-add : (p : G) (a b : F) → smul p (f.add a b) ≡ add (smul p a) (smul p b)
  pub smul-mul : (p : G) (a b : F) → smul p (f.mul a b) ≡ smul (smul p a) b
  pub add-smul : (p q : G) (a : F) → smul (add p q) a ≡ add (smul p a) (smul q a)
  -- The generator has the order of the scalar field.
  pub generator_injective : (a b : F) → smul generator a ≡ smul generator b → a ≡ b

-- `Pairing::pairing` of a pairing-friendly curve: bilinear, and injective at the generator of the
-- first group.
pub record Pairing {F G1 G2 : Type 0} {f : Field F} (g1 : Curve f G1) (g2 : Curve f G2) (T : Type 0)
    : Type 0 where
  pub pair : G1 → G2 → T
  pub eq : Eq T
  pub pair-smul : (p : G1) (q : G2) (a : F) → pair (g1.smul p a) q ≡ pair p (g2.smul q a)
  pub pair_injective : (q r : G2) → pair g1.generator q ≡ pair g1.generator r → q ≡ r

-- sha2 and rand_chacha: SHA-256, and a G2 point sampled by `ChaCha8Rng::from_seed`; and the
-- compressed serialization of a G2 point.
pub record Hashing (G2 : Type 0) : Type 0 where
  pub sha256 : Bytes → Bytes
  pub rand_g2 : Bytes → G2
  pub serialize_g2 : G2 → Bytes
  pub length-sha256 : (b : Bytes) → length (sha256 b) ≡ 32

-- A random number generator as a state: `Scalar::rand` and `fill` on 32 bytes.
pub record Rng (R F : Type 0) : Type 0 where
  pub rand_scalar : R → F × R
  pub fill32 : R → Bytes × R

-- What the exponent VRF and the Schnorr proofs take from ark-ec, ark-serialize and sha2: hashing to
-- G1 with a domain, the x coordinate of a point in little-endian bytes, the compressed
-- serialization, and the scalar of a byte string.
pub record Encoding (F G1 : Type 0) : Type 0 where
  pub hash_to_curve : Bytes → Bytes → G1
  pub x_bytes : G1 → Bytes
  pub serialize_g1 : G1 → Bytes
  pub from_le_bytes : Bytes → F
  pub sha256 : Bytes → Bytes

-- What identity-based encryption takes besides: the sum of two pairing outputs (ark-ec), linear as
-- the pairing is, their compressed serialization, and a scalar sampled by `ChaCha8Rng::from_seed`.
pub record PairingGroup {F G1 G2 : Type 0} {f : Field F} {g1 : Curve f G1} {g2 : Curve f G2}
    {T : Type 0} (e : Pairing g1 g2 T) : Type 0 where
  pub sum : T → T → T
  pub pair-add : (p : G1) (q r : G2) → e.pair p (g2.add q r) ≡ sum (e.pair p q) (e.pair p r)
  pub serialize_gt : T → Bytes
  pub rand_scalar : Bytes → F
