-- ===== src/Threshold/Ibe/Masks.antt =====
-- The hash functions and the masks of golden-dkg/src/threshold/ibe.rs.
pub mod Lengths
use Prim.Native.Nat.{bit_xor}
use golden_rs.Common.{
  ℕ, zero, suc, ◌+◌, ◌-◌, ◌%◌, min, u32_mod, Bytes, List, [], ◌∷◌, ◌++◌, Option, none, some, length,
  take, ltb, if◌then◌else◌, be_bytes, ◌/◌, ◌>>=◌,
}
use golden_rs.Algebra.{Field, Curve, Pairing, PairingGroup, Hashing}

-- b"vetkeys-ibe-identity:", b"vetkeys-ibe-h2:", b"vetkeys-ibe-h3:" and b"vetkeys-ibe-h4:"
abbrev pub identity_tag : Bytes
identity_tag =
    b'v' ∷ b'e' ∷ b't' ∷ b'k' ∷ b'e' ∷ b'y' ∷ b's' ∷ b'-' ∷ b'i' ∷ b'b' ∷ b'e' ∷ b'-' ∷ b'i' ∷ b'd'
    ∷ b'e' ∷ b'n' ∷ b't' ∷ b'i' ∷ b't' ∷ b'y' ∷ b':' ∷ []

abbrev pub h2_tag : Bytes
h2_tag =
    b'v' ∷ b'e' ∷ b't' ∷ b'k' ∷ b'e' ∷ b'y' ∷ b's' ∷ b'-' ∷ b'i' ∷ b'b' ∷ b'e' ∷ b'-' ∷ b'h' ∷ b'2'
    ∷ b':' ∷ []

abbrev h3_tag : Bytes
h3_tag =
    b'v' ∷ b'e' ∷ b't' ∷ b'k' ∷ b'e' ∷ b'y' ∷ b's' ∷ b'-' ∷ b'i' ∷ b'b' ∷ b'e' ∷ b'-' ∷ b'h' ∷ b'3'
    ∷ b':' ∷ []

abbrev pub h4_tag : Bytes
h4_tag =
    b'v' ∷ b'e' ∷ b't' ∷ b'k' ∷ b'e' ∷ b'y' ∷ b's' ∷ b'-' ∷ b'i' ∷ b'b' ∷ b'e' ∷ b'-' ∷ b'h' ∷ b'4'
    ∷ b':' ∷ []

-- `u32::to_le_bytes`.
abbrev pub u32_le_bytes : ℕ → Bytes
u32_le_bytes x = x % 256 ∷ x / 256 % 256 ∷ x / 65536 % 256 ∷ x / 16777216 % 256 ∷ []

module _ {G2 : Type 0} (h : Hashing G2) where
  unfoldable pub hash_identity_to_g2 : Bytes → G2
  hash_identity_to_g2 identity = h.rand_g2 (h.sha256 (identity_tag ++ identity))

  -- `while result.len() < len`, with a round of fuel for each byte wanted: every round adds one at
  -- least. The counter is a `u32`, in the build that wraps.
  unfoldable pub h4_loop : ℕ → Bytes → ℕ → ℕ → Bytes → Bytes
  h4_loop zero seed len counter result = result
  h4_loop (suc fuel) seed len counter result =
      let block = h.sha256 (h4_tag ++ (seed ++ u32_le_bytes counter)) in
      let wanted = min 32 (len - length result) in
      let rest = h4_loop fuel seed len ((counter + 1) % u32_mod) (result ++ take wanted block) in
      if ltb (length result) len then rest else result

  unfoldable pub hash_h4 : Bytes → ℕ → Bytes
  unfolding h4_loop
  hash_h4 seed len = h4_loop len seed len 0 []

module _ {F G1 G2 T : Type 0} {f : Field F} {g1 : Curve f G1} {g2 : Curve f G2}
    {e : Pairing g1 g2 T} (gt : PairingGroup e) (h : Hashing G2) where
  unfoldable pub hash_h2 : T → Bytes
  hash_h2 value = h.sha256 (h2_tag ++ gt.serialize_gt value)

  unfoldable pub hash_h3 : Bytes → Bytes → F
  hash_h3 seed message = gt.rand_scalar (h.sha256 (h3_tag ++ (seed ++ message)))

-- `assert_eq!` on the lengths panics.
unfoldable pub xor_bytes : Bytes → Bytes → Option Bytes
xor_bytes [] [] = some []
xor_bytes (x ∷ xs) (y ∷ ys) = do rest ← xor_bytes xs ys; some (bit_xor x y ∷ rest)
xor_bytes _ _ = none
