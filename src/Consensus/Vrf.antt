-- ===== src/Consensus/Vrf.antt =====
-- Leader election: golden-dkg/src/consensus/vrf.rs.
use golden_rs.Common.{
  ℕ, ◌+◌, ◌*◌, ◌%◌, Bytes, [], ◌∷◌, ◌++◌, Option, none, some, u64_be_bytes, ◌==◌, if◌then◌else◌,
  ◌>>=◌, nat_eq,
}
use golden_rs.Algebra.{Hashing}

-- b"simplex-vrf-v1"
abbrev vrf_tag : Bytes
vrf_tag =
    b's' ∷ b'i' ∷ b'm' ∷ b'p' ∷ b'l' ∷ b'e' ∷ b'x' ∷ b'-' ∷ b'v' ∷ b'r' ∷ b'f' ∷ b'-' ∷ b'v' ∷ b'1'
    ∷ []

unfoldable pub vrf_message : ℕ → Bytes
vrf_message view = vrf_tag ++ u64_be_bytes view

-- `u32::from_be_bytes([hash[0], hash[1], hash[2], hash[3]])`; an index out of range panics.
unfoldable pub first_u32 : Bytes → Option ℕ
first_u32 (a ∷ b ∷ c ∷ d ∷ rest) = some (((a * 256 + b) * 256 + c) * 256 + d)
first_u32 _ = none

-- `% n` panics at n = 0.
unfoldable pub elect_leader : {G2 : Type 0} → Hashing G2 → Bytes → ℕ → Option ℕ
unfolding first_u32
elect_leader h vrf_seed n = do
  val ← first_u32 (h.sha256 vrf_seed)
  if n == 0 then none else some (val % n + 1)
