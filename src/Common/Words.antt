-- ===== src/Common/Words.antt =====
-- Byte strings are lists of numbers below 256; the big-endian encodings of the machine words.
use Prim.Native.Nat.{ℕ, zero, suc, ◌/◌, ◌%◌, ◌^◌}
use mathlib.Core.List.{List, [], ◌∷◌}

abbrev pub Bytes : Type 0
Bytes = List ℕ

-- `u64::to_be_bytes` and `u32::to_be_bytes`.
unfoldable pub be_bytes : ℕ → ℕ → Bytes
be_bytes zero x = []
be_bytes (suc w) x = (x / 256 ^ w) % 256 ∷ be_bytes w x

abbrev pub u64_be_bytes : ℕ → Bytes
u64_be_bytes x = be_bytes 8 x

abbrev pub u32_be_bytes : ℕ → Bytes
u32_be_bytes x = be_bytes 4 x
