-- ===== src/Threshold/Ibe/Masks/Lengths.antt =====
-- The lengths of the masks, and masking twice (golden-dkg/src/threshold/ibe.rs).
use Prim.Native.Nat.{bit_xor, bit_xor-bitwise, digits, differ}
use mathlib.Core.Option.{some-injective}
use golden_rs.Common.{
  ℕ, zero, suc, ◌+◌, ◌-◌, ◌*◌, ◌/◌, ◌%◌, ◌≤◌, ◌<◌, ◌≡◌, refl, sym, ap, ◌∙◌, min, u32_mod, Bytes, [],
  ◌∷◌, ◌++◌, some, length, take, length-take, length-append, ltb, arith, Bool-cases, inl, inr,
}
use golden_rs.Algebra.{Hashing}
use golden_rs.Threshold.Ibe.Masks.{hash_h4, h4_loop, xor_bytes, u32_le_bytes, h4_tag}

-- The law of the lowest digit, from the digits that the native operation stands for.
abbrev xor_digits : ℕ → ℕ → ℕ → ℕ
xor_digits n a b = digits (λ b. b) differ n a b

xor_digits-more : (n m a b : ℕ) → a ≤ n → a ≤ m → xor_digits n a b ≡ xor_digits m a b
xor_digits-more zero zero a b p q = refl
xor_digits-more zero (suc m) zero b p q = refl
xor_digits-more zero (suc m) (suc a) b p q = absurd (omega arith)
xor_digits-more (suc n) zero zero b p q = refl
xor_digits-more (suc n) zero (suc a) b p q = absurd (omega arith)
xor_digits-more (suc n) (suc m) zero b p q = refl
xor_digits-more (suc n) (suc m) (suc a) b p q =
    omega (arith, xor_digits-more n m (suc a / 2) (b / 2) (omega arith) (omega arith))

zero-bit_xor : (b : ℕ) → bit_xor 0 b ≡ b
zero-bit_xor b = bit_xor-bitwise 0 b

lowest : (x y : ℕ) → x < 2 → y < 2 → (differ x y < 2) × (differ (differ x y) y ≡ x)
lowest zero zero p q = (omega arith, refl)
lowest zero (suc zero) p q = (omega arith, refl)
lowest (suc zero) zero p q = (omega arith, refl)
lowest (suc zero) (suc zero) p q = (omega arith, refl)
lowest (suc (suc x)) y p q = absurd (omega arith)
lowest x (suc (suc y)) p q = absurd (omega arith)

bit_xor-step : (a b : ℕ) → bit_xor a b ≡ bit_xor (a / 2) (b / 2) * 2 + differ (a % 2) (b % 2)
bit_xor-step zero b = omega (arith, zero-bit_xor b, zero-bit_xor (b / 2))
bit_xor-step (suc a) b = omega (
  arith,
  bit_xor-bitwise (suc a) b,
  bit_xor-bitwise (suc a / 2) (b / 2),
  xor_digits-more a (suc a / 2) (suc a / 2) (b / 2) (omega arith) (omega arith),
)

twice_fuel : (n a b : ℕ) → a ≤ n → b ≤ n → bit_xor (bit_xor a b) b ≡ a
twice_fuel zero zero zero p q = refl
twice_fuel zero (suc a) b p q = absurd (omega arith)
twice_fuel zero a (suc b) p q = absurd (omega arith)
twice_fuel (suc n) a b p q =
    let high = bit_xor (a / 2) (b / 2) in
    let (small, again) = lowest (a % 2) (b % 2) (omega arith) (omega arith) in
    let parts = bit_xor-step a b in
    let halved : bit_xor a b / 2 ≡ high = omega (arith, parts, small) in
    let rest : bit_xor a b % 2 ≡ differ (a % 2) (b % 2) = omega (arith, parts, small) in
    bit_xor-step (bit_xor a b) b
    ∙ rw (halved, rest, again, twice_fuel n (a / 2) (b / 2) (omega arith) (omega arith))
        (omega arith)

pub bit_xor-twice : (a b : ℕ) → bit_xor (bit_xor a b) b ≡ a
bit_xor-twice a b = twice_fuel (a + b) a b (omega arith) (omega arith)

-- Masking twice with the same mask gives the text back.
pub xor_bytes-twice :
    (text mask : Bytes)
    → length text ≡ length mask
    → (masked : Bytes) × (xor_bytes text mask ≡ some masked)
      × (length masked ≡ length text)
      × (xor_bytes masked mask ≡ some text)
unfolding xor_bytes
xor_bytes-twice [] [] e = ([], refl, refl, refl)
xor_bytes-twice [] (y ∷ ys) e = absurd (omega (arith, e))
xor_bytes-twice (x ∷ xs) [] e = absurd (omega (arith, e))
xor_bytes-twice (x ∷ xs) (y ∷ ys) e =
    let (masked, there, as_long, back) = xor_bytes-twice xs ys (omega (arith, e)) in
    (bit_xor x y ∷ masked, rw there refl, omega (arith, as_long), rw (back, bit_xor-twice x y) refl)

pub xor_bytes-back :
    (text mask masked : Bytes)
    → length text ≡ length mask
    → xor_bytes text mask ≡ some masked
    → (length masked ≡ length text) × (xor_bytes masked mask ≡ some text)
xor_bytes-back text mask masked e there =
    let (found, finds, as_long, back) = xor_bytes-twice text mask e in
    let same = some-injective _ _ (sym finds ∙ there) in
    (ap length (sym same) ∙ as_long, ap (λ m. xor_bytes m mask) (sym same) ∙ back)

module _ {G2 : Type 0} (h : Hashing G2) where
  h4_loop-length :
      (fuel : ℕ) (seed : Bytes) (len counter : ℕ) (result : Bytes)
      → length result ≤ len
      → len ≤ length result + fuel
      → length (h4_loop h fuel seed len counter result) ≡ len
  unfolding h4_loop
  h4_loop-length zero seed len counter result low high = omega arith
  h4_loop-length (suc fuel) seed len counter result low high =
      let block = h.sha256 (h4_tag ++ (seed ++ u32_le_bytes counter)) in
      let wanted = min 32 (len - length result) in
      let taken =
        length-take block wanted
          (omega (arith, h.length-sha256 (h4_tag ++ (seed ++ u32_le_bytes counter)))) in
      let grown = length-append result (take wanted block) in
      elim (Bool-cases (ltb (length result) len)) [
        | inl more ↦ rw more (
            h4_loop-length fuel seed len ((counter + 1) % u32_mod) (result ++ take wanted block)
              (omega (arith, taken, grown)) (ground (arith, more, taken, grown)))
        | inr done ↦ rw done (ground (arith, done))
      ]

  -- The loop of `hash_h4` ends by its test: the mask has the length asked for.
  pub length-hash_h4 : (seed : Bytes) (len : ℕ) → length (hash_h4 h seed len) ≡ len
  unfolding hash_h4
  length-hash_h4 seed len = h4_loop-length len seed len 0 [] (omega arith) (omega arith)
