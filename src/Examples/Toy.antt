-- ===== src/Examples/Toy.antt =====
-- The interfaces over the field with five elements: the groups are its additive group, the pairing
-- its product, and the hash a checksum of 32 bytes.
use golden_rs.Common.{
  ℕ, zero, suc, ◌+◌, ◌*◌, ◌%◌, ◌<◌, ◌≡◌, refl, sym, ap, ◌∙◌, ◌↔◌, Bool, true, ◌&&◌, Option, none,
  some, [], ◌∷◌, Bytes, replicate, arith, Eq, nat_eq, nat_beq,
}
use golden_rs.Algebra.{Field, Curve, Pairing, PairingGroup, Hashing, Rng, Encoding}

pub data F5 : Type 0 where
  z0 z1 z2 z3 z4 : F5

abbrev pub index : F5 → ℕ
index z0 = 0
index z1 = 1
index z2 = 2
index z3 = 3
index z4 = 4

abbrev pick : ℕ → F5
pick zero = z0
pick (suc zero) = z1
pick (suc (suc zero)) = z2
pick (suc (suc (suc zero))) = z3
pick (suc (suc (suc (suc _)))) = z4

abbrev pub of : ℕ → F5
of n = pick (n % 5)

abbrev pub add : F5 → F5 → F5
add a b = of (index a + index b)

abbrev pub mul : F5 → F5 → F5
mul a b = of (index a * index b)

abbrev pub neg : F5 → F5
neg a = of (4 * index a)

abbrev pub inverse : F5 → Option F5
inverse z0 = none
inverse z1 = some z1
inverse z2 = some z3
inverse z3 = some z2
inverse z4 = some z4

abbrev pub beq : F5 → F5 → Bool
beq a b = nat_beq (index a) (index b)

pub beq_iff : (a b : F5) → (beq a b ≡ true) ↔ (a ≡ b)
beq_iff a b = ground arith

instance abbrev pub f5_eq : Eq F5
f5_eq = record { beq = beq; beq_iff = beq_iff }

-- A law of the field is checked at every value.
all : (F5 → Bool) → Bool
all p = p z0 && p z1 && p z2 && p z3 && p z4

all_sound : (p : F5 → Bool) → all p ≡ true → (a : F5) → p a ≡ true
unfolding all
all_sound p h a = ground arith

law1 : (l r : F5 → F5) → all (λ a. beq (l a) (r a)) ≡ true → (a : F5) → l a ≡ r a
law1 l r h a = (beq_iff (l a) (r a)).0 (all_sound _ h a)

law2 :
    (l r : F5 → F5 → F5)
    → all (λ a. all (λ b. beq (l a b) (r a b))) ≡ true
    → (a b : F5) → l a b ≡ r a b
law2 l r h a = law1 (l a) (r a) (all_sound _ h a)

law3 :
    (l r : F5 → F5 → F5 → F5)
    → all (λ a. all (λ b. all (λ c. beq (l a b c) (r a b c)))) ≡ true
    → (a b c : F5) → l a b c ≡ r a b c
law3 l r h a = law2 (l a) (r a) (all_sound _ h a)

pub add_assoc : (a b c : F5) → add (add a b) c ≡ add a (add b c)
unfolding all
add_assoc = law3 (λ a b c. add (add a b) c) (λ a b c. add a (add b c)) refl

pub mul_assoc : (a b c : F5) → mul (mul a b) c ≡ mul a (mul b c)
unfolding all
mul_assoc = law3 (λ a b c. mul (mul a b) c) (λ a b c. mul a (mul b c)) refl

pub mul-add : (a b c : F5) → mul a (add b c) ≡ add (mul a b) (mul a c)
unfolding all
mul-add = law3 (λ a b c. mul a (add b c)) (λ a b c. add (mul a b) (mul a c)) refl

pub add-mul : (a b c : F5) → mul (add a b) c ≡ add (mul a c) (mul b c)
unfolding all
add-mul = law3 (λ a b c. mul (add a b) c) (λ a b c. add (mul a c) (mul b c)) refl

pub add_comm : (a b : F5) → add a b ≡ add b a
unfolding all
add_comm = law2 (λ a b. add a b) (λ a b. add b a) refl

pub mul_comm : (a b : F5) → mul a b ≡ mul b a
unfolding all
mul_comm = law2 (λ a b. mul a b) (λ a b. mul b a) refl

pub zero-add : (a : F5) → add z0 a ≡ a
unfolding all
zero-add = law1 (λ a. add z0 a) (λ a. a) refl

pub mul-zero : (a : F5) → mul a z0 ≡ z0
unfolding all
mul-zero = law1 (λ a. mul a z0) (λ a. z0) refl

pub one-mul : (a : F5) → mul z1 a ≡ a
unfolding all
one-mul = law1 (λ a. mul z1 a) (λ a. a) refl

pub add-neg : (a : F5) → add a (neg a) ≡ z0
unfolding all
add-neg = law1 (λ a. add a (neg a)) (λ a. z0) refl

pub inverse-some : (a b : F5) → inverse a ≡ some b → mul a b ≡ z1
inverse-some a b h = ground arith

pub inverse-none : (a : F5) → inverse a ≡ none → a ≡ z0
inverse-none a h = ground arith

index-pick : (n : ℕ) → n < 5 → index (pick n) ≡ n
index-pick zero h = refl
index-pick (suc zero) h = refl
index-pick (suc (suc zero)) h = refl
index-pick (suc (suc (suc zero))) h = refl
index-pick (suc (suc (suc (suc n)))) h = omega arith

pub of-suc : (n : ℕ) → of (suc n) ≡ add (of n) z1
of-suc n = ap pick (omega (arith, index-pick (n % 5) (omega arith)))

abbrev pub field5 : Field F5
field5 = record {
  zero = z0;
  one = z1;
  add = add;
  mul = mul;
  neg = neg;
  inverse = inverse;
  from_u64 = of;
  eq = f5_eq;
  add_assoc = add_assoc;
  add_comm = add_comm;
  zero-add = zero-add;
  add-neg = add-neg;
  mul_assoc = mul_assoc;
  mul_comm = mul_comm;
  one-mul = one-mul;
  mul-add = mul-add;
  inverse-some = inverse-some;
  inverse-none = inverse-none;
  from_u64-zero = refl;
  from_u64-suc = of-suc;
}

pub generator_injective : (a b : F5) → mul z1 a ≡ mul z1 b → a ≡ b
generator_injective a b e = sym (one-mul a) ∙ e ∙ one-mul b

abbrev pub group5 : Curve field5 F5
group5 = record {
  zero = z0;
  generator = z1;
  add = add;
  smul = mul;
  eq = f5_eq;
  add_assoc = add_assoc;
  add_comm = add_comm;
  zero-add = zero-add;
  smul-zero = mul-zero;
  smul-one = λ p. mul_comm p z1 ∙ one-mul p;
  smul-add = mul-add;
  smul-mul = λ p a b. sym (mul_assoc p a b);
  add-smul = add-mul;
  generator_injective = generator_injective;
}

pub pair-smul : (p q a : F5) → mul (mul p a) q ≡ mul p (mul q a)
unfolding all
pair-smul = law3 (λ p q a. mul (mul p a) q) (λ p q a. mul p (mul q a)) refl

abbrev pub pairing5 : Pairing group5 group5 F5
pairing5 = record {
  pair = mul;
  eq = f5_eq;
  pair-smul = pair-smul;
  pair_injective = generator_injective;
}

-- A checksum, in the first byte of 32.
abbrev checksum : Bytes → ℕ
checksum [] = 0
checksum (b ∷ bs) = (b + 3 * checksum bs) % 251

abbrev pub digest : Bytes → Bytes
digest b = checksum b ∷ replicate 31 0

abbrev first : Bytes → ℕ
first [] = 0
first (b ∷ bs) = b

abbrev pub hashing5 : Hashing F5
hashing5 = record {
  sha256 = digest;
  rand_g2 = λ b. of (first b);
  serialize_g2 = λ p. index p ∷ [];
  length-sha256 = λ b. refl;
}

abbrev pub pairing_group5 : PairingGroup pairing5
pairing_group5 = record {
  sum = add;
  pair-add = mul-add;
  serialize_gt = λ x. index x ∷ [];
  rand_scalar = λ b. of (first b);
}

abbrev pub rng5 : Rng ℕ F5
rng5 = record { rand_scalar = λ r. (of r, suc r); fill32 = λ r. (replicate 32 (r % 256), suc r) }

abbrev pub encoding5 : Encoding F5 F5
encoding5 = record {
  hash_to_curve = λ domain msg. of (checksum domain + checksum msg);
  x_bytes = λ p. index p ∷ [];
  serialize_g1 = λ p. index p ∷ [];
  from_le_bytes = λ b. of (first b);
  sha256 = digest;
}
