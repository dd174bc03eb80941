-- ===== src/Dkg/Outcome.antt =====
-- Code that returns a `Result` and may panic.
use golden_rs.Common.{◌≡◌, refl, ap, Option, none, some}

pub data Outcome (E A : Type 0) : Type 0 where
  ok : A → Outcome E A
  err : E → Outcome E A
  panic : Outcome E A

infixl 5 ◌>>=◌ ◌>>◌
abbrev pub ◌>>=◌ : {E A B : Type 0} → Outcome E A → (A → Outcome E B) → Outcome E B
ok a >>= k = k a
err e >>= k = err e
panic >>= k = panic

abbrev pub ◌>>◌ : {E B : Type 0} → Outcome E (Unit {0}) → Outcome E B → Outcome E B
m >> k = m >>= λ _. k

-- `map[&key]` and `list[0]`, which panic; `ok_or(e)`, which does not.
abbrev pub or_panic : {E A : Type 0} → Option A → Outcome E A
or_panic none = panic
or_panic (some a) = ok a

abbrev pub ok_or : {E A : Type 0} → Option A → E → Outcome E A
ok_or none e = err e
ok_or (some a) e = ok a

-- `Result::map_err`.
abbrev pub map_err : {D E A : Type 0} → (D → E) → Outcome D A → Outcome E A
map_err f (ok a) = ok a
map_err f (err d) = err (f d)
map_err f panic = panic

-- Inversion of a chain that succeeded.
pub >>=-eq-ok :
    {E A B : Type 0} (m : Outcome E A) (k : A → Outcome E B) {b : B}
    → (m >>= k) ≡ ok b
    → (a : A) × (m ≡ ok a) × (k a ≡ ok b)
>>=-eq-ok (ok a) k e = (a, refl, e)
>>=-eq-ok (err x) k e = cc
>>=-eq-ok panic k e = cc

pub ok_value : {E A : Type 0} (a b : A) → ◌≡◌ {A = Outcome E A} (ok a) (ok b) → a ≡ b
ok_value a b e = ap (λ o. elim o [ ok x ↦ x | err y ↦ a | panic ↦ a ]) e
