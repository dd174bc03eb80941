-- ===== src/Threshold/Cache/Subsets.antt =====
-- Which subsets the cache enumerates: combinations (golden-dkg/src/threshold/cache.rs).
use golden_rs.Common.{
  filter, ◌==◌, ap, ap₂, sym, ◌∙◌, true, false, ℕ, zero, suc, ◌+◌, ◌<◌, ◌≡◌, refl, List, [], ◌∷◌,
  ◌++◌, length, map, ltb, arith, inl, inr, Bool-cases, length-append, length-map, nat_eq,
}
use golden_rs.Threshold.Cache.{combinations}

-- All sublists of a list, those with its first item before those without.
abbrev pub sublists : List ℕ → List (List ℕ)
sublists [] = [] ∷ []
sublists (x ∷ xs) = map (λ c. x ∷ c) (sublists xs) ++ sublists xs

-- Those with `k` items.
abbrev pub of_length : ℕ → List (List ℕ) → List (List ℕ)
of_length k cs = filter (λ c. length c == k) cs

of_length-append :
    (k : ℕ) (cs ds : List (List ℕ)) → of_length k (cs ++ ds) ≡ of_length k cs ++ of_length k ds
of_length-append k [] ds = refl
of_length-append k (c ∷ cs) ds = elim (Bool-cases (length c == k)) [
  | inl kept ↦ rw kept (ap (◌∷◌ c) (of_length-append k cs ds))
  | inr left ↦ rw left (of_length-append k cs ds)
]

of_length-cons :
    (k x : ℕ) (cs : List (List ℕ))
    → of_length (suc k) (map (λ c. x ∷ c) cs) ≡ map (λ c. x ∷ c) (of_length k cs)
of_length-cons k x [] = refl
of_length-cons k x (c ∷ cs) = elim (Bool-cases (length c == k)) [
  | inl kept ↦
      let longer : (suc (length c) == suc k) ≡ true = ground (arith, kept) in
      rw (longer, kept) (ap (◌∷◌ (x ∷ c)) (of_length-cons k x cs))
  | inr left ↦
      let longer : (suc (length c) == suc k) ≡ false = ground (arith, left) in
      rw (longer, left) (of_length-cons k x cs)
]

-- A list that starts with an item is not empty.
of_length-zero : (x : ℕ) (cs : List (List ℕ)) → of_length 0 (map (λ c. x ∷ c) cs) ≡ []
of_length-zero x [] = refl
of_length-zero x (c ∷ cs) =
    let longer : (suc (length c) == 0) ≡ false = ground arith in rw longer (of_length-zero x cs)

of_length-sublists_cons :
    (k x : ℕ) (xs : List ℕ)
    → of_length (suc k) (sublists (x ∷ xs))
      ≡ map (λ c. x ∷ c) (of_length k (sublists xs)) ++ of_length (suc k) (sublists xs)
of_length-sublists_cons k x xs =
    of_length-append (suc k) (map (λ c. x ∷ c) (sublists xs)) (sublists xs)
    ∙ ap (λ l. l ++ of_length (suc k) (sublists xs)) (of_length-cons k x (sublists xs))

-- No sublist is longer than the list.
of_length-long : (k : ℕ) (xs : List ℕ) → length xs < k → of_length k (sublists xs) ≡ []
of_length-long zero xs few = absurd (omega arith)
of_length-long (suc k) [] few = let short : (0 == suc k) ≡ false = ground arith in rw short refl
of_length-long (suc k) (x ∷ xs) few =
    of_length-sublists_cons k x xs
    ∙ ap₂ (λ a b. map (λ c. x ∷ c) a ++ b) (of_length-long k xs (omega arith))
        (of_length-long (suc k) xs (omega arith))

combinations_lem : (items : List ℕ) (k : ℕ) → combinations items k ≡ of_length k (sublists items)
unfolding combinations
combinations_lem [] zero = refl
combinations_lem (first ∷ rest) zero =
    combinations_lem rest zero
    ∙ sym (
        of_length-append 0 (map (λ c. first ∷ c) (sublists rest)) (sublists rest)
        ∙ ap (λ l. l ++ of_length 0 (sublists rest)) (of_length-zero first (sublists rest)))
combinations_lem [] (suc k) = sym (of_length-long (suc k) [] (omega arith))
combinations_lem (first ∷ rest) (suc k) = elim (Bool-cases (ltb (suc (length rest)) (suc k))) [
  | inl few ↦ rw few (sym (of_length-long (suc k) (first ∷ rest) (ground (arith, few))))
  | inr enough ↦ rw enough (
      ap₂ (λ a b. map (λ c. first ∷ c) a ++ b) (combinations_lem rest k)
        (combinations_lem rest (suc k))
      ∙ sym (of_length-sublists_cons k first rest))
]

-- The binomial coefficients, by Pascal's rule.
abbrev pub choose : ℕ → ℕ → ℕ
choose n zero = 1
choose zero (suc k) = 0
choose (suc n) (suc k) = choose n k + choose n (suc k)

choose-small : (n k : ℕ) → n < k → choose n k ≡ 0
choose-small n zero h = absurd (omega arith)
choose-small zero (suc k) h = refl
choose-small (suc n) (suc k) h =
    omega (arith, choose-small n k (omega arith), choose-small n (suc k) (omega arith))

length-combinations :
    (items : List ℕ) (k : ℕ) → length (combinations items k) ≡ choose (length items) k
unfolding combinations
length-combinations items zero = refl
length-combinations [] (suc k) = refl
length-combinations (first ∷ rest) (suc k) =
    let counted =
      length-append (map (λ c. first ∷ c) (combinations rest k)) (combinations rest (suc k)) in
    let mapped = length-map (λ c. first ∷ c) (combinations rest k) in
    elim (Bool-cases (ltb (suc (length rest)) (suc k))) [
      | inl few ↦ rw few (
          omega (
            arith,
            choose-small (length rest) k (ground (arith, few)),
            choose-small (length rest) (suc k) (ground (arith, few)),
          ))
      | inr enough ↦ rw enough (
          omega
            (arith, counted, mapped, length-combinations rest k, length-combinations rest (suc k)))
    ]

-- `combinations` enumerates the sublists of the items that have `k` items, each as often as it
-- occurs among all sublists and in their order (those with the first item before those without it),
-- and they are as many as the binomial coefficient of the number of items and `k`.
pub combinations-sublists :
    (items : List ℕ) (k : ℕ)
    → (combinations items k ≡ filter (λ c. length c == k) (sublists items))
      × (length (combinations items k) ≡ choose (length items) k)
combinations-sublists items k = (combinations_lem items k, length-combinations items k)
