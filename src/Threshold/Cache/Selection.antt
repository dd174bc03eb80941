-- ===== src/Threshold/Cache/Selection.antt =====
-- Which of the subsets the cache keeps (golden-dkg/src/threshold/cache.rs).
use native.Mathlib.Nat.{mod-le, mul-le-mul_right, div-le_of_le-mul, le_trans}
use golden_rs.Common.{
  ℕ, zero, suc, ◌+◌, ◌-◌, ◌*◌, ◌/◌, ◌%◌, u64_mod, ◌≤◌, ◌<◌, ◌≢◌, none, min, max, List, [], ◌∷◌,
  length, map, All, leb, arith, ◌||◌, inl, inr, Bool-cases, nat_eq,
}
use golden_rs.Threshold.Cache.{range, place, sort, dedup_after, dedup, spread, indices, subset_at}

range-below :
    (bound start left : ℕ) → start + left ≤ bound → All (λ i. i < bound) (range start left)
unfolding range
range-below bound start zero h = tt
range-below bound start (suc left) h =
    (omega arith, range-below bound (suc start) left (omega arith))

place-below :
    (bound i : ℕ) (js : List ℕ)
    → i < bound
    → All (λ j. j < bound) js
    → All (λ j. j < bound) (place i js)
unfolding place
place-below bound i [] h hs = (h, tt)
place-below bound i (j ∷ rest) h hs = ground (arith, place-below bound i rest h hs.1)

sort-below : (bound : ℕ) (js : List ℕ) → All (λ j. j < bound) js → All (λ j. j < bound) (sort js)
unfolding sort
sort-below bound [] h = tt
sort-below bound (j ∷ js) h = place-below bound j (sort js) h.0 (sort-below bound js h.1)

dedup_after-below :
    (bound last : ℕ) (js : List ℕ)
    → All (λ j. j < bound) js
    → All (λ j. j < bound) (dedup_after last js)
unfolding dedup_after
dedup_after-below bound last [] h = tt
dedup_after-below bound last (j ∷ js) h =
    ground (arith, dedup_after-below bound last js h.1, dedup_after-below bound j js h.1)

dedup-below : (bound : ℕ) (js : List ℕ) → All (λ j. j < bound) js → All (λ j. j < bound) (dedup js)
unfolding dedup
dedup-below bound [] h = tt
dedup-below bound (j ∷ js) h = (h.0, dedup_after-below bound j js h.1)

below : (total n i : ℕ) → 1 < n → n < total → i < n → (i * (total - 1)) % u64_mod / (n - 1) < total
below total n i h b small =
    let numerator = i * (total - 1) in
    let fits : numerator ≤ (n - 1) * (total - 1) = mul-le-mul_right (total - 1) (omega arith) in
    let quotient = div-le_of_le-mul (n - 1) (le_trans (mod-le numerator u64_mod) fits) in
    omega (arith, quotient)

scaled-below :
    (total n : ℕ) (is : List ℕ)
    → 1 < n
    → n < total
    → All (λ i. i < n) is
    → All (λ i. i < total) (map (λ i. (i * (total - 1)) % u64_mod / (n - 1)) is)
scaled-below total n [] h b hs = tt
scaled-below total n (i ∷ is) h b hs = (below total n i h b hs.0, scaled-below total n is h b hs.1)

spread-below : (total num_check : ℕ) → All (λ i. i < total) (spread total num_check)
unfolding spread
spread-below total num_check = elim (Bool-cases (leb total num_check || leb num_check 1)) [
  | inl all ↦ ground (arith, all, range-below total 0 (min total (max num_check 1)) (omega arith))
  | inr some_only ↦ rw some_only (
      scaled-below total num_check (range 0 num_check) (ground (arith, some_only))
        (ground (arith, some_only)) (range-below num_check 0 num_check (omega arith)))
]

indices-below : (total num_check : ℕ) → All (λ i. i < total) (indices total num_check)
unfolding indices
indices-below total num_check =
    dedup-below total (sort (spread total num_check))
      (sort-below total (spread total num_check) (spread-below total num_check))

subset_at-below :
    (subsets : List (List ℕ)) (i : ℕ) → i < length subsets → subset_at subsets i ≢ none
unfolding subset_at
subset_at-below [] i h e = absurd (omega (arith, h))
subset_at-below (s ∷ subsets) zero h e = cc
subset_at-below (s ∷ subsets) (suc i) h e = subset_at-below subsets i (omega (arith, h)) e

found_at :
    (subsets : List (List ℕ)) (is : List ℕ)
    → All (λ i. i < length subsets) is
    → All (λ i. subset_at subsets i ≢ none) is
found_at subsets [] h = tt
found_at subsets (i ∷ is) h = (subset_at-below subsets i h.0, found_at subsets is h.1)

-- However many subsets there are and however many are asked for, the cache finds a subset at every
-- index that it picks: `all_subsets[idx]` does not panic.
pub indices-subset_at :
    (subsets : List (List ℕ)) (num_check : ℕ)
    → All (λ i. subset_at subsets i ≢ none) (indices (length subsets) num_check)
indices-subset_at subsets num_check = found_at subsets _ (indices-below (length subsets) num_check)
