-- ===== src/Threshold/Cache.antt =====
-- The cache of Lagrange coefficients: golden-dkg/src/threshold/cache.rs, and `combine` of
-- golden-dkg/src/threshold/signing.rs.
pub mod Subsets
pub mod Selection
use golden_rs.Common.{
  ℕ, zero, suc, ◌+◌, ◌-◌, ◌*◌, ◌/◌, ◌%◌, u64_mod, ◌||◌, min, max, List, [], ◌∷◌, ◌++◌, Option, none,
  some, length, map, ltb, leb, if◌then◌else◌, ◌>>=◌, ◌==◌, nat_eq, insert,
}
use golden_rs.Algebra.{Field, Curve}
use golden_rs.Threshold.Types.{PartialSignature, ThresholdSignature}
use golden_rs.Threshold.Signing.{lagrange_coeff, combine_one}

pub record LagrangeCache (F : Type 0) : Type 0 where
  pub subsets : List (List (ℕ × F))

unfoldable pub combinations : List ℕ → ℕ → List (List ℕ)
combinations items zero = [] ∷ []
combinations [] (suc k) = []
combinations (first ∷ rest) (suc k) =
    let with_first = combinations rest k in
    let without = combinations rest (suc k) in
    if ltb (suc (length rest)) (suc k)
    then []
    else map (λ combo. first ∷ combo) with_first ++ without

-- `start..`, `left` numbers.
unfoldable pub range : ℕ → ℕ → List ℕ
range start zero = []
range start (suc left) = start ∷ range (suc start) left

-- `indices.sort()` and `indices.dedup()`.
unfoldable pub place : ℕ → List ℕ → List ℕ
place i [] = i ∷ []
place i (j ∷ rest) = if leb i j then i ∷ j ∷ rest else j ∷ place i rest

unfoldable pub sort : List ℕ → List ℕ
unfolding place
sort [] = []
sort (i ∷ rest) = place i (sort rest)

unfoldable pub dedup_after : ℕ → List ℕ → List ℕ
dedup_after last [] = []
dedup_after last (i ∷ rest) = if i == last then dedup_after last rest else i ∷ dedup_after i rest

unfoldable pub dedup : List ℕ → List ℕ
unfolding dedup_after
dedup [] = []
dedup (i ∷ rest) = i ∷ dedup_after i rest

-- Which of `total` subsets are kept, before sorting.
unfoldable pub spread : ℕ → ℕ → List ℕ
unfolding range
spread total num_check =
    if leb total num_check || leb num_check 1
    then range 0 (min total (max num_check 1))
    else map (λ i. (i * (total - 1)) % u64_mod / (num_check - 1)) (range 0 num_check)

unfoldable pub indices : ℕ → ℕ → List ℕ
unfolding spread sort dedup
indices total num_check = dedup (sort (spread total num_check))

-- `all_subsets[idx]`.
unfoldable pub subset_at : List (List ℕ) → ℕ → Option (List ℕ)
subset_at [] idx = none
subset_at (s ∷ rest) zero = some s
subset_at (s ∷ rest) (suc idx) = subset_at rest idx

module _ {F : Type 0} (f : Field F) where
  unfoldable pub coefficients_of : List ℕ → List ℕ → Option (List (ℕ × F))
  coefficients_of subset [] = some []
  coefficients_of subset (id ∷ rest) = do
    li ← lagrange_coeff f id subset
    coeffs ← coefficients_of subset rest
    some ((id, li) ∷ coeffs)

  unfoldable pub subsets_at : List (List ℕ) → List ℕ → Option (List (List (ℕ × F)))
  subsets_at all_subsets [] = some []
  subsets_at all_subsets (idx ∷ rest) = do
    subset ← subset_at all_subsets idx
    coeffs ← coefficients_of subset subset
    others ← subsets_at all_subsets rest
    some (coeffs ∷ others)

  -- `LagrangeCache::new`.
  unfoldable pub new : List ℕ → ℕ → ℕ → Option (LagrangeCache F)
  new node_ids t num_check = do
    let all_subsets = combinations node_ids t
    subsets ← subsets_at all_subsets (indices (length all_subsets) num_check)
    some (record { subsets = subsets })

module _ {F G2 : Type 0} {f : Field F} (g : Curve f G2) where
  -- `partials.iter().map(..).collect()`: a later partial signature of one signer replaces it.
  unfoldable pub partial_map : List (ℕ × G2) → List (PartialSignature G2) → List (ℕ × G2)
  partial_map partials [] = partials
  partial_map partials (p ∷ ps) = partial_map (insert p.signer p.signature partials) ps

  -- `combine`: `subsets[0]` panics on a cache without subsets, and a missing signer panics.
  unfoldable pub combine :
      List (PartialSignature G2) → LagrangeCache F → Option (ThresholdSignature G2)
  combine partials cache = elim cache.subsets [
    | [] ↦ none
    | coeffs ∷ rest ↦ do
      combined ← combine_one g coeffs (partial_map [] partials)
      some (record { signature = combined })
  ]
