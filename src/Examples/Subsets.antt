-- ===== src/Examples/Subsets.antt =====
-- The subsets of three signers.
use golden_rs.Common.{refl, ◌≡◌, ◌==◌, nat_eq, [], ◌∷◌, length, filter}
use golden_rs.Threshold.Cache.{combinations}
use golden_rs.Threshold.Cache.Subsets.{sublists, combinations-sublists}

combinations-sublists_example :
    (combinations (1 ∷ 2 ∷ 3 ∷ []) 2 ≡ filter (λ c. length c == 2) (sublists (1 ∷ 2 ∷ 3 ∷ [])))
    × (length (combinations (1 ∷ 2 ∷ 3 ∷ []) 2) ≡ 3)
combinations-sublists_example = combinations-sublists (1 ∷ 2 ∷ 3 ∷ []) 2

-- In the order of the code.
pairs : combinations (1 ∷ 2 ∷ 3 ∷ []) 2 ≡ (1 ∷ 2 ∷ []) ∷ (1 ∷ 3 ∷ []) ∷ (2 ∷ 3 ∷ []) ∷ []
unfolding combinations
pairs = refl
