-- ===== src/Png/Tests.antt =====
-- Pixels of kernel/src/png.rs.
use lemoncake.Base.{[], ◌∷◌, ◌≡◌, refl}
use lemoncake.Png.{rgb_tuples}

-- Bytes behind the last whole pixel are dropped.
rgb_tuples_rest : rgb_tuples (1 ∷ 2 ∷ 3 ∷ 4 ∷ 5 ∷ 6 ∷ []) ≡ (1, 2, 3, 4) ∷ []
unfolding rgb_tuples
rgb_tuples_rest = refl
