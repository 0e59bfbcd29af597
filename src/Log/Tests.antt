-- ===== src/Log/Tests.antt =====
-- A message on the sample terminal, for kernel/src/logging.rs.
use lemoncake.Base.{◌≡◌, refl, true, [], ◌∷◌, ◌++◌, codes}
use lemoncake.Log.{Level, pieces_of}
use lemoncake.Log.Arrive.{joined}
use lemoncake.Log.Samples.{place}

-- What the line receives.
warning_text :
    joined (pieces_of true Level.warning (codes "hot" ∷ []) place)
    ≡ 27 ∷ codes "[33m(0_0) [WARN ]:" ++ 27 ∷ codes "[0m hot [src/main.rs@L12:5]" ++ 10 ∷ []
unfolding pieces_of
warning_text = refl
