-- ===== src/Backend/Tests/Composite.antt =====
-- A run of composite.go of backend/internal/onboarding.
use qr_domofon.Base.{String, List, [], ◌∷◌}

abbrev kept : List String
kept = "P1" ∷ "P2" ∷ []
