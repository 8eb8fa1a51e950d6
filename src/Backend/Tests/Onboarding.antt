-- ===== src/Backend/Tests/Onboarding.antt =====
-- Runs of backend/internal/onboarding.
use qr_domofon.Base.{◌≡◌, refl}
use qr_domofon.Backend.Onboarding.{digits, size, international, normalize_phone}

canonical : normalize_phone "8 (701) 000-00-10" ≡ "+77010000010"
unfolding normalize_phone digits size international
canonical = refl
