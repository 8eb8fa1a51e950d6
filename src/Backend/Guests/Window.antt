-- ===== src/Backend/Guests/Window.antt =====
-- The window of a guest's access, guest.go of backend/internal/guests.
use qr_domofon.Base.{ℕ, ◌+◌, ◌≤◌, ◌<◌, ◌≡◌, ◌↔◌, none, arith}
use qr_domofon.Backend.Guests.{Guest, validate_guest, validate_window, max_guest_duration}

-- Not revoked, and within the window.
abbrev pub IsActive : Guest → ℕ → Type 0
IsActive g now = (g.revoked_at ≡ none) × (g.valid_from ≤ now) × (now < g.valid_to)

pub validate_guest-IsActive : (g : Guest) (now : ℕ) → (validate_guest g now ≡ none) ↔ IsActive g now
unfolding validate_guest
validate_guest-IsActive g now = (λ h. ground arith, λ h. ground arith)

pub validate_window_iff :
    (from to : ℕ)
    → (validate_window from to ≡ none) ↔ ((from < to) × (to ≤ from + max_guest_duration))
unfolding validate_window
validate_window_iff from to = (λ h. ground arith, λ h. ground arith)
