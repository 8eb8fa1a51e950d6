-- ===== src/Backend/Onboarding.antt =====
-- backend/internal/onboarding/phone.go and ownership.go: the canonical form of a phone, and who may
-- invite to an apartment.
pub mod Phone
pub mod Composite
pub mod Invitations
pub mod Recipients
pub mod Invites
pub mod Grants
pub mod Service
use Prim.Native.Char.{Char, code}
use Prim.Native.String.{String, [], ◌∷◌}
use qr_domofon.Base.{ℕ, suc, zero, Bool, true, false, ◌&&◌, leb, ◌==◌, str_eq, if◌then◌else◌}
use qr_domofon.Base.{List}
use mathlib.Core.List as L
use qr_domofon.Backend.Auth.Claims.{ApartmentRole, Claims}

abbrev pub is_digit : Char → Bool
is_digit c = leb b'0' (code c) && leb (code c) b'9'

unfoldable pub digits : String → String
digits [] = []
digits (c ∷ s) = let rest = digits s in if is_digit c then c ∷ rest else rest

-- `len(d)`: the digits are one byte each.
unfoldable pub size : String → ℕ
size [] = 0
size (c ∷ s) = suc (size s)

-- The local spelling of a number, 8 and ten digits.
unfoldable pub international : String → String
international [] = []
international (c ∷ s) = if size s == 10 && code c == b'8' then "7" ∷ s else c ∷ s

abbrev pub with_plus : String → String
with_plus [] = []
with_plus (c ∷ s) = "+" ∷ c ∷ s

unfoldable pub normalize_phone : String → String
normalize_phone raw = with_plus (international (digits raw))

owner_of : List ApartmentRole → String → Bool
owner_of L.List.[] apartment_id = false
owner_of (L.List.◌∷◌ r rs) apartment_id =
    let rest = owner_of rs apartment_id in
    if str_eq r.apartment_id apartment_id && str_eq r.role "owner" then true else rest

unfoldable pub can_invite_to_apartment : Claims → String → Bool
unfolding owner_of
can_invite_to_apartment claims apartment_id = owner_of claims.roles apartment_id
