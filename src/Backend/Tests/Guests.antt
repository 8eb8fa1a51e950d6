-- ===== src/Backend/Tests/Guests.antt =====
-- Runs of backend/internal/guests.
use qr_domofon.Base.{
  ◌+◌, ◌≤◌, ◌<◌, ◌≡◌, ◌↔◌, ◌⊎◌, refl, true, false, none, some, [], ◌∷◌, str_eq, if◌then◌else◌,
}
use qr_domofon.Base.Text.{trim_space}
use Prim.Native.String.{◌++◌}
use qr_domofon.Backend.Auth.Claims.{Claims}
use qr_domofon.Backend.Access as Access
use qr_domofon.Backend.Access.Gates.{published}
use qr_domofon.Backend.Access.Granted.{point_command}
use qr_domofon.Backend.Guests.{
  Env, GuestRow, PointOption, ResolvedPoint, validate_window, max_guest_duration, choose_points,
  allow,
}
use qr_domofon.Backend.Guests.Window.{validate_window_iff}
use qr_domofon.Backend.Guests.Service.{create_with, create_guest, open_as_guest, granted_point}
use qr_domofon.Backend.Guests.Create.{Written, create_guest-MayCreate, inserted}
use qr_domofon.Backend.Guests.Door.{MayEnter, open_as_guest-MayEnter}

abbrev entrance : PointOption
entrance = record { id = "p1"; public_id = "P1"; label = "entrance"; type = "entrance" }

abbrev row : GuestRow
row = record {
  id = "g1";
  full_name = "Ann";
  apartment_id = "a1";
  mc_id = "m1";
  created_by = "u1";
  valid_from = 100;
  valid_to = 200;
  revoked_at = none;
}

abbrev point : ResolvedPoint
point = record {
  device_id = "d1";
  access_point_id = "p1";
  apartment_id = "a1";
  management_company_id = "m1";
}

abbrev env : Env
env = record {
  apartment_mc = λ a. some (if str_eq a "a1" then some "m1" else none);
  is_apartment_member = λ u a. some true;
  can_create_guests = λ u a. some (str_eq u "u1");
  owns_apartment = λ u a. some (str_eq u "u1");
  allowed_points = λ a u. some (entrance ∷ []);
  create_guest_row = λ g. some "g1";
  get_guest_by_token_hash = λ h. some (if str_eq h "#t" then some row else none);
  guest_points = λ g. some [];
  resolve_guest_open_point = λ g u a p. some (if str_eq p "P1" then some point else none);
  list_by_creator = λ u. some [];
  revoke_row = λ g u t. some true;
  set_guest_permission = λ a u b. some true;
  is_online = λ d. some true;
  generate_token = some "t";
  hash_token = λ t. "#" ++ t;
  format_time = λ t. "2026-01-01T00:00:00Z";
  base_url = "https://v/";
  now = 150;
}

abbrev doors : Access.Env
doors = record {
  lookup = λ id. none;
  allow_apartment = λ id. false;
  is_online = λ d. some (str_eq d "d1");
  publish_open_relay = λ _ _. true;
  resolve_granted_point = λ u p. some none;
  list_granted_points = λ u. some [];
  new_request_id = "r1";
  now_formatted = "2026-01-01T00:00:00Z";
}

abbrev claims : Claims
claims = record {
  subject = "u1";
  kind = "resident";
  roles = [];
  mc_id = "";
  jti = "j";
  issued_at = 0;
  expires_at = 9;
  type = "access";
}

create_guest-MayCreate_example :
    Written env claims "a1" (create_guest env claims "a1" " Ann" 250 ("P1" ∷ " P1 " ∷ [])).1
create_guest-MayCreate_example =
    create_guest-MayCreate env claims "a1" " Ann" 250 ("P1" ∷ " P1 " ∷ [])

-- One guest is written, with one point.
one_guest :
    inserted (create_guest env claims "a1" " Ann" 250 ("P1" ∷ " P1 " ∷ [])).1
    ≡ (record {
      token_hash = "#t";
      full_name = "Ann";
      apartment_id = "a1";
      mc_id = "m1";
      created_by = "u1";
      valid_from = 150;
      valid_to = 250;
      point_ids = "p1" ∷ [];
    })
      ∷ []
unfolding create_guest validate_window choose_points trim_space allow create_with
one_guest = refl

open_as_guest-MayEnter_example :
    ((published (open_as_guest env doors "t" "P1").1 ≡ [])
      ⊎ ((g : GuestRow) × (rp : ResolvedPoint) × MayEnter env doors "t" "P1" g rp))
    × ((g : GuestRow) (rp : ResolvedPoint)
        → MayEnter env doors "t" "P1" g rp
        → published (open_as_guest env doors "t" "P1").1
          ≡ point_command doors (granted_point rp) ("guest:" ++ g.id))
open_as_guest-MayEnter_example = open_as_guest-MayEnter env doors "t" "P1"

validate_window_iff_example :
    (validate_window 150 250 ≡ none) ↔ ((150 < 250) × (250 ≤ 150 + max_guest_duration))
validate_window_iff_example = validate_window_iff 150 250
