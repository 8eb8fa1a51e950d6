-- ===== src/Backend/Database.antt =====
-- The tables of backend/migrations that onboarding, access and the guests use. A list holds the rows of
-- a table; NULL is `none`. Columns that no query of the server reads are left out, among them the keys
-- of roles and grants and the times of creation. What backend/internal asks of a table in SQL is in the
-- modules of its repositories, and here what they share.
use qr_domofon.Base.{
  ℕ, String, Bool, true, false, ◌&&◌, ◌||◌, Option, none, some, List, ◌∷◌, str_eq, if◌then◌else◌,
  any, first,
}

pub record User : Type 0 where
  pub id : String
  pub phone : Option String
  pub email : Option String
  pub password_hash : Option String
  pub totp_secret : Option String
  pub full_name : Option String
  pub kind : String
  pub mc_id : Option String

pub record RoleRow : Type 0 where
  pub user_id : String
  pub apartment_id : String
  pub mc_id : String
  pub role : String
  pub can_create_guests : Bool
  pub created_by : Option String

pub record Grant : Type 0 where
  pub user_id : String
  pub access_point_id : String
  pub mc_id : String
  pub granted_by : Option String

pub record Apartment : Type 0 where
  pub id : String
  pub number : String
  pub building_id : String
  pub entrance_id : Option String
  pub mc_id : String
  pub is_active : Bool

pub record Point : Type 0 where
  pub id : String
  pub public_id : String
  pub building_id : Option String
  pub entrance_id : Option String
  pub mc_id : String
  pub type : String
  pub label : String
  pub is_active : Bool

pub record DeviceRow : Type 0 where
  pub id : String
  pub access_point_id : String

pub record InviteRow : Type 0 where
  pub id : String
  pub token_hash : String
  pub phone : Option String
  pub full_name : Option String
  pub target_kind : String
  pub apartment_id : Option String
  pub access_point_id : Option String
  pub role : Option String
  pub mc_id : String
  pub created_by : String
  pub expires_at : ℕ
  pub used_at : Option ℕ
  pub used_by : Option String

pub record InvitePoint : Type 0 where
  pub invite_id : String
  pub access_point_id : String
  pub mc_id : String

pub record GuestAccess : Type 0 where
  pub id : String
  pub token_hash : String
  pub full_name : String
  pub apartment_id : String
  pub mc_id : String
  pub created_by : String
  pub valid_from : ℕ
  pub valid_to : ℕ
  pub revoked_at : Option ℕ
  pub revoked_by : Option String

pub record GuestPoint : Type 0 where
  pub guest_id : String
  pub access_point_id : String
  pub mc_id : String

pub record Database : Type 0 where
  pub users : List User
  pub roles : List RoleRow
  pub grants : List Grant
  pub apartments : List Apartment
  pub points : List Point
  pub devices : List DeviceRow
  pub invites : List InviteRow
  pub invite_points : List InvitePoint
  pub guests : List GuestAccess
  pub guest_points : List GuestPoint

-- `column = $1` on a column that may be NULL, which equals nothing.
abbrev pub is_value : Option String → String → Bool
is_value none s = false
is_value (some v) s = str_eq v s

-- nullStr of backend/internal/onboarding/repo.go.
abbrev pub null_str : String → Option String
null_str s = if str_eq s "" then none else some s

abbrev pub grants_point : String → String → Grant → Bool
grants_point user_id point_id g = str_eq g.user_id user_id && str_eq g.access_point_id point_id

-- The grant that UNIQUE (user_id, access_point_id) is about.
abbrev pub has_grant : List Grant → String → String → Bool
has_grant grants user_id point_id = any (grants_point user_id point_id) grants

-- `ON CONFLICT (user_id, access_point_id) DO NOTHING`, and whether a row was inserted.
unfoldable pub insert_grant : List Grant → Grant → Bool × List Grant
insert_grant grants g =
    if has_grant grants g.user_id g.access_point_id then (false, grants) else (true, g ∷ grants)

abbrev pub has_role : List RoleRow → String → String → Bool
has_role roles user_id apartment_id =
    any (λ (r : RoleRow). str_eq r.user_id user_id && str_eq r.apartment_id apartment_id) roles

abbrev pub is_passage : String → Bool
is_passage type = str_eq type "gate" || str_eq type "barrier"

-- `JOIN devices d ON d.access_point_id = ap.id`: the device of a point, of which there is one at most.
abbrev pub device_of : List DeviceRow → String → Option String
device_of devices point_id =
    first (λ (d : DeviceRow). if str_eq d.access_point_id point_id then some d.id else none) devices
