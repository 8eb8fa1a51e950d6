-- ===== src/Backend/Auth/Accounts.antt =====
-- The accounts of backend/internal/auth/repo.go over the tables of the database, and the profiles that
-- service.go makes of them.
use qr_domofon.Base.{
  ℕ, String, Bool, not, Option, none, some, List, map, str_eq, first, filter, if◌then◌else◌,
}
use qr_domofon.Backend.Database as Tables
use qr_domofon.Backend.Database.{Database, RoleRow, is_value}
use qr_domofon.Backend.Auth.Claims.{ApartmentRole, Claims, ApartmentInfo, UserProfile}

pub data Query : Type 0 where
  user_by_phone user_by_id admin_by_email roles_by_user : Query

-- The queries that fail, and ORDER BY apartment_id; the keys; fresh ids; and the time in nanoseconds.
pub record Env : Type 0 where
  pub fails : Query → Bool
  pub by_apartment : List ApartmentRole → List ApartmentRole
  pub sign : Claims → Option String
  pub parse : String → Option Claims
  pub verify_password : String → String → Bool
  pub verify_totp : String → String → ℕ → Bool
  pub access_jti : String
  pub refresh_jti : String
  pub dev_mode : Bool
  pub now : ℕ

pub record User : Type 0 where
  pub id : String
  pub phone : String
  pub email : String
  pub password_hash : String
  pub totp_secret : String
  pub kind : String
  pub mc_id : String

-- `COALESCE(column, '')`.
abbrev pub coalesce : Option String → String
coalesce none = ""
coalesce (some s) = s

-- The service takes an error of the repository for a user that was not found.
unfoldable pub get_user_by_phone : Env → Database → String → Option User
get_user_by_phone e db phone =
    if e.fails user_by_phone
    then none
    else first
        (λ (u : Tables.User).
          if not (is_value u.phone phone)
          then none
          else some (record {
            id = u.id;
            phone = phone;
            email = "";
            password_hash = "";
            totp_secret = "";
            kind = u.kind;
            mc_id = coalesce u.mc_id;
          }))
        db.users

unfoldable pub get_user_by_id : Env → Database → String → Option User
get_user_by_id e db id =
    if e.fails user_by_id
    then none
    else first
        (λ (u : Tables.User).
          if not (str_eq u.id id)
          then none
          else some (record {
            id = u.id;
            phone = coalesce u.phone;
            email = coalesce u.email;
            password_hash = "";
            totp_secret = "";
            kind = u.kind;
            mc_id = coalesce u.mc_id;
          }))
        db.users

abbrev pub admin_at : String → Tables.User → Option User
admin_at email u =
    if not (is_value u.email email)
    then none
    else some (record {
      id = u.id;
      phone = "";
      email = email;
      password_hash = coalesce u.password_hash;
      totp_secret = coalesce u.totp_secret;
      kind = u.kind;
      mc_id = coalesce u.mc_id;
    })

unfoldable pub get_admin_by_email : Env → Database → String → Option User
get_admin_by_email e db email =
    if e.fails admin_by_email then none else first (admin_at email) db.users

abbrev claim_role : RoleRow → ApartmentRole
claim_role r = record {
  apartment_id = r.apartment_id;
  role = r.role;
  can_create_guests = r.can_create_guests;
}

-- GetRolesByUserID, as claims.
unfoldable pub get_roles_by_user_id : Env → Database → String → Option (List ApartmentRole)
get_roles_by_user_id e db user_id =
    if e.fails roles_by_user
    then none
    else some (
        e.by_apartment
          (map claim_role (filter (λ (r : RoleRow). str_eq r.user_id user_id) db.roles)))

abbrev info_of : ApartmentRole → ApartmentInfo
info_of r = record { id = r.apartment_id; role = r.role }

abbrev pub profile : String → String → List ApartmentRole → String → UserProfile
profile id kind roles mc_id = record {
  id = id;
  kind = kind;
  apartments = map info_of roles;
  mc_id = mc_id;
}

abbrev pub me : Claims → UserProfile
me c = profile c.subject c.kind c.roles c.mc_id
