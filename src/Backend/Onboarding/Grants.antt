-- ===== src/Backend/Onboarding/Grants.antt =====
-- Standing grants: the queries of repo.go and matrix.go of backend/internal/onboarding about points,
-- users and grants, and GrantPoint and RevokePoint of matrix.go. A query that fails answers `none`,
-- and one that finds no row `some none`. Ids that come from tokens or from the database are in the
-- canonical form; those of a request are cast by the driver.
pub mod Opening
pub mod Toggle
pub mod Giving
pub mod Invariant
use Prim.Native.String.{◌++◌}
use qr_domofon.Base.{
  String, Bool, true, false, not, ◌&&◌, ◌||◌, Option, none, some, List, [], ◌∷◌, str_eq, any, first,
  filter, if◌then◌else◌, ◌++◌ as append,
}
use qr_domofon.Backend.Httpx.{ApiError, new_error, validation_error, forbidden, internal_error}
use qr_domofon.Backend.Audit.{Event, no_event, text}
use qr_domofon.Backend.Access as Access
use qr_domofon.Backend.Access.{GrantedPoint, GrantedPointInfo}
use qr_domofon.Backend.Auth.Claims.{Claims}
use qr_domofon.Backend.Database.{
  User, RoleRow, Grant, Apartment, Point, DeviceRow, Database, is_value, grants_point, insert_grant,
  is_passage, device_of,
}

pub data Query : Type 0 where
  get_point get_apartment_row find_user attach_grant_row set_name resolve_granted list_granted :
      Query
  resolve_point user_in_company grant_row revoke_row : Query

-- The queries that fail; uuid.Parse; the cast of a text to a uuid, which fails the query; and
-- ORDER BY label.
pub record Env : Type 0 where
  pub fails : Query → Bool
  pub is_uuid : String → Bool
  pub cast : String → Option String
  pub by_label : List GrantedPointInfo → List GrantedPointInfo

-- A query about an id of a request.
abbrev pub ask {ℓ} : {A : Type ℓ} → Env → Query → String → (String → A) → Option A
ask e q id answer =
    if e.fails q then none else elim (e.cast id) [ none ↦ none | some key ↦ some (answer key) ]

-- The same, after the check of uuid.Parse.
abbrev pub ask_uuid {ℓ} : {A : Type ℓ} → Env → Query → A → String → (String → A) → Option A
ask_uuid e q missing id answer = if not (e.is_uuid id) then some missing else ask e q id answer

abbrev pub is_public : String → Point → Bool
is_public key p = str_eq p.public_id key && p.is_active

abbrev pub point_by_public_id : List Point → String → Option Point
point_by_public_id points key =
    first (λ (p : Point). if is_public key p then some p else none) points

unfoldable pub get_access_point : Env → Database → String → Option (Option Point)
get_access_point e db public_id =
    ask_uuid e get_point none public_id (λ key. point_by_public_id db.points key)

unfoldable pub get_apartment : Env → Database → String → Option (Option Apartment)
get_apartment e db apartment_id = ask_uuid e get_apartment_row none apartment_id (λ key.
    first (λ (a : Apartment). if str_eq a.id key && a.is_active then some a else none)
      db.apartments)

-- A role or a grant of the user in the company.
abbrev pub belongs : Database → String → String → Bool
belongs db user_id mc_id =
    any (λ (r : RoleRow). str_eq r.user_id user_id && str_eq r.mc_id mc_id) db.roles
    || any (λ (g : Grant). str_eq g.user_id user_id && str_eq g.mc_id mc_id) db.grants

unfoldable pub find_user_by_phone_in_mc : Env → Database → String → String → Option (Option String)
find_user_by_phone_in_mc e db phone mc_id =
    if e.fails find_user
    then none
    else some (
        first
          (λ (u : User).
            if is_value u.phone phone && belongs db u.id mc_id then some u.id else none)
          db.users)

-- An insertion of a grant, and whether it succeeded.
unfoldable pub attach_access_grant :
    Env → Database → String → String → String → String → Bool × Database
attach_access_grant e db user_id point_id mc_id granted_by =
    if e.fails attach_grant_row then (false, db) else (
      true,
      record db {
        grants =
            (insert_grant db.grants (record {
              user_id = user_id;
              access_point_id = point_id;
              mc_id = mc_id;
              granted_by = some granted_by;
            })).1;
      },
    )

-- A point of a grant, with its device.
abbrev pub point_at : Database → String → Grant → Point → Option GrantedPoint
point_at db key g p =
    if not (str_eq p.id g.access_point_id && is_public key p)
    then none
    else elim (device_of db.devices p.id) [
      | none ↦ none
      | some device ↦ some (record {
        device_id = device;
        access_point_id = p.id;
        apartment_id = "";
        management_company_id = p.mc_id;
      })
    ]

-- What a grant of the user opens, for a public id.
abbrev pub granted_at : Database → String → String → Grant → Option GrantedPoint
granted_at db user_id key g =
    if not (str_eq g.user_id user_id) then none else first (point_at db key g) db.points

unfoldable pub resolve_granted_point :
    Env → Database → String → String → Option (Option GrantedPoint)
resolve_granted_point e db user_id public_id =
    ask_uuid e resolve_granted none public_id (λ key. first (granted_at db user_id key) db.grants)

-- The points that match a grant, with their devices.
abbrev pub infos_at : List DeviceRow → Grant → List Point → List GrantedPointInfo
infos_at devices g [] = []
infos_at devices g (p ∷ ps) =
    let rest = infos_at devices g ps in
    if not (str_eq p.id g.access_point_id && p.is_active)
    then rest
    else elim (device_of devices p.id) [
      | none ↦ rest
      | some device ↦
          (record { public_id = p.public_id; label = p.label; type = p.type; device_id = device })
          ∷ rest
    ]

abbrev pub infos_of : Database → String → List Grant → List GrantedPointInfo
infos_of db user_id [] = []
infos_of db user_id (g ∷ gs) =
    let rest = infos_of db user_id gs in
    if str_eq g.user_id user_id then append (infos_at db.devices g db.points) rest else rest

unfoldable pub list_granted_points : Env → Database → String → Option (List GrantedPointInfo)
list_granted_points e db user_id =
    if e.fails list_granted then none else some (e.by_label (infos_of db user_id db.grants))

-- A gate or a barrier of the company, by the public id of a request.
unfoldable pub resolve_point_in_mc : Env → Database → String → String → Option (Option String)
resolve_point_in_mc e db public_id mc_id = ask_uuid e resolve_point none public_id (λ key.
    elim (point_by_public_id db.points key) [
      | none ↦ none
      | some p ↦ if str_eq p.mc_id mc_id && is_passage p.type then some p.id else none
    ])

unfoldable pub user_in_mc : Env → Database → String → String → Option Bool
user_in_mc e db user_id mc_id =
    ask_uuid e user_in_company false user_id (λ key. belongs db key mc_id)

unfoldable pub grant_returning :
    Env → Database → String → String → String → String → Option (Bool × Database)
grant_returning e db user_id point_id mc_id granted_by = ask e grant_row user_id (λ key.
    let (created, grants) = insert_grant db.grants (record {
      user_id = key;
      access_point_id = point_id;
      mc_id = mc_id;
      granted_by = some granted_by;
    }) in
    (created, record db { grants = grants }))

abbrev pub revoked : String → String → String → Grant → Bool
revoked user_id point_id mc_id g = grants_point user_id point_id g && str_eq g.mc_id mc_id

unfoldable pub revoke_grant : Env → Database → String → String → String → Option (Bool × Database)
revoke_grant e db user_id point_id mc_id = ask e revoke_row user_id (λ key. (
  any (revoked key point_id mc_id) db.grants,
  record db { grants = filter (λ g. not (revoked key point_id mc_id g)) db.grants },
))

-- What a request to change a grant leaves: an error if any, the database, and the audit's events.
pub record Outcome : Type 0 where
  pub error : Option ApiError
  pub db : Database
  pub events : List Event

abbrev failed : ApiError → Database → Outcome
failed error db = record { error = some error; db = db; events = [] }

abbrev toggle_event : Claims → String → String → String → String → Event
toggle_event claims event_type key user_id point_id = record no_event {
  event_type = event_type;
  actor = "user:" ++ claims.subject;
  access_point_id = point_id;
  management_company_id = claims.mc_id;
  metadata = (key, text user_id) ∷ ("via", text "matrix") ∷ [];
}

abbrev changed : Bool → Event → Database → Outcome
changed did event db = record { error = none; db = db; events = if did then event ∷ [] else [] }

-- GrantPoint, for a point of the company.
unfoldable pub grant_at : Env → Database → Claims → String → String → Outcome
unfolding user_in_mc grant_returning
grant_at e db claims user_id point_id = elim (user_in_mc e db user_id claims.mc_id) [
  | none ↦ failed internal_error db
  | some false ↦ failed (new_error forbidden "User does not belong to this management company") db
  | some true ↦ elim (grant_returning e db user_id point_id claims.mc_id claims.subject) [
    | none ↦ failed internal_error db
    | some (created, after) ↦
        changed created (toggle_event claims "access_grant_created" "granted_to" user_id point_id)
          after
  ]
]

unfoldable pub grant_point : Env → Database → Claims → String → String → Outcome
unfolding resolve_point_in_mc grant_at
grant_point e db claims user_id public_id = elim (resolve_point_in_mc e db public_id claims.mc_id) [
  | none ↦ failed internal_error db
  | some none ↦ failed (new_error validation_error "Access point not found") db
  | some (some point_id) ↦ grant_at e db claims user_id point_id
]

-- RevokePoint, for a point of the company.
unfoldable pub revoke_at : Env → Database → Claims → String → String → Outcome
unfolding revoke_grant
revoke_at e db claims user_id point_id = elim (revoke_grant e db user_id point_id claims.mc_id) [
  | none ↦ failed internal_error db
  | some (removed, after) ↦
      changed removed (toggle_event claims "access_grant_revoked" "revoked_from" user_id point_id)
        after
]

unfoldable pub revoke_point : Env → Database → Claims → String → String → Outcome
unfolding resolve_point_in_mc revoke_at
revoke_point e db claims user_id public_id =
    elim (resolve_point_in_mc e db public_id claims.mc_id) [
      | none ↦ failed internal_error db
      | some none ↦ failed (new_error validation_error "Access point not found") db
      | some (some point_id) ↦ revoke_at e db claims user_id point_id
    ]

-- cmd/server/main.go gives the repository to access as its resolver and its lister.
abbrev pub with_grants : Env → Database → Access.Env → Access.Env
with_grants e db doors = record doors {
  resolve_granted_point = resolve_granted_point e db;
  list_granted_points = list_granted_points e db;
}
