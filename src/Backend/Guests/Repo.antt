-- ===== src/Backend/Guests/Repo.antt =====
-- The guests of backend/internal/guests/repo.go, over the tables of the database and what can be offered.
-- A query that fails answers `none`. Ids from tokens and from the database are in the canonical form;
-- those of a request are cast.
pub mod Derived
pub mod Revocation
use qr_domofon.Base.{
  ℕ, suc, ◌+◌, String, Bool, true, false, not, ◌&&◌, ◌||◌, Option, none, some, List, [], ◌∷◌, ltb,
  str_eq, any, first, filter, update_rows, if◌then◌else◌, ◌++◌ as append,
}
use qr_domofon.Backend.Database.{
  RoleRow, Grant, Apartment, Point, DeviceRow, GuestAccess, GuestPoint, Database, has_grant,
  has_role, is_passage, device_of, is_value,
}
use qr_domofon.Backend.Guests.{
  Env, NewGuest, GuestRow, PointOption, GuestPointView, ResolvedPoint, GuestSummary,
  max_guest_duration,
}
use qr_domofon.Backend.Guests.Offers.{
  Query, Sql, ask, apartment_mc, can_create_guests, is_apartment_member, owns_apartment,
  same_entrance, leads_to, option_of, options, entrance_options, grant_options, allowed_rows,
  distinct, allowed_points, mc_of, can_create, is_member, allowed, begin, insert_guest_row, commit,
  get_guest, points_of, resolve_open, list_guests_of, revoke_row, set_permission_row, owns,
  insert_point,
}

abbrev guest_access : String → NewGuest → GuestAccess
guest_access id g = record {
  id = id;
  token_hash = g.token_hash;
  full_name = g.full_name;
  apartment_id = g.apartment_id;
  mc_id = g.mc_id;
  created_by = g.created_by;
  valid_from = g.valid_from;
  valid_to = g.valid_to;
  revoked_at = none;
  revoked_by = none;
}

-- UNIQUE on token_hash, and the two constraints on the window.
abbrev violates : List GuestAccess → NewGuest → Bool
violates guests g =
    any (λ (h : GuestAccess). str_eq h.token_hash g.token_hash) guests
    || not (ltb g.valid_from g.valid_to)
    || ltb (g.valid_from + max_guest_duration) g.valid_to

-- The loop over the points, `ON CONFLICT (guest_access_id, access_point_id) DO NOTHING`.
unfoldable pub insert_guest_points :
    Sql → String → String → List GuestPoint → List String → Option (List GuestPoint)
insert_guest_points e id mc_id rows [] = some rows
insert_guest_points e id mc_id rows (p ∷ ps) =
    let row : GuestPoint = record { guest_id = id; access_point_id = p; mc_id = mc_id } in
    let there = any (λ (r : GuestPoint). str_eq r.guest_id id && str_eq r.access_point_id p) rows in
    let rest = insert_guest_points e id mc_id (if there then rows else row ∷ rows) ps in
    if e.fails (insert_point p) then none else rest

-- An error rolls the transaction back, so that it leaves no database of its own.
unfoldable pub create_guest_row : Sql → Database → NewGuest → Option (String × Database)
unfolding insert_guest_points
create_guest_row e db g =
    if e.fails begin || e.fails insert_guest_row || violates db.guests g
    then none
    else elim (insert_guest_points e e.new_id g.mc_id db.guest_points g.point_ids) [
      | none ↦ none
      | some points ↦
          if e.fails commit
          then none
          else some (
            e.new_id,
            record db { guests = guest_access e.new_id g ∷ db.guests; guest_points = points },
          )
    ]

abbrev pub row_of : GuestAccess → GuestRow
row_of g = record {
  id = g.id;
  full_name = g.full_name;
  apartment_id = g.apartment_id;
  mc_id = g.mc_id;
  created_by = g.created_by;
  valid_from = g.valid_from;
  valid_to = g.valid_to;
  revoked_at = g.revoked_at;
}

abbrev pub guest_by_hash : List GuestAccess → String → Option GuestAccess
guest_by_hash guests hash =
    first (λ (g : GuestAccess). if str_eq g.token_hash hash then some g else none) guests

abbrev pub row_or_none : Option GuestAccess → Option GuestRow
row_or_none none = none
row_or_none (some g) = some (row_of g)

unfoldable pub get_guest_by_token_hash : Sql → Database → String → Option (Option GuestRow)
get_guest_by_token_hash e db hash =
    if e.fails get_guest then none else some (row_or_none (guest_by_hash db.guests hash))

-- The active points of one row of the guest's set, with their devices.
abbrev set_views : List DeviceRow → GuestPoint → List Point → List GuestPointView
set_views devices gap [] = []
set_views devices gap (p ∷ ps) =
    let rest = set_views devices gap ps in
    if not (str_eq p.id gap.access_point_id && p.is_active)
    then rest
    else elim (device_of devices p.id) [
      | none ↦ rest
      | some device ↦
          (record { public_id = p.public_id; label = p.label; type = p.type; device_id = device })
          ∷ rest
    ]

abbrev views_of : Database → String → List GuestPoint → List GuestPointView
views_of db guest_id [] = []
views_of db guest_id (gap ∷ gaps) =
    let rest = views_of db guest_id gaps in
    if str_eq gap.guest_id guest_id then append (set_views db.devices gap db.points) rest else rest

unfoldable pub guest_points : Sql → Database → String → Option (List GuestPointView)
guest_points e db guest_id =
    if e.fails points_of
    then none
    else some (e.by_type_label (views_of db guest_id db.guest_points))

-- The creator may still open the point.
abbrev pub may_still : Database → String → Apartment → Point → Bool
may_still db created_by a p =
    (leads_to a p && has_role db.roles created_by a.id)
    || (is_passage p.type && has_grant db.grants created_by p.id)

abbrev pub resolved_at : Database → String → String → Apartment → Point → Option ResolvedPoint
resolved_at db created_by apartment_id a p =
    if not (str_eq a.id apartment_id && a.is_active && may_still db created_by a p)
    then none
    else elim (device_of db.devices p.id) [
      | none ↦ none
      | some device ↦ some (record {
        device_id = device;
        access_point_id = p.id;
        apartment_id = a.id;
        management_company_id = p.mc_id;
      })
    ]

-- One row of the guest's set, for a public id.
abbrev pub set_point :
    Database → String → String → String → String → GuestPoint → Option ResolvedPoint
set_point db guest_id created_by apartment_id key gap =
    if not (str_eq gap.guest_id guest_id)
    then none
    else first
        (λ (p : Point).
          if not (str_eq p.id gap.access_point_id && p.is_active && str_eq p.public_id key)
          then none
          else first (λ a. resolved_at db created_by apartment_id a p) db.apartments)
        db.points

unfoldable pub resolve_guest_open_point :
    Sql → Database → String → String → String → String → Option (Option ResolvedPoint)
resolve_guest_open_point e db guest_id created_by apartment_id public_id =
    if not (e.is_uuid public_id)
    then some none
    else ask e resolve_open public_id
        (λ key. first (set_point db guest_id created_by apartment_id key) db.guest_points)

abbrev count_points : String → List GuestPoint → ℕ
count_points guest_id [] = 0
count_points guest_id (gap ∷ gaps) =
    let rest = count_points guest_id gaps in if str_eq gap.guest_id guest_id then suc rest else rest

abbrev summaries : Database → String → List GuestAccess → List GuestSummary
summaries db created_by [] = []
summaries db created_by (g ∷ gs) =
    let rest = summaries db created_by gs in
    let summary : GuestSummary = record {
      id = g.id;
      full_name = g.full_name;
      valid_from = g.valid_from;
      valid_to = g.valid_to;
      revoked_at = g.revoked_at;
      points = count_points g.id db.guest_points;
    } in
    if str_eq g.created_by created_by then summary ∷ rest else rest

unfoldable pub list_by_creator : Sql → Database → String → Option (List GuestSummary)
list_by_creator e db created_by =
    if e.fails list_guests_of
    then none
    else some (e.by_creation (summaries db created_by db.guests))

-- A guest that the user may revoke: of its own, or of an apartment that it owns.
abbrev pub may_revoke : Database → String → String → GuestAccess → Bool
may_revoke db guest_id by_user g =
    str_eq g.id guest_id
    && elim g.revoked_at [ none ↦ true | some _ ↦ false ]
    && (str_eq g.created_by by_user
        || any
            (λ (r : RoleRow).
              str_eq r.user_id by_user
              && str_eq r.apartment_id g.apartment_id
              && str_eq r.role "owner")
            db.roles)

unfoldable pub revoke : Sql → Database → String → String → ℕ → Option (Bool × Database)
revoke e db guest_id by_user now = ask e revoke_row guest_id (λ key. (
  any (may_revoke db key by_user) db.guests,
  record db {
    guests =
        update_rows (may_revoke db key by_user)
          (λ g. record g { revoked_at = some now; revoked_by = some by_user }) db.guests;
  },
))

unfoldable pub set_guest_permission :
    Sql → Database → String → String → Bool → Option (Bool × Database)
set_guest_permission e db apartment_id user_id enabled =
    if e.fails set_permission_row then none else elim (e.cast apartment_id) [
      | none ↦ none
      | some apartment ↦ elim (e.cast user_id) [
        | none ↦ none
        | some user ↦
            let of_user : RoleRow → Bool =
              λ r. str_eq r.user_id user && str_eq r.apartment_id apartment in
            some (
              any of_user db.roles,
              record db {
                roles =
                    update_rows of_user (λ (r : RoleRow). record r { can_create_guests = enabled })
                      db.roles;
              },
            )
      ]
    ]

abbrev answer {ℓ} : {A : Type ℓ} → Option (A × Database) → Option A
answer none = none
answer (some (a, _)) = some a

-- cmd/server/main.go gives the repository to the service.
abbrev pub with_repo : Sql → Database → Env → Env
with_repo e db env = record env {
  apartment_mc = apartment_mc e db;
  is_apartment_member = is_apartment_member e db;
  can_create_guests = can_create_guests e db;
  owns_apartment = owns_apartment e db;
  allowed_points = allowed_points e db;
  create_guest_row = λ g. answer (create_guest_row e db g);
  get_guest_by_token_hash = get_guest_by_token_hash e db;
  guest_points = guest_points e db;
  resolve_guest_open_point = resolve_guest_open_point e db;
  list_by_creator = list_by_creator e db;
  revoke_row = λ guest_id by_user now. answer (revoke e db guest_id by_user now);
  set_guest_permission = λ apartment_id user_id enabled.
      answer (set_guest_permission e db apartment_id user_id enabled);
}
