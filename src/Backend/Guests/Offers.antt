-- ===== src/Backend/Guests/Offers.antt =====
-- The queries of backend/internal/guests/repo.go, and the points that a guest can be offered: ApartmentMC,
-- the tests on roles, and allowedPointsCTE. A query that fails answers `none`. Ids from tokens and from the
-- database are in the canonical form; those of a request are cast.
use qr_domofon.Base.{
  String, Bool, true, not, ◌&&◌, ◌||◌, Option, none, some, List, [], ◌∷◌, str_eq, any, first,
  filter, if◌then◌else◌, ◌++◌ as append,
}
use qr_domofon.Backend.Database.{
  RoleRow, Grant, Apartment, Point, Database, has_role, is_passage, is_value,
}
use qr_domofon.Backend.Guests.{PointOption, GuestPointView, GuestSummary}

pub data Query : Type 0 where
  mc_of can_create is_member allowed begin insert_guest_row commit get_guest points_of : Query
  resolve_open list_guests_of revoke_row set_permission_row owns : Query
  insert_point : String → Query

-- The queries that fail; uuid.Parse; the cast of a text to a uuid; a fresh id; and the orders of the
-- rows of an answer.
pub record Sql : Type 0 where
  pub fails : Query → Bool
  pub is_uuid : String → Bool
  pub cast : String → Option String
  pub new_id : String
  pub by_type : List PointOption → List PointOption
  pub by_type_label : List GuestPointView → List GuestPointView
  pub by_creation : List GuestSummary → List GuestSummary

abbrev pub ask {ℓ} : {A : Type ℓ} → Sql → Query → String → (String → A) → Option A
ask e q id answer =
    if e.fails q then none else elim (e.cast id) [ none ↦ none | some key ↦ some (answer key) ]

unfoldable pub apartment_mc : Sql → Database → String → Option (Option String)
apartment_mc e db apartment_id =
    if not (e.is_uuid apartment_id)
    then some none
    else ask e mc_of apartment_id (λ key.
      first (λ (a : Apartment). if str_eq a.id key && a.is_active then some a.mc_id else none)
        db.apartments)

unfoldable pub can_create_guests : Sql → Database → String → String → Option Bool
can_create_guests e db user_id apartment_id = ask e can_create apartment_id (λ key.
    any
      (λ (r : RoleRow).
        str_eq r.user_id user_id
        && str_eq r.apartment_id key
        && (str_eq r.role "owner" || r.can_create_guests))
      db.roles)

unfoldable pub is_apartment_member : Sql → Database → String → String → Option Bool
is_apartment_member e db user_id apartment_id =
    ask e is_member apartment_id (λ key. has_role db.roles user_id key)

unfoldable pub owns_apartment : Sql → Database → String → String → Option Bool
owns_apartment e db user_id apartment_id = ask e owns apartment_id (λ key.
    any
      (λ (r : RoleRow).
        str_eq r.user_id user_id && str_eq r.apartment_id key && str_eq r.role "owner")
      db.roles)

-- `a.entrance_id IS NULL OR ap.entrance_id IS NULL OR ap.entrance_id = a.entrance_id`.
abbrev pub same_entrance : Option String → Option String → Bool
same_entrance none _ = true
same_entrance (some _) none = true
same_entrance (some a) (some p) = str_eq p a

-- An entrance of the apartment's house.
abbrev pub leads_to : Apartment → Point → Bool
leads_to a p =
    str_eq p.type "entrance"
    && is_value p.building_id a.building_id
    && same_entrance a.entrance_id p.entrance_id

abbrev pub option_of : Point → PointOption
option_of p = record { id = p.id; public_id = p.public_id; label = p.label; type = p.type }

-- The points of a test, as options.
abbrev pub options : (Point → Bool) → List Point → List PointOption
options test [] = []
options test (p ∷ ps) =
    let rest = options test ps in if p.is_active && test p then option_of p ∷ rest else rest

abbrev pub entrance_options : Database → String → String → List Apartment → List PointOption
entrance_options db apartment_id created_by [] = []
entrance_options db apartment_id created_by (a ∷ as') =
    let rest = entrance_options db apartment_id created_by as' in
    if str_eq a.id apartment_id && a.is_active && has_role db.roles created_by a.id
    then append (options (leads_to a) db.points) rest
    else rest

abbrev pub grant_options : Database → String → List Grant → List PointOption
grant_options db created_by [] = []
grant_options db created_by (g ∷ gs) =
    let rest = grant_options db created_by gs in
    if str_eq g.user_id created_by
    then append (options (λ p. str_eq p.id g.access_point_id && is_passage p.type) db.points) rest
    else rest

-- allowedPointsCTE, before the UNION drops the rows that are there twice.
abbrev pub allowed_rows : Database → String → String → List PointOption
allowed_rows db apartment_id created_by =
    append (entrance_options db apartment_id created_by db.apartments)
      (grant_options db created_by db.grants)

abbrev same_option : PointOption → PointOption → Bool
same_option o p =
    str_eq p.id o.id
    && str_eq p.public_id o.public_id
    && str_eq p.label o.label
    && str_eq p.type o.type

unfoldable pub distinct : List PointOption → List PointOption
distinct [] = []
distinct (o ∷ opts) = o ∷ filter (λ p. not (same_option o p)) (distinct opts)

unfoldable pub allowed_points : Sql → Database → String → String → Option (List PointOption)
unfolding distinct
allowed_points e db apartment_id created_by =
    ask e allowed apartment_id (λ key. e.by_type (distinct (allowed_rows db key created_by)))
