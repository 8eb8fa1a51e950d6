-- ===== src/Backend/Guests/Repo/Derived.antt =====
-- A guest's access is its creator's, ResolveGuestOpenPoint and allowedPointsCTE of
-- backend/internal/guests/repo.go.
use mathlib.Core.Path.{subst}
use qr_domofon.Base.{
  String, ◌≡◌, refl, sym, ◌∙◌, Bool, true, not, ◌&&◌, none, some, List, [], ◌∷◌, inl, inr, arith,
  str_eq, if◌then◌else◌, Bool-cases, Option-cases, first, eq_iff, and_left, and_right, or_right,
  Member, first-Member, ◌++◌,
}
use qr_domofon.Backend.Database.{
  Grant, Apartment, Point, GuestPoint, Database, device_of, has_grant, has_role, is_passage,
  grants_point,
}
use qr_domofon.Backend.Guests.{PointOption, ResolvedPoint}
use qr_domofon.Backend.Guests.Create.{Offered}
use qr_domofon.Backend.Guests.Offers.{
  Sql, leads_to, options, entrance_options, grant_options, allowed_rows,
}
use qr_domofon.Backend.Guests.Repo.{resolve_guest_open_point, set_point, resolved_at, may_still}

-- A point of the guest's set that the creator may still open.
pub record Derived (db : Database) (guest_id created_by apartment_id key : String)
    (rp : ResolvedPoint) : Type 0 where
  pub entry : GuestPoint
  pub in_set : Member entry db.guest_points
  pub of_guest : entry.guest_id ≡ guest_id
  pub point : Point
  pub built : Member point db.points
  pub same_point : point.id ≡ entry.access_point_id
  pub active : point.is_active ≡ true
  pub public : point.public_id ≡ key
  pub apartment : Apartment
  pub lived : Member apartment db.apartments
  pub same_apartment : apartment.id ≡ apartment_id
  pub apartment_active : apartment.is_active ≡ true
  pub still : may_still db created_by apartment point ≡ true
  pub device : device_of db.devices point.id ≡ some rp.device_id
  pub access_point : rp.access_point_id ≡ point.id

resolved_at-some :
    (db : Database) (created_by apartment_id : String) (a : Apartment) (p : Point)
    (rp : ResolvedPoint)
    → resolved_at db created_by apartment_id a p ≡ some rp
    → (a.id ≡ apartment_id)
      × (a.is_active ≡ true)
      × (may_still db created_by a p ≡ true)
      × (device_of db.devices p.id ≡ some rp.device_id)
      × (rp.access_point_id ≡ p.id)
resolved_at-some db created_by apartment_id a p rp h = (
  (eq_iff a.id apartment_id).0 (ground arith),
  ground arith,
  ground arith,
  ground arith,
  ground arith,
)

set_point-Derived :
    (db : Database) (guest_id created_by apartment_id key : String) (gap : GuestPoint)
    (rp : ResolvedPoint)
    → Member gap db.guest_points
    → set_point db guest_id created_by apartment_id key gap ≡ some rp
    → Derived db guest_id created_by apartment_id key rp
set_point-Derived db guest_id created_by apartment_id key gap rp in_set h =
    let (p, built, at_point) =
      first-Member
        (λ (p : Point).
          if not (str_eq p.id gap.access_point_id && p.is_active && str_eq p.public_id key)
          then none
          else first (λ a. resolved_at db created_by apartment_id a p) db.apartments)
        db.points rp (ground arith) in
    let (a, lived, at_apartment) =
      first-Member (λ a. resolved_at db created_by apartment_id a p) db.apartments rp
        (ground arith) in
    let (same, alive, still, device, access_point) =
      resolved_at-some db created_by apartment_id a p rp at_apartment in
    record {
      entry = gap;
      in_set = in_set;
      of_guest = (eq_iff gap.guest_id guest_id).0 (ground arith);
      point = p;
      built = built;
      same_point = (eq_iff p.id gap.access_point_id).0 (ground arith);
      active = ground arith;
      public = (eq_iff p.public_id key).0 (ground arith);
      apartment = a;
      lived = lived;
      same_apartment = same;
      apartment_active = alive;
      still = still;
      device = device;
      access_point = access_point;
    }

resolve-key :
    (e : Sql) (db : Database) (guest_id created_by apartment_id public_id : String)
    (rp : ResolvedPoint)
    → resolve_guest_open_point e db guest_id created_by apartment_id public_id ≡ some (some rp)
    → (key : String) × (e.cast public_id ≡ some key)
      × (first (set_point db guest_id created_by apartment_id key) db.guest_points ≡ some rp)
unfolding resolve_guest_open_point
resolve-key e db guest_id created_by apartment_id public_id rp h =
    elim (Option-cases (e.cast public_id)) [
      | inl bad ↦ absurd (ground arith)
      | inr (key, good) ↦ (key, good, ground arith)
    ]

pub resolve-Derived :
    (e : Sql) (db : Database) (guest_id created_by apartment_id public_id : String)
    (rp : ResolvedPoint)
    → resolve_guest_open_point e db guest_id created_by apartment_id public_id ≡ some (some rp)
    → (key : String) × (e.cast public_id ≡ some key)
      × Derived db guest_id created_by apartment_id key rp
resolve-Derived e db guest_id created_by apartment_id public_id rp h =
    let (key, good, found) = resolve-key e db guest_id created_by apartment_id public_id rp h in
    let (gap, in_set, here) =
      first-Member (set_point db guest_id created_by apartment_id key) db.guest_points rp found in
    (key, good, set_point-Derived db guest_id created_by apartment_id key gap rp in_set here)

Offered-left : (xs ys : List PointOption) (id : String) → Offered xs id → Offered (xs ++ ys) id
Offered-left [] ys id o = absurd o
Offered-left (x ∷ xs) ys id (inl here) = inl here
Offered-left (x ∷ xs) ys id (inr later) = inr (Offered-left xs ys id later)

Offered-right : (xs ys : List PointOption) (id : String) → Offered ys id → Offered (xs ++ ys) id
Offered-right [] ys id o = o
Offered-right (x ∷ xs) ys id o = inr (Offered-right xs ys id o)

Offered-options :
    (test : Point → Bool) (points : List Point) (p : Point)
    → Member p points
    → (p.is_active && test p) ≡ true
    → Offered (options test points) p.id
Offered-options test [] p m h = absurd (m.0)
Offered-options test (q ∷ points) p (inl same) h = rw (same, h) (inl refl)
Offered-options test (q ∷ points) p (inr m) h = elim (Bool-cases (q.is_active && test q)) [
  | inl taken ↦ rw taken (inr (Offered-options test points p m h))
  | inr skipped ↦ rw skipped (Offered-options test points p m h)
]

Offered-entrance :
    (db : Database) (created_by : String) (apartments : List Apartment) (a : Apartment) (p : Point)
    → Member a apartments
    → a.is_active ≡ true
    → has_role db.roles created_by a.id ≡ true
    → Member p db.points
    → p.is_active ≡ true
    → leads_to a p ≡ true
    → Offered (entrance_options db a.id created_by apartments) p.id
Offered-entrance db created_by [] a p m alive lives built active leads = absurd (m.0)
Offered-entrance db created_by (b ∷ apartments) a p (inl same) alive lives built active leads =
    rw (same, (eq_iff a.id a.id).1 refl, alive, lives)
      (Offered-left (options (leads_to a) db.points)
        (entrance_options db a.id created_by apartments) p.id
        (Offered-options (leads_to a) db.points p built (ground arith)))
Offered-entrance db created_by (b ∷ apartments) a p (inr m) alive lives built active leads =
    let later = Offered-entrance db created_by apartments a p m alive lives built active leads in
    elim (Bool-cases (str_eq b.id a.id && b.is_active && has_role db.roles created_by b.id)) [
      | inl taken ↦ rw taken (
          Offered-right (options (leads_to b) db.points)
            (entrance_options db a.id created_by apartments) p.id later)
      | inr skipped ↦ rw skipped later
    ]

Offered-grant :
    (db : Database) (created_by : String) (grants : List Grant) (p : Point)
    → has_grant grants created_by p.id ≡ true
    → Member p db.points
    → p.is_active ≡ true
    → is_passage p.type ≡ true
    → Offered (grant_options db created_by grants) p.id
Offered-grant db created_by [] p held built active passage = absurd (ground arith)
Offered-grant db created_by (g ∷ grants) p held built active passage =
    elim (Bool-cases (grants_point created_by p.id g)) [
      | inl here ↦
          let user : str_eq g.user_id created_by ≡ true = ground arith in
          let same = sym ((eq_iff g.access_point_id p.id).0 (ground arith)) in
          rw user (
            Offered-left
              (options (λ q. str_eq q.id g.access_point_id && is_passage q.type) db.points)
              (grant_options db created_by grants) p.id
              (Offered-options (λ q. str_eq q.id g.access_point_id && is_passage q.type) db.points p
                built (rw ((eq_iff p.id g.access_point_id).1 same) (ground arith))))
      | inr other ↦
          let later = Offered-grant db created_by grants p (ground arith) built active passage in
          elim (Bool-cases (str_eq g.user_id created_by)) [
            | inl own ↦ rw own (
                Offered-right
                  (options (λ q. str_eq q.id g.access_point_id && is_passage q.type) db.points)
                  (grant_options db created_by grants) p.id later)
            | inr foreign ↦ rw foreign later
          ]
    ]

Derived-Offered :
    (db : Database) (guest_id created_by apartment_id key : String) (rp : ResolvedPoint)
    → Derived db guest_id created_by apartment_id key rp
    → Offered (allowed_rows db apartment_id created_by) rp.access_point_id
Derived-Offered db guest_id created_by apartment_id key rp d =
    let entrances = entrance_options db apartment_id created_by db.apartments in
    let gates = grant_options db created_by db.grants in
    rw d.access_point
      (elim (Bool-cases
        (leads_to d.apartment d.point && has_role db.roles created_by d.apartment.id)) [
          | inl lives ↦ Offered-left entrances gates d.point.id (
              subst (λ id. Offered (entrance_options db id created_by db.apartments) d.point.id)
                d.same_apartment
                (Offered-entrance db created_by db.apartments d.apartment d.point d.lived
                  d.apartment_active (and_right _ _ lives) d.built d.active (and_left _ _ lives)))
          | inr gate ↦
              let held = or_right _ _ d.still gate in
              Offered-right entrances gates d.point.id (
                Offered-grant db created_by db.grants d.point (and_right _ _ held) d.built d.active
                  (and_left _ _ held))
        ])

-- What ResolveGuestOpenPoint lets a guest open is a point of the guest's set that is still among
-- the rows of allowedPointsCTE for the creator.
pub resolve-Offered :
    (e : Sql) (db : Database) (guest_id created_by apartment_id public_id : String)
    (rp : ResolvedPoint)
    → resolve_guest_open_point e db guest_id created_by apartment_id public_id ≡ some (some rp)
    → Offered (allowed_rows db apartment_id created_by) rp.access_point_id
      × ((entry : GuestPoint) × Member entry db.guest_points
          × (entry.guest_id ≡ guest_id)
          × (entry.access_point_id ≡ rp.access_point_id))
resolve-Offered e db guest_id created_by apartment_id public_id rp h =
    let (key, good, d) = resolve-Derived e db guest_id created_by apartment_id public_id rp h in
    (
      Derived-Offered db guest_id created_by apartment_id key rp d,
      (d.entry, d.in_set, d.of_guest, sym (d.access_point ∙ d.same_point)),
    )
