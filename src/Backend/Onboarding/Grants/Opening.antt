-- ===== src/Backend/Onboarding/Grants/Opening.antt =====
-- Grants as backend/internal/access sees them: which grants open a point, and that an opening follows
-- the matrix of backend/internal/onboarding.
use qr_domofon.Base.{
  String, ◌≡◌, refl, true, false, some, [], inl, inr, arith, Option-cases, first, eq_iff, Member,
  first-Member, first-Holds,
}
use qr_domofon.Backend.Access as Access
use qr_domofon.Backend.Access.{GrantedPoint, open_point}
use qr_domofon.Backend.Access.Gates.{published}
use qr_domofon.Backend.Access.Granted.{open_point-MayOpenPoint}
use qr_domofon.Backend.Database.{Grant, Point, Database, device_of}
use qr_domofon.Backend.Onboarding.Grants.{
  Env, granted_at, point_at, is_public, resolve_granted_point, with_grants, resolve_granted,
}

-- What a grant, its point and the point's device let a user open.
pub record Opens (db : Database) (user_id key : String) (gp : GrantedPoint) : Type 0 where
  pub grant : Grant
  pub standing : Member grant db.grants
  pub user : grant.user_id ≡ user_id
  pub point : Point
  pub built : Member point db.points
  pub same_point : point.id ≡ grant.access_point_id
  pub public : is_public key point ≡ true
  pub device : device_of db.devices point.id ≡ some gp.device_id
  pub access_point : gp.access_point_id ≡ point.id
  pub company : gp.management_company_id ≡ point.mc_id

point_at-some :
    (db : Database) (key : String) (g : Grant) (p : Point) (gp : GrantedPoint)
    → point_at db key g p ≡ some gp
    → (p.id ≡ g.access_point_id)
      × (is_public key p ≡ true)
      × (device_of db.devices p.id ≡ some gp.device_id)
      × (gp.access_point_id ≡ p.id)
      × (gp.management_company_id ≡ p.mc_id)
point_at-some db key g p gp h = (
  (eq_iff p.id g.access_point_id).0 (ground arith),
  ground arith,
  ground arith,
  ground arith,
  ground arith,
)

granted_at-Opens :
    (db : Database) (user_id key : String) (g : Grant) (gp : GrantedPoint)
    → Member g db.grants
    → granted_at db user_id key g ≡ some gp
    → Opens db user_id key gp
granted_at-Opens db user_id key g gp standing h =
    let (p, built, here) = first-Member (point_at db key g) db.points gp (ground arith) in
    let (same, public, device, access_point, company) = point_at-some db key g p gp here in
    record {
      grant = g;
      standing = standing;
      user = (eq_iff g.user_id user_id).0 (ground arith);
      point = p;
      built = built;
      same_point = same;
      public = public;
      device = device;
      access_point = access_point;
      company = company;
    }

resolve-key :
    (e : Env) (db : Database) (user_id public_id : String) (gp : GrantedPoint)
    → resolve_granted_point e db user_id public_id ≡ some (some gp)
    → (key : String) × (e.cast public_id ≡ some key)
      × (first (granted_at db user_id key) db.grants ≡ some gp)
unfolding resolve_granted_point
resolve-key e db user_id public_id gp h = elim (Option-cases (e.cast public_id)) [
  | inl bad ↦ absurd (ground arith)
  | inr (key, good) ↦ (key, good, ground arith)
]

pub resolve-Opens :
    (e : Env) (db : Database) (user_id public_id : String) (gp : GrantedPoint)
    → resolve_granted_point e db user_id public_id ≡ some (some gp)
    → (key : String) × (e.cast public_id ≡ some key) × Opens db user_id key gp
resolve-Opens e db user_id public_id gp h =
    let (key, good, found) = resolve-key e db user_id public_id gp h in
    let (g, standing, here) = first-Member (granted_at db user_id key) db.grants gp found in
    (key, good, granted_at-Opens db user_id key g gp standing here)

-- A point with a device and a grant is opened.
pub granted-resolve :
    (e : Env) (db : Database) (user_id public_id key : String) (g : Grant) (p : Point)
    (device : String)
    → e.is_uuid public_id ≡ true
    → e.fails resolve_granted ≡ false
    → e.cast public_id ≡ some key
    → Member g db.grants
    → g.user_id ≡ user_id
    → Member p db.points
    → p.id ≡ g.access_point_id
    → is_public key p ≡ true
    → device_of db.devices p.id ≡ some device
    → (gp : GrantedPoint) × (resolve_granted_point e db user_id public_id ≡ some (some gp))
unfolding resolve_granted_point
granted-resolve e db user_id public_id key g p device uuid up good standing user built same public
      has_device =
    let (gp, at_point) = first-Holds (point_at db key g) db.points p _ built point_lem in
    let (gp', found) =
      first-Holds (granted_at db user_id key) db.grants g gp standing
        (rw ((eq_iff g.user_id user_id).1 user) at_point) in
    (gp', rw (uuid, up, good, found) refl)
  where
    point_lem :
        point_at db key g p
        ≡ some (record {
          device_id = device;
          access_point_id = p.id;
          apartment_id = "";
          management_company_id = p.mc_id;
        })
    point_lem = rw ((eq_iff p.id g.access_point_id).1 same, public, has_device) refl

-- Without what a grant opens, nothing is published.
pub unresolved-published :
    (e : Env) (db : Database) (doors : Access.Env) (user_id public_id : String)
    → ((gp : GrantedPoint) → resolve_granted_point e db user_id public_id ≡ some (some gp) → ⊥)
    → published (open_point (with_grants e db doors) user_id public_id).1 ≡ []
unresolved-published e db doors user_id public_id none_open =
    elim ((open_point-MayOpenPoint (with_grants e db doors) user_id public_id).0) [
      | inl nothing ↦ nothing
      | inr (gp, may) ↦ absurd (none_open gp may.granted)
    ]
