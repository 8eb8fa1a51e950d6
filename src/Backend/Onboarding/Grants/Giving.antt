-- ===== src/Backend/Onboarding/Grants/Giving.antt =====
-- A grant that is given, GrantPoint of backend/internal/onboarding/matrix.go.
use mathlib.Core.Path.{subst}
use qr_domofon.Base.{
  String, ◌≡◌, refl, sym, ◌∙◌, true, false, none, some, [], inl, inr, arith, Bool-cases,
  Option-cases, eq_iff, Member, any-Member, ◌↔◌,
}
use qr_domofon.Backend.Access.{GrantedPoint}
use qr_domofon.Backend.Auth.Claims.{Claims}
use qr_domofon.Backend.Database.{
  Grant, Point, Database, device_of, insert_grant, has_grant, grants_point,
}
use qr_domofon.Backend.Onboarding.Grants.{
  Env, Outcome, is_public, resolve_granted_point, resolve_point_in_mc, belongs, grant_point,
  grant_at, grant_returning, user_in_mc, resolve_granted, grant_row, user_in_company,
}
use qr_domofon.Backend.Onboarding.Grants.Opening.{Opens, resolve-Opens, granted-resolve}
use qr_domofon.Backend.Onboarding.Grants.Toggle.{
  IsValid, Named, resolve_point-Named, some-injective, is_public-key,
}

abbrev pub given : Claims → String → String → Grant
given claims user point_id = record {
  user_id = user;
  access_point_id = point_id;
  mc_id = claims.mc_id;
  granted_by = some claims.subject;
}

-- What a GrantPoint that succeeds does.
pub record Granted (e : Env) (db : Database) (claims : Claims) (user_id public_id : String)
    (outcome : Outcome) : Type 0 where
  pub point_id : String
  pub named : Named e db public_id claims.mc_id point_id
  pub user : String
  pub cast_lem : e.cast user_id ≡ some user
  pub member : belongs db user claims.mc_id ≡ true
  pub after_lem :
      record db { grants = (insert_grant db.grants (given claims user point_id)).1 } ≡ outcome.db
  pub event_lem : (outcome.events ≡ []) ↔ (has_grant db.grants user point_id ≡ true)

grant_at-user :
    (e : Env) (db : Database) (claims : Claims) (user_id point_id : String)
    → (grant_at e db claims user_id point_id).error ≡ none
    → (user : String) × (e.cast user_id ≡ some user)
      × (belongs db user claims.mc_id ≡ true)
      × (record db { grants = (insert_grant db.grants (given claims user point_id)).1 }
          ≡ (grant_at e db claims user_id point_id).db)
      × (((grant_at e db claims user_id point_id).events ≡ [])
          ↔ (has_grant db.grants user point_id ≡ true))
unfolding grant_at user_in_mc grant_returning insert_grant
grant_at-user e db claims user_id point_id h = elim (Option-cases (e.cast user_id)) [
  | inl bad ↦ absurd (ground arith)
  | inr (user, good) ↦ elim (Bool-cases (belongs db user claims.mc_id)) [
    | inr stranger ↦ absurd (ground arith)
    | inl member ↦ elim (Bool-cases (e.is_uuid user_id)) [
      | inr bad ↦ absurd (ground arith)
      | inl uuid ↦ elim (Bool-cases (e.fails user_in_company)) [
        | inl down ↦ absurd (ground arith)
        | inr up ↦ elim (Bool-cases (e.fails grant_row)) [
          | inl down ↦ absurd (ground arith)
          | inr up' ↦ (
            user,
            good,
            member,
            rw (grant_at, user_in_mc, uuid, up, good, member, grant_returning, up', good) refl,
            rw (grant_at, user_in_mc, uuid, up, good, member, grant_returning, up', good)
                (λ h. ground arith, λ h. ground arith),
          )
        ]
      ]
    ]
  ]
]

pub grant_point-Granted :
    (e : Env) (db : Database) (claims : Claims) (user_id public_id : String)
    → (grant_point e db claims user_id public_id).error ≡ none
    → Granted e db claims user_id public_id (grant_point e db claims user_id public_id)
unfolding grant_point
grant_point-Granted e db claims user_id public_id h =
    elim (Option-cases (resolve_point_in_mc e db public_id claims.mc_id)) [
      | inl failed ↦ absurd (ground arith)
      | inr (none, missing) ↦ absurd (ground arith)
      | inr (some point_id, found) ↦
          let (user, good, member, after, event) =
            grant_at-user e db claims user_id point_id (ground arith) in
          rw (grant_point, found)
            (record {
              point_id = point_id;
              named = resolve_point-Named e db public_id claims.mc_id point_id found;
              user = user;
              cast_lem = good;
              member = member;
              after_lem = after;
              event_lem = event;
            })
    ]

-- What a user may open at a point that was named.
opened_device :
    (db : Database) (user key device : String) (p : Point) (gp : GrantedPoint)
    → IsValid db
    → Member p db.points
    → is_public key p ≡ true
    → device_of db.devices p.id ≡ some device
    → Opens db user key gp
    → gp.device_id ≡ device
opened_device db user key device p gp valid built public has_device o =
    let same =
      valid.public_key o.point p o.built built
        (is_public-key key o.point o.public ∙ sym (is_public-key key p public)) in
    some-injective gp.device_id device (device_of db.devices p.id)
      (subst (λ (q : Point). device_of db.devices q.id ≡ some gp.device_id) same o.device)
      has_device

-- A user that holds a grant for a point with a device may open it.
pub resolved-point :
    (later : Env) (db : Database) (public_id user key device : String) (p : Point)
    → IsValid db
    → later.is_uuid public_id ≡ true
    → later.fails resolve_granted ≡ false
    → later.cast public_id ≡ some key
    → Member p db.points
    → is_public key p ≡ true
    → device_of db.devices p.id ≡ some device
    → has_grant db.grants user p.id ≡ true
    → (gp : GrantedPoint) × (resolve_granted_point later db user public_id ≡ some (some gp))
      × (gp.device_id ≡ device)
resolved-point later db public_id user key device p valid uuid up good built public has_device
      held =
    let (g, standing, chosen) = any-Member (grants_point user p.id) db.grants held in
    let (gp, found) =
      granted-resolve later db user public_id key g p device uuid up good standing
        ((eq_iff g.user_id user).0 (ground arith)) built
        (sym ((eq_iff g.access_point_id p.id).0 (ground arith))) public has_device in
    let (key', good', o) = resolve-Opens later db user public_id gp found in
    let same = some-injective key' key (later.cast public_id) good' good in
    (
      gp,
      found,
      opened_device db user key device p gp valid built public has_device
          (subst (λ k. Opens db user k gp) same o),
    )
