-- ===== src/Backend/Onboarding/Grants/Invariant.antt =====
-- What the switches of the matrix keep, GrantPoint and RevokePoint of
-- backend/internal/onboarding/matrix.go.
use Prim.Native.String.{◌++◌}
use mathlib.Core.Path.{subst}
use qr_domofon.Base.{
  String, ◌≡◌, sym, ap, ◌∙◌, Bool, true, false, not, none, some, List, [], ◌∷◌, ◌⊎◌, inl, inr,
  arith, if◌then◌else◌, Bool-cases, Member, filter, filter-Member,
}
use qr_domofon.Backend.Access as Access
use qr_domofon.Backend.Access.{GrantedPoint, open_point}
use qr_domofon.Backend.Access.Gates.{published}
use qr_domofon.Backend.Access.Granted.{point_command, open_point-MayOpenPoint}
use qr_domofon.Backend.Auth.Claims.{Claims}
use qr_domofon.Backend.Database.{Grant, Point, Database, device_of, insert_grant, has_grant}
use qr_domofon.Backend.Onboarding.Invites.Attach.{has_grant-inserted}
use qr_domofon.Backend.Onboarding.Grants.{
  Env, with_grants, grant_point, grant_at, revoke_point, revoke_at, revoked, resolve_granted,
}
use qr_domofon.Backend.Onboarding.Grants.Toggle.{
  IsValid, revoke_point-Revoked, some-injective, is_public-key,
}
use qr_domofon.Backend.Onboarding.Grants.Giving.{grant_point-Granted, given, resolved-point}

insert_grant-Member :
    (grants : List Grant) (g q : Grant)
    → Member q (insert_grant grants g).1
    → (g ≡ q) ⊎ Member q grants
unfolding insert_grant
insert_grant-Member grants g q m =
    let In = λ (b : Bool).
      Member q (if◌then◌else◌ {A = Bool × List Grant} b (false, grants) (true, g ∷ grants)).1 in
    elim (Bool-cases (has_grant grants g.user_id g.access_point_id)) [
      | inl there ↦ inr (subst In there m)
      | inr new ↦ subst In new m
    ]

inserted-IsValid :
    (db : Database) (g : Grant)
    → IsValid db
    → ((p : Point) → Member p db.points → p.id ≡ g.access_point_id → p.mc_id ≡ g.mc_id)
    → IsValid (record db { grants = (insert_grant db.grants g).1 })
inserted-IsValid db g valid company = record {
  id_key = valid.id_key;
  public_key = valid.public_key;
  company = λ q p standing built same. elim (insert_grant-Member db.grants g q standing) [
    | inl new ↦
        rw (← new) (company p built (same ∙ ap (λ (r : Grant). r.access_point_id) (sym new)))
    | inr old ↦ valid.company q p old built same
  ];
}

filtered-IsValid :
    (db : Database) (keep : Grant → Bool)
    → IsValid db
    → IsValid (record db { grants = filter keep db.grants })
filtered-IsValid db keep valid = record {
  id_key = valid.id_key;
  public_key = valid.public_key;
  company = λ q p standing. valid.company q p (filter-Member keep db.grants q standing).0;
}

-- An error leaves the database as it was.
grant_point-error :
    (e : Env) (db : Database) (claims : Claims) (user_id public_id : String)
    → ((grant_point e db claims user_id public_id).error ≡ none)
      ⊎ ((grant_point e db claims user_id public_id).db ≡ db)
unfolding grant_point grant_at
grant_point-error e db claims user_id public_id = ground arith

revoke_point-error :
    (e : Env) (db : Database) (claims : Claims) (user_id public_id : String)
    → ((revoke_point e db claims user_id public_id).error ≡ none)
      ⊎ ((revoke_point e db claims user_id public_id).db ≡ db)
unfolding revoke_point revoke_at
revoke_point-error e db claims user_id public_id = ground arith

grant_point-IsValid :
    (e : Env) (db : Database) (claims : Claims) (user_id public_id : String)
    → IsValid db
    → IsValid (grant_point e db claims user_id public_id).db
grant_point-IsValid e db claims user_id public_id valid =
    elim (grant_point-error e db claims user_id public_id) [
      | inr same ↦ rw same valid
      | inl success ↦
          let g = grant_point-Granted e db claims user_id public_id success in
          subst IsValid g.after_lem (
            inserted-IsValid db (given claims g.user g.point_id) valid (λ p built same.
              ap (λ (q : Point). q.mc_id)
                (valid.id_key p g.named.point built g.named.built (same ∙ sym g.named.id_lem))
              ∙ g.named.company))
    ]

revoke_point-IsValid :
    (e : Env) (db : Database) (claims : Claims) (user_id public_id : String)
    → IsValid db
    → IsValid (revoke_point e db claims user_id public_id).db
revoke_point-IsValid e db claims user_id public_id valid =
    elim (revoke_point-error e db claims user_id public_id) [
      | inr same ↦ rw same valid
      | inl success ↦
          let r = revoke_point-Revoked e db claims user_id public_id success in
          subst IsValid r.after_lem
            (filtered-IsValid db (λ g. not (revoked r.user r.point_id claims.mc_id g)) valid)
    ]

-- The requests to the matrix, one after another; each meets its own failures.
pub data Request : Type 0 where
  grant revoke : Env → Claims → String → String → Request

abbrev pub run_matrix : Database → List Request → Database
run_matrix db [] = db
run_matrix db (grant e claims user_id public_id ∷ rs) =
    run_matrix (grant_point e db claims user_id public_id).db rs
run_matrix db (revoke e claims user_id public_id ∷ rs) =
    run_matrix (revoke_point e db claims user_id public_id).db rs

-- Over all histories of GrantPoint and RevokePoint, with any failures, the keys of the points
-- stay unique and every grant stays of the company of its point.
pub run_matrix-IsValid :
    (db : Database) (rs : List Request) → IsValid db → IsValid (run_matrix db rs)
run_matrix-IsValid db [] valid = valid
run_matrix-IsValid db (grant e claims user_id public_id ∷ rs) valid =
    run_matrix-IsValid (grant_point e db claims user_id public_id).db rs
      (grant_point-IsValid e db claims user_id public_id valid)
run_matrix-IsValid db (revoke e claims user_id public_id ∷ rs) valid =
    run_matrix-IsValid (revoke_point e db claims user_id public_id).db rs
      (revoke_point-IsValid e db claims user_id public_id valid)

-- Once GrantPoint has succeeded, OpenPoint of that user at that point, whose device is online,
-- publishes the one command to this device: in a database whose keys are unique, and in which
-- grants are of the company of their point, and when the query for the grant does not fail.
pub grant_point-opens :
    (e later : Env) (db : Database) (doors : Access.Env) (claims : Claims)
    (user_id public_id user device : String)
    → IsValid db
    → later.cast public_id ≡ e.cast public_id
    → later.is_uuid public_id ≡ true
    → later.fails resolve_granted ≡ false
    → e.cast user_id ≡ some user
    → ((p : Point)
        → Member p db.points
        → e.cast public_id ≡ some p.public_id
        → device_of db.devices p.id ≡ some device)
    → doors.is_online device ≡ some true
    → (grant_point e db claims user_id public_id).error ≡ none
    → (gp : GrantedPoint) × (gp.device_id ≡ device)
      × (published
            (open_point
              (with_grants later (grant_point e db claims user_id public_id).db doors)
              user
              public_id).1
          ≡ point_command doors gp ("resident:" ++ user))
grant_point-opens e later db doors claims user_id public_id user device valid same uuid up good has
      online success =
    let g = grant_point-Granted e db claims user_id public_id success in
    let n = g.named in
    let after : Database = record db {
      grants = (insert_grant db.grants (given claims g.user g.point_id)).1;
    } in
    let valid' =
      subst IsValid (sym g.after_lem) (grant_point-IsValid e db claims user_id public_id valid) in
    let user_lem = some-injective g.user user (e.cast user_id) g.cast_lem good in
    let held : has_grant after.grants user n.point.id ≡ true =
      rw (n.id_lem, ← user_lem) (has_grant-inserted db.grants (given claims g.user g.point_id)) in
    let device_lem =
      has n.point n.built
        (n.cast_lem ∙ ap (λ k. some k) (sym (is_public-key n.key n.point n.public))) in
    let (gp, found, to_device) =
      resolved-point later after public_id user n.key device n.point valid' uuid up
        (same ∙ n.cast_lem) n.built n.public device_lem held in
    (
      gp,
      to_device,
      subst
          (λ d.
            published (open_point (with_grants later d doors) user public_id).1
            ≡ point_command doors gp ("resident:" ++ user))
          g.after_lem
          ((open_point-MayOpenPoint (with_grants later after doors) user public_id).1 gp
            (record { granted = found; online = rw to_device online })),
    )
