-- ===== src/Backend/Onboarding/Grants/Toggle.antt =====
-- The switches of the matrix, GrantPoint and RevokePoint of backend/internal/onboarding/matrix.go.
use mathlib.Core.Path.{subst}
use qr_domofon.Base.{
  String, ◌≡◌, refl, sym, ap, ◌∙◌, Bool, true, not, Option, none, some, [], inl, inr, arith,
  if◌then◌else◌, Bool-cases, Option-cases, eq_iff, Member, first-Member, filter, filter-Member,
}
use qr_domofon.Backend.Access as Access
use qr_domofon.Backend.Access.{GrantedPoint, open_point}
use qr_domofon.Backend.Access.Gates.{published}
use qr_domofon.Backend.Auth.Claims.{Claims}
use qr_domofon.Backend.Database.{Grant, Point, Database, is_passage}
use qr_domofon.Backend.Onboarding.Grants.{
  Env, point_by_public_id, is_public, with_grants, resolve_point_in_mc, revoke_grant, revoke_at,
  revoke_point, revoked, revoke_row,
}
use qr_domofon.Backend.Onboarding.Grants.Opening.{Opens, resolve-Opens, unresolved-published}

-- The keys of access_points, and that a grant is of the company of its point.
pub record IsValid (db : Database) : Type 0 where
  pub id_key : (p q : Point) → Member p db.points → Member q db.points → p.id ≡ q.id → p ≡ q
  pub public_key :
      (p q : Point) → Member p db.points → Member q db.points → p.public_id ≡ q.public_id → p ≡ q
  pub company :
      (g : Grant) (p : Point)
      → Member g db.grants
      → Member p db.points
      → p.id ≡ g.access_point_id
      → p.mc_id ≡ g.mc_id

-- The point of the company that a request names.
pub record Named (e : Env) (db : Database) (public_id mc_id point_id : String) : Type 0 where
  pub key : String
  pub cast_lem : e.cast public_id ≡ some key
  pub point : Point
  pub built : Member point db.points
  pub public : is_public key point ≡ true
  pub company : point.mc_id ≡ mc_id
  pub passage : is_passage point.type ≡ true
  pub id_lem : point.id ≡ point_id

pub resolve_point-Named :
    (e : Env) (db : Database) (public_id mc_id point_id : String)
    → resolve_point_in_mc e db public_id mc_id ≡ some (some point_id)
    → Named e db public_id mc_id point_id
unfolding resolve_point_in_mc
resolve_point-Named e db public_id mc_id point_id h = elim (Option-cases (e.cast public_id)) [
  | inl bad ↦ absurd (ground arith)
  | inr (key, good) ↦ elim (Option-cases (point_by_public_id db.points key)) [
    | inl missing ↦ absurd (ground arith)
    | inr (p, found) ↦
        let (q, built, here) =
          first-Member (λ (p : Point). if is_public key p then some p else none) db.points p
            found in
        let same : q ≡ p = ground arith in
        let public : is_public key q ≡ true = ground arith in
        record {
          key = key;
          cast_lem = good;
          point = p;
          built = subst (λ r. Member r db.points) same built;
          public = subst (λ r. is_public key r ≡ true) same public;
          company = (eq_iff p.mc_id mc_id).0 (ground arith);
          passage = ground arith;
          id_lem = ground arith;
        }
  ]
]

-- What a revocation that succeeds does.
pub record Revoked (e : Env) (db : Database) (claims : Claims) (user_id public_id : String)
    (after : Database) : Type 0 where
  pub point_id : String
  pub named : Named e db public_id claims.mc_id point_id
  pub user : String
  pub cast_lem : e.cast user_id ≡ some user
  pub after_lem :
      record db { grants = filter (λ g. not (revoked user point_id claims.mc_id g)) db.grants }
      ≡ after

revoke_at-user :
    (e : Env) (db : Database) (claims : Claims) (user_id point_id : String)
    → (revoke_at e db claims user_id point_id).error ≡ none
    → (user : String) × (e.cast user_id ≡ some user)
      × (record db { grants = filter (λ g. not (revoked user point_id claims.mc_id g)) db.grants }
          ≡ (revoke_at e db claims user_id point_id).db)
unfolding revoke_at revoke_grant
revoke_at-user e db claims user_id point_id h = elim (Option-cases (e.cast user_id)) [
  | inl bad ↦ absurd (ground arith)
  | inr (user, good) ↦ elim (Bool-cases (e.fails revoke_row)) [
    | inl down ↦ absurd (ground arith)
    | inr up ↦ (user, good, rw (revoke_at, revoke_grant, up, good) refl)
  ]
]

pub revoke_point-Revoked :
    (e : Env) (db : Database) (claims : Claims) (user_id public_id : String)
    → (revoke_point e db claims user_id public_id).error ≡ none
    → Revoked e db claims user_id public_id (revoke_point e db claims user_id public_id).db
unfolding revoke_point
revoke_point-Revoked e db claims user_id public_id h =
    elim (Option-cases (resolve_point_in_mc e db public_id claims.mc_id)) [
      | inl failed ↦ absurd (ground arith)
      | inr (none, missing) ↦ absurd (ground arith)
      | inr (some point_id, found) ↦
          let (user, good, after) = revoke_at-user e db claims user_id point_id (ground arith) in
          record {
            point_id = point_id;
            named = resolve_point-Named e db public_id claims.mc_id point_id found;
            user = user;
            cast_lem = good;
            after_lem = after ∙ rw (found, revoke_point) refl;
          }
    ]

pub some-injective : (a b : String) (o : Option String) → o ≡ some a → o ≡ some b → a ≡ b
some-injective a b o h k = ground arith

pub is_public-key : (key : String) (p : Point) → is_public key p ≡ true → p.public_id ≡ key
is_public-key key p h = (eq_iff p.public_id key).0 (ground arith)

stands_not : (b : Bool) → not b ≡ true → b ≡ true → ⊥
stands_not b h k = ground arith

-- After a revocation that succeeds, no grant of the user for the point stands.
pub Revoked-closes :
    (e : Env) (db after : Database) (claims : Claims) (user_id public_id user key : String)
    (gp : GrantedPoint)
    → IsValid db
    → Revoked e db claims user_id public_id after
    → e.cast user_id ≡ some user
    → e.cast public_id ≡ some key
    → Opens after user key gp
    → ⊥
Revoked-closes e db after claims user_id public_id user key gp valid r good_user good_point o =
    let before = subst (λ d. Opens d user key gp) (sym r.after_lem) o in
    let (standing, kept) =
      filter-Member (λ g. not (revoked r.user r.point_id claims.mc_id g)) db.grants before.grant
        before.standing in
    let n = r.named in
    let key_lem : n.key ≡ key = some-injective n.key key (e.cast public_id) n.cast_lem good_point in
    let user_lem : r.user ≡ user =
      some-injective r.user user (e.cast user_id) r.cast_lem good_user in
    let point_lem : before.point ≡ n.point =
      valid.public_key before.point n.point before.built n.built (
        is_public-key key before.point before.public
        ∙ sym (is_public-key n.key n.point n.public ∙ key_lem)) in
    let same_point : before.grant.access_point_id ≡ r.point_id =
      sym before.same_point ∙ ap (λ (p : Point). p.id) point_lem ∙ n.id_lem in
    let company : before.grant.mc_id ≡ claims.mc_id =
      sym (valid.company before.grant before.point standing before.built before.same_point)
      ∙ ap (λ (p : Point). p.mc_id) point_lem
      ∙ n.company in
    stands_not (revoked r.user r.point_id claims.mc_id before.grant) kept (
      rw
        (
          (eq_iff before.grant.user_id r.user).1 (before.user ∙ sym user_lem),
          (eq_iff before.grant.access_point_id r.point_id).1 same_point,
          (eq_iff before.grant.mc_id claims.mc_id).1 company,
        )
        refl)

-- Once RevokePoint has succeeded, OpenPoint publishes no command for that user and that point,
-- whatever fails and whatever the other services answer: in a database whose keys are unique, and
-- in which grants are of the company of their point.
pub revoke_point-closes :
    (e later : Env) (db : Database) (doors : Access.Env) (claims : Claims)
    (user_id public_id user : String)
    → IsValid db
    → later.cast public_id ≡ e.cast public_id
    → e.cast user_id ≡ some user
    → (revoke_point e db claims user_id public_id).error ≡ none
    → published
        (open_point
          (with_grants later (revoke_point e db claims user_id public_id).db doors)
          user
          public_id).1
      ≡ []
revoke_point-closes e later db doors claims user_id public_id user valid same good h =
    unresolved-published later (revoke_point e db claims user_id public_id).db doors user public_id
      (λ gp found.
        let (key, cast, o) =
          resolve-Opens later (revoke_point e db claims user_id public_id).db user public_id gp
            found in
        Revoked-closes e db (revoke_point e db claims user_id public_id).db claims user_id public_id
          user key gp valid (revoke_point-Revoked e db claims user_id public_id h) good
          (sym same ∙ cast) o)
