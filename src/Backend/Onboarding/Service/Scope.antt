-- ===== src/Backend/Onboarding/Service/Scope.antt =====
-- What the checks of CreateOwnerInvite let through, service.go of backend/internal/onboarding.
use mathlib.Core.Path.{subst}
use qr_domofon.Base.{
  String, ◌≡◌, refl, ap, true, Option, none, some, List, [], ◌∷◌, arith, str_eq, eq_iff, All,
  All-imp, Member, inl, inr,
}
use qr_domofon.Backend.Httpx.{ok, bind-ok}
use qr_domofon.Backend.Auth.Claims.{Claims}
use qr_domofon.Backend.Database.{Apartment, Point, Database, is_passage}
use qr_domofon.Backend.Onboarding.Composite.{normalize_grant_public_ids}
use qr_domofon.Backend.Onboarding.Grants.{get_access_point, get_apartment}
use qr_domofon.Backend.Onboarding.Invitations.{NewInvite}
use qr_domofon.Backend.Onboarding.Service.{
  Env, check_owner_invite, check_apartment, resolve_grant_points, resolve_points, check_point,
  check_phone, owner_invite,
}

-- A gate or a barrier of the company, under its public id.
abbrev pub OffersAs : Env → Database → Claims → String → String → Type 0
OffersAs e db claims public_id id =
    (p : Point) × (get_access_point e.grants db public_id ≡ some (some p))
    × (p.id ≡ id)
    × (p.mc_id ≡ claims.mc_id)
    × (is_passage p.type ≡ true)

abbrev pub Offers : Env → Database → Claims → String → Type 0
Offers e db claims id = (public_id : String) × OffersAs e db claims public_id id

-- The point of a public id, in a list of points.
abbrev pub Listed : Env → Database → Claims → List String → String → Type 0
Listed e db claims ids public_id = (id : String) × OffersAs e db claims public_id id × Member id ids

check_point-ok :
    (claims : Claims) (answer : Option (Option Point)) (p : Point)
    → check_point claims answer ≡ ok p
    → (answer ≡ some (some p)) × (p.mc_id ≡ claims.mc_id) × (is_passage p.type ≡ true)
unfolding check_point
check_point-ok claims none p h = absurd (ground arith)
check_point-ok claims (some none) p h = absurd (ground arith)
check_point-ok claims (some (some q)) p h =
    let same : q ≡ p = ground arith in
    (
      ap (λ r. some (some r)) same,
      (eq_iff p.mc_id claims.mc_id).0
          (subst (λ (r : Point). str_eq r.mc_id claims.mc_id ≡ true) same (ground arith)),
      subst (λ (r : Point). is_passage r.type ≡ true) same (ground arith),
    )

resolve_points-Offers :
    (e : Env) (db : Database) (claims : Claims) (public_ids ids : List String)
    → resolve_points e db claims public_ids ≡ ok ids
    → All (Offers e db claims) ids
unfolding resolve_points
resolve_points-Offers e db claims [] ids h = subst (All (Offers e db claims)) (nil ids h) tt
  where
    nil : (ids : List String) → ok [] ≡ ok ids → [] ≡ ids
    nil ids k = ground arith
resolve_points-Offers e db claims (public_id ∷ public_ids) ids h =
    let (p, found, h1) =
      bind-ok (check_point claims (get_access_point e.grants db public_id)) _ _ h in
    let (rest, later, h2) = bind-ok (resolve_points e db claims public_ids) _ _ h1 in
    let (answer, company, passage) = check_point-ok claims _ p found in
    subst (All (Offers e db claims)) (injective (p.id ∷ rest) ids h2) (
      (public_id, (p, answer, refl, company, passage)),
      resolve_points-Offers e db claims public_ids rest later,
    )
  where
    injective : (a b : List String) → ok a ≡ ok b → a ≡ b
    injective a b k = ground arith

-- Every public id that was asked for is resolved.
resolve_points-Listed :
    (e : Env) (db : Database) (claims : Claims) (public_ids ids : List String)
    → resolve_points e db claims public_ids ≡ ok ids
    → All (Listed e db claims ids) public_ids
unfolding resolve_points
resolve_points-Listed e db claims [] ids h = tt
resolve_points-Listed e db claims (public_id ∷ public_ids) ids h =
    let (p, found, h1) =
      bind-ok (check_point claims (get_access_point e.grants db public_id)) _ _ h in
    let (rest, later, h2) = bind-ok (resolve_points e db claims public_ids) _ _ h1 in
    let (answer, company, passage) = check_point-ok claims _ p found in
    subst (λ is. All (Listed e db claims is) (public_id ∷ public_ids))
      (injective (p.id ∷ rest) ids h2)
      (
        (p.id, (p, answer, refl, company, passage), inl refl),
        All-imp (λ pid (id, offer, m). (id, offer, inr m)) public_ids
            (resolve_points-Listed e db claims public_ids rest later),
      )
  where
    injective : (a b : List String) → ok a ≡ ok b → a ≡ b
    injective a b k = ground arith

-- What CreateOwnerInvite lets through.
pub record InScope (e : Env) (db : Database) (claims : Claims) (apartment_id : String)
    (public_ids : List String) (new_invite : NewInvite) : Type 0 where
  pub apartment : Apartment
  pub found : get_apartment e.grants db apartment_id ≡ some (some apartment)
  pub company : apartment.mc_id ≡ claims.mc_id
  pub of_company : new_invite.mc_id ≡ claims.mc_id
  pub for_apartment : new_invite.apartment_id ≡ apartment_id
  pub owner : (new_invite.role ≡ "owner") × (new_invite.target_kind ≡ "apartment_owner")
  pub creator : new_invite.created_by ≡ claims.subject
  pub points : All (Offers e db claims) new_invite.grant_point_ids
  pub asked : List String
  pub cleaned : normalize_grant_public_ids public_ids ≡ ok asked
  pub listed : All (Listed e db claims new_invite.grant_point_ids) asked

check_apartment-ok :
    (claims : Claims) (answer : Option (Option Apartment)) (a : Apartment)
    → check_apartment claims answer ≡ ok a
    → (answer ≡ some (some a)) × (a.mc_id ≡ claims.mc_id)
unfolding check_apartment
check_apartment-ok claims none a h = absurd (ground arith)
check_apartment-ok claims (some none) a h = absurd (ground arith)
check_apartment-ok claims (some (some b)) a h =
    let same : b ≡ a = ground arith in
    (
      ap (λ r. some (some r)) same,
      (eq_iff a.mc_id claims.mc_id).0
          (subst (λ (r : Apartment). str_eq r.mc_id claims.mc_id ≡ true) same (ground arith)),
    )

pub check_owner-InScope :
    (e : Env) (db : Database) (claims : Claims) (apartment_id phone full_name : String)
    (public_ids : List String) (new_invite : NewInvite)
    → check_owner_invite e db claims apartment_id phone full_name public_ids ≡ ok new_invite
    → InScope e db claims apartment_id public_ids new_invite
unfolding check_owner_invite resolve_grant_points
check_owner-InScope e db claims apartment_id phone full_name public_ids new_invite h =
    let (digits, checked, h1) = bind-ok (check_phone phone) _ _ h in
    let (a, alive, h2) =
      bind-ok (check_apartment claims (get_apartment e.grants db apartment_id)) _ _ h1 in
    let (ids, resolved, h3) = bind-ok (resolve_grant_points e db claims public_ids) _ _ h2 in
    let (clean, cleaned, h4) = bind-ok (normalize_grant_public_ids public_ids) _ _ resolved in
    let (found, company) = check_apartment-ok claims _ a alive in
    subst (InScope e db claims apartment_id public_ids)
      (injective (owner_invite claims apartment_id digits full_name ids a.mc_id) new_invite h3)
      (record {
        apartment = a;
        found = found;
        company = company;
        of_company = company;
        for_apartment = refl;
        owner = (refl, refl);
        creator = refl;
        points = resolve_points-Offers e db claims clean ids h4;
        asked = clean;
        cleaned = cleaned;
        listed = resolve_points-Listed e db claims clean ids h4;
      })
  where
    injective : (a b : NewInvite) → ok a ≡ ok b → a ≡ b
    injective a b k = ground arith
