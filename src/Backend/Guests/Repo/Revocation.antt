-- ===== src/Backend/Guests/Repo/Revocation.antt =====
-- When a guest's link no longer opens: after the creator's grant is revoked in the matrix of
-- backend/internal/onboarding, and after Revoke of backend/internal/guests.
use mathlib.Core.Bool.{false≢true}
use mathlib.Core.Path.{subst}
use qr_domofon.Base.{
  ℕ, String, ◌≡◌, refl, sym, ap, ◌∙◌, Bool, true, false, ◌&&◌, Option, none, some, List, [], inl,
  inr, arith, str_eq, if◌then◌else◌, Bool-cases, any, eq_iff, Member, any-Member, first-update_rows,
  update_rows, first-Member, and_right, or_right,
}
use qr_domofon.Backend.Access as Access
use qr_domofon.Backend.Access.{GrantedPoint}
use qr_domofon.Backend.Access.Gates.{published}
use qr_domofon.Backend.Auth.Claims.{Claims}
use qr_domofon.Backend.Database.{
  Apartment, Point, GuestAccess, Database, has_role, has_grant, grants_point, is_passage,
}
use qr_domofon.Backend.Onboarding.Grants as Matrix
use qr_domofon.Backend.Onboarding.Grants.{revoke_point, is_public}
use qr_domofon.Backend.Onboarding.Grants.Opening.{Opens}
use qr_domofon.Backend.Onboarding.Grants.Toggle.{
  IsValid, Named, Revoked, revoke_point-Revoked, Revoked-closes, some-injective, is_public-key,
}
use qr_domofon.Backend.Guests.{Env, GuestRow, ResolvedPoint}
use qr_domofon.Backend.Guests.Service.{open_as_guest}
use qr_domofon.Backend.Guests.Door.{open_as_guest-MayEnter}
use qr_domofon.Backend.Guests.Offers.{Sql, leads_to, revoke_row}
use qr_domofon.Backend.Guests.Repo.{
  with_repo, get_guest_by_token_hash, guest_by_hash, revoke, may_revoke,
}
use qr_domofon.Backend.Guests.Repo.Derived.{Derived, resolve-Derived}

-- An entrance is no gate and no barrier.
passage_leads : (a : Apartment) (p : Point) → is_passage p.type ≡ true → leads_to a p ≡ false
passage_leads a p h = elim (Bool-cases (str_eq p.type "entrance")) [
  | inr other ↦ ground arith
  | inl entrance ↦ absurd (no_passage p.type ((eq_iff p.type "entrance").0 entrance) h)
]
  where
    no_passage : (t : String) → t ≡ "entrance" → is_passage t ≡ true → ⊥
    no_passage t same k = false≢true (subst (λ u. is_passage u ≡ true) same k)

-- The creator's grant for the point that a guest may still pass.
Derived-Opens :
    (db : Database) (guest_id created_by apartment_id key : String) (rp : ResolvedPoint)
    (d : Derived db guest_id created_by apartment_id key rp)
    → is_passage d.point.type ≡ true
    → (gp : GrantedPoint) × Opens db created_by key gp
Derived-Opens db guest_id created_by apartment_id key rp d passage =
    let lives = leads_to d.apartment d.point && has_role db.roles created_by d.apartment.id in
    let gate = is_passage d.point.type && has_grant db.grants created_by d.point.id in
    let no_entrance : lives ≡ false = rw (passage_leads d.apartment d.point passage) refl in
    let held : gate ≡ true = or_right lives gate d.still no_entrance in
    let (g, standing, chosen) =
      any-Member (grants_point created_by d.point.id) db.grants
        (and_right (is_passage d.point.type) (has_grant db.grants created_by d.point.id) held) in
    (
      record {
        device_id = rp.device_id;
        access_point_id = d.point.id;
        apartment_id = "";
        management_company_id = d.point.mc_id;
      },
      record {
        grant = g;
        standing = standing;
        user = (eq_iff g.user_id created_by).0 (ground arith);
        point = d.point;
        built = d.built;
        same_point = sym ((eq_iff g.access_point_id d.point.id).0 (ground arith));
        public = rw ((eq_iff d.point.public_id key).1 d.public, d.active) refl;
        device = d.device;
        access_point = refl;
        company = refl;
      },
    )

-- The point that a request names is the one point with its public id.
Named-is_passage :
    (e : Matrix.Env) (db : Database) (public_id mc_id point_id key : String) (p : Point)
    → IsValid db
    → Named e db public_id mc_id point_id
    → e.cast public_id ≡ some key
    → Member p db.points
    → p.public_id ≡ key
    → is_passage p.type ≡ true
Named-is_passage e db public_id mc_id point_id key p valid n good built public =
    rw
      (valid.public_key p n.point built n.built (
        public
        ∙ sym (
            is_public-key n.key n.point n.public
            ∙ some-injective n.key key (e.cast public_id) n.cast_lem good)))
      n.passage

-- The matrix touches grants only.
Revoked-points :
    (e : Matrix.Env) (db after : Database) (claims : Claims) (user_id public_id : String)
    → Revoked e db claims user_id public_id after
    → after.points ≡ db.points
Revoked-points e db after claims user_id public_id r =
    ap (λ (d : Database). d.points) (sym r.after_lem)

same_row :
    {o : Option (Option GuestRow)} (g h : GuestRow) → o ≡ some (some g) → o ≡ some (some h) → g ≡ h
same_row g h k l = ground arith

-- Once RevokePoint has taken a user's grant for a gate or a barrier, no guest that this user
-- created opens it, whatever fails and whatever the other services answer: in a database whose
-- keys are unique, and in which grants are of the company of their point.
pub revoke_point-guest :
    (e : Matrix.Env) (later : Sql) (db : Database) (env : Env) (doors : Access.Env)
    (claims : Claims) (user_id public_id user raw_token : String) (g : GuestRow)
    → IsValid db
    → later.cast public_id ≡ e.cast public_id
    → e.cast user_id ≡ some user
    → (revoke_point e db claims user_id public_id).error ≡ none
    → get_guest_by_token_hash later
        (revoke_point e db claims user_id public_id).db
        (env.hash_token raw_token)
      ≡ some (some g)
    → g.created_by ≡ user
    → published
        (open_as_guest
          (with_repo later (revoke_point e db claims user_id public_id).db env)
          doors
          raw_token
          public_id).1
      ≡ []
revoke_point-guest e later db env doors claims user_id public_id user raw_token g valid same good h
      guest creator =
    let after = (revoke_point e db claims user_id public_id).db in
    let r = revoke_point-Revoked e db claims user_id public_id h in
    elim ((open_as_guest-MayEnter (with_repo later after env) doors raw_token public_id).0) [
      | inl nothing ↦ nothing
      | inr (g', rp, may) ↦
          let (key, cast, d) =
            resolve-Derived later after g'.id g'.created_by g'.apartment_id public_id rp
              may.resolved in
          let same_guest : g' ≡ g = same_row g' g may.found guest in
          let passage =
            Named-is_passage e db public_id claims.mc_id r.point_id key d.point valid r.named
              (sym same ∙ cast)
              (subst (λ ps. Member d.point ps)
                (Revoked-points e db after claims user_id public_id r) d.built)
              d.public in
          let (gp, o) = Derived-Opens after g'.id g'.created_by g'.apartment_id key rp d passage in
          absurd (
            Revoked-closes e db after claims user_id public_id user key gp valid r good
              (sym same ∙ cast)
              (subst (λ u. Opens after u key gp)
                (ap (λ (x : GuestRow). x.created_by) same_guest ∙ creator) o))
    ]

abbrev revoked_by : ℕ → String → GuestAccess → GuestAccess
revoked_by now user g = record g { revoked_at = some now; revoked_by = some user }

guest_by_hash-Member :
    (guests : List GuestAccess) (hash : String) (g : GuestAccess)
    → guest_by_hash guests hash ≡ some g
    → Member g guests
guest_by_hash-Member guests hash g found =
    let (h, m, here) =
      first-Member (λ (g : GuestAccess). if str_eq g.token_hash hash then some g else none) guests g
        found in
    subst (λ x. Member x guests) (ground arith) m

revoke-after :
    (e : Sql) (db after : Database) (guest_id by_user key : String) (now : ℕ)
    → e.cast guest_id ≡ some key
    → revoke e db guest_id by_user now ≡ some (true, after)
    → (any (may_revoke db key by_user) db.guests ≡ true)
      × (after.guests ≡ update_rows (may_revoke db key by_user) (revoked_by now by_user) db.guests)
unfolding revoke
revoke-after e db after guest_id by_user key now good h =
    let same = known in
    (ap (λ (r : Bool × Database). r.0) same, sym (ap (λ (r : Bool × Database). r.1.guests) same))
  where
    answer : Bool × Database
    answer = (
      any (may_revoke db key by_user) db.guests,
      record db {
        guests = update_rows (may_revoke db key by_user) (revoked_by now by_user) db.guests;
      },
    )

    injective : (a b : Bool × Database) → some a ≡ some b → a ≡ b
    injective a b k = ground arith

    known : answer ≡ (true, after)
    known = elim (Bool-cases (e.fails revoke_row)) [
      | inl down ↦ absurd (ground arith)
      | inr up ↦ injective answer (true, after) (rw (revoke, up, good) at h)
    ]

closed :
    (e : Sql) (db : Database) (hash : String) (g : GuestAccess) (row : GuestRow) (now : ℕ)
    → guest_by_hash db.guests hash ≡ some g
    → g.revoked_at ≡ some now
    → get_guest_by_token_hash e db hash ≡ some (some row)
    → row.revoked_at ≡ none
    → ⊥
unfolding get_guest_by_token_hash
closed e db hash g row now found gone h active = ground arith

-- Once Revoke has taken a guest, its link opens nothing, whatever fails and whatever the other
-- services answer: in a database whose guests have unique ids.
pub revoke-closes :
    (e later : Sql) (db after : Database) (env : Env) (doors : Access.Env)
    (guest_id by_user raw_token public_id : String) (now : ℕ) (g : GuestAccess)
    → ((h k : GuestAccess) → Member h db.guests → Member k db.guests → h.id ≡ k.id → h ≡ k)
    → guest_by_hash db.guests (env.hash_token raw_token) ≡ some g
    → e.cast guest_id ≡ some g.id
    → revoke e db guest_id by_user now ≡ some (true, after)
    → published (open_as_guest (with_repo later after env) doors raw_token public_id).1 ≡ []
revoke-closes e later db after env doors guest_id by_user raw_token public_id now g key found good
      h =
    let (some_row, guests_lem) = revoke-after e db after guest_id by_user g.id now good h in
    let (k, m, may) = any-Member (may_revoke db g.id by_user) db.guests some_row in
    let same : k ≡ g =
      key k g m (guest_by_hash-Member db.guests (env.hash_token raw_token) g found)
        ((eq_iff k.id g.id).0 (ground arith)) in
    let gone : guest_by_hash after.guests (env.hash_token raw_token)
        ≡ some (revoked_by now by_user g) =
      rw guests_lem (
        first-update_rows (λ (h : GuestAccess). str_eq h.token_hash (env.hash_token raw_token))
          (may_revoke db g.id by_user) (revoked_by now by_user) db.guests g (λ h. refl) found
          (subst (λ h. may_revoke db g.id by_user h ≡ true) same may)) in
    elim ((open_as_guest-MayEnter (with_repo later after env) doors raw_token public_id).0) [
      | inl nothing ↦ nothing
      | inr (row, rp, enter) ↦ absurd (
          closed later after (env.hash_token raw_token) (revoked_by now by_user g) row now gone refl
            enter.found enter.active.0)
    ]
