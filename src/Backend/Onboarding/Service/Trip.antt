-- ===== src/Backend/Onboarding/Service/Trip.antt =====
-- From an invitation to its acceptance, CreateOwnerInvite and AcceptInvite of
-- backend/internal/onboarding/service.go.
use mathlib.Core.Path.{subst}
use qr_domofon.Base.{
  ℕ, ◌+◌, String, ◌≡◌, refl, ap, ◌∙◌, true, false, Option, none, some, List, [], ◌∷◌, All, All-imp,
  Member, ◌⊎◌, inl, inr, arith, eq_iff, ◌||◌, not, Bool,
}
use qr_domofon.Backend.Httpx.{Result, ok, bind-ok, then-ok, attempt, ◌>>◌, Result-cases}
use qr_domofon.Backend.Auth.Claims.{Claims}
use qr_domofon.Backend.Database.{Database, InviteRow, Apartment}
use qr_domofon.Backend.Onboarding.Invitations as Invites
use qr_domofon.Backend.Onboarding.Invitations.{
  NewInvite, create_invite, invite_row, cast_null, find_invite, has_shape, is_null, taken,
  insert_points, begin, insert_invite, commit,
}
use qr_domofon.Backend.Onboarding.Invites.{Accepted, accept_invite_tx, is_apartment_kind}
use qr_domofon.Backend.Onboarding.Invites.Attach.{role_at, raised, invites_to}
use qr_domofon.Backend.Onboarding.Invites.Session.{accept-Given}
use qr_domofon.Backend.Onboarding.Service.{
  Env, InviteResult, create_owner_invite, check_owner_invite, invite, create_invite_of, invite_with,
  store_invite, with_token, invite_ttl,
}
use qr_domofon.Backend.Onboarding.Service.Scope.{InScope, OffersAs, Offers, check_owner-InScope}
use qr_domofon.Backend.Onboarding.Service.Points.{insert_points-all, insert_points-only}
use qr_domofon.Backend.Onboarding.Composite.{normalize_grant_public_ids}
use qr_domofon.Backend.Onboarding.Grants.{get_apartment}

-- An invitation that was stored.
pub record Stored (e : Env) (db : Database) (new_invite : NewInvite) (res : InviteResult)
    (after : Database) : Type 0 where
  pub drawn : e.generate_token ≡ some res.token
  pub expires : res.expires_at ≡ e.now + invite_ttl
  pub stored : create_invite e.invites db (with_token e new_invite res.token) ≡ ok after

invite_with-Stored :
    (e : Env) (db : Database) (claims : Claims) (new_invite : NewInvite) (o : Option String)
    (res : InviteResult)
    → (invite_with e db claims new_invite o).result ≡ ok res
    → (o ≡ some res.token)
      × (res.expires_at ≡ e.now + invite_ttl)
      × (create_invite e.invites db (with_token e new_invite res.token)
          ≡ ok (invite_with e db claims new_invite o).db)
unfolding invite_with store_invite
invite_with-Stored e db claims new_invite none res h = absurd (ground arith)
invite_with-Stored e db claims new_invite (some raw) res h =
    elim (Result-cases (create_invite e.invites db (with_token e new_invite raw))) [
      | inl (refused, stopped) ↦ absurd (ground arith)
      | inr (after, stored) ↦
          let same : raw ≡ res.token = ground arith in
          (
            ap (λ t. some t) same,
            ground arith,
            subst
                (λ t.
                  create_invite e.invites db (with_token e new_invite t)
                  ≡ ok (invite_with e db claims new_invite (some raw)).db)
                same (rw (stored, invite_with, store_invite) refl),
          )
    ]

create_invite_of-Stored :
    (e : Env) (db : Database) (claims : Claims) (new_invite : NewInvite) (res : InviteResult)
    → (create_invite_of e db claims new_invite).result ≡ ok res
    → Stored e db new_invite res (create_invite_of e db claims new_invite).db
unfolding create_invite_of
create_invite_of-Stored e db claims new_invite res h =
    let (drawn, expires, stored) =
      invite_with-Stored e db claims new_invite e.generate_token res h in
    record { drawn = drawn; expires = expires; stored = stored }

-- The row of an invitation that was stored.
shape_lem :
    (a b c : Bool) (r : Result Database) (d : Database)
    → (attempt (a || b || not c) >> r) ≡ ok d
    → c ≡ true
shape_lem a b c r d h = ground arith

create_invite-row :
    (e : Invites.Env) (db after : Database) (n : NewInvite)
    → create_invite e db n ≡ ok after
    → (apartment_id : Option String) × (cast_null e n.apartment_id ≡ ok apartment_id)
      × (find_invite after.invites n.token_hash ≡ some (invite_row e.new_id n apartment_id))
      × (has_shape (invite_row e.new_id n apartment_id) ≡ true)
      × (insert_points e e.new_id n.mc_id db.invite_points n.grant_point_ids
          ≡ ok after.invite_points)
unfolding create_invite
create_invite-row e db after n h =
    let h1 = then-ok (attempt (e.fails begin)) _ _ h in
    let (apartment_id, cast, h2) = bind-ok (cast_null e n.apartment_id) _ _ h1 in
    let row = invite_row e.new_id n apartment_id in
    let bad = e.fails insert_invite || taken db.invites n.token_hash || not (has_shape row) in
    let h3 = then-ok (attempt bad) _ _ h2 in
    let (points, loop, h4) =
      bind-ok (insert_points e e.new_id n.mc_id db.invite_points n.grant_point_ids) _ _ h3 in
    let h5 = then-ok (attempt (e.fails commit)) _ _ h4 in
    (
      apartment_id,
      cast,
      subst (λ (d : Database). find_invite d.invites n.token_hash ≡ some row) (injective _ after h5)
          (rw ((eq_iff n.token_hash n.token_hash).1 refl) refl),
      shape_lem (e.fails insert_invite) (taken db.invites n.token_hash) (has_shape row) _ _ h2,
      loop ∙ ap (λ (d : Database). ok d.invite_points) (injective _ after h5),
    )
  where
    injective : (a b : Database) → ok a ≡ ok b → a ≡ b
    injective a b k = ground arith

-- With a role and a kind of an owner, what the row must be.
owner_row :
    (e : Invites.Env) (text key : String) (o : Option String)
    → cast_null e text ≡ ok o
    → e.cast text ≡ some key
    → is_null o ≡ false
    → o ≡ some key
owner_row e text key o h good full = ground arith

owner_shape :
    (i : InviteRow)
    → i.target_kind ≡ "apartment_owner"
    → has_shape i ≡ true
    → is_null i.apartment_id ≡ false
owner_shape i h k = let k' = rw h at k in ground arith

same_row : {o : Option InviteRow} (a b : InviteRow) → o ≡ some a → o ≡ some b → a ≡ b
same_row a b h k = ground arith

raised_owner : (o : Option String) → raised o "owner" ≡ "owner"
raised_owner none = refl
raised_owner (some old) = refl

create_owner-Stored :
    (e : Env) (db : Database) (claims : Claims) (apartment_id phone full_name : String)
    (public_ids : List String) (res : InviteResult)
    → (create_owner_invite e db claims apartment_id phone full_name public_ids).result ≡ ok res
    → (n : NewInvite) × InScope e db claims apartment_id public_ids n
      × Stored e db n res
          (create_owner_invite e db claims apartment_id phone full_name public_ids).db
unfolding create_owner_invite invite
create_owner-Stored e db claims apartment_id phone full_name public_ids res h =
    elim (Result-cases (check_owner_invite e db claims apartment_id phone full_name public_ids)) [
      | inl (refused, stopped) ↦ absurd (ground arith)
      | inr (n, passed) ↦ (
        n,
        check_owner-InScope e db claims apartment_id phone full_name public_ids n passed,
        rw (create_owner_invite, passed, invite)
            (create_invite_of-Stored e db claims n res
              (rw (create_owner_invite, passed, invite) at h)),
      )
    ]

-- An invitation of an owner in the tables, for an apartment and points of the creator's company.
pub record OwnerOffer (e : Env) (db : Database) (claims : Claims) (apartment_id key : String)
    (public_ids : List String) (token_hash : String) (after : Database) : Type 0 where
  pub inv : InviteRow
  pub found : find_invite after.invites token_hash ≡ some inv
  pub company : inv.mc_id ≡ claims.mc_id
  pub creator : inv.created_by ≡ claims.subject
  pub kind : inv.target_kind ≡ "apartment_owner"
  pub role : inv.role ≡ some "owner"
  pub place : inv.apartment_id ≡ some key
  pub apartment :
      (a : Apartment) × (get_apartment e.grants db apartment_id ≡ some (some a))
      × (a.mc_id ≡ claims.mc_id)
  pub asked : List String
  pub cleaned : normalize_grant_public_ids public_ids ≡ ok asked
  pub offered :
      All
        (λ public_id.
          (id : String) × OffersAs e db claims public_id id
          × (invites_to after.invite_points inv.id id ≡ true))
        asked
  pub only :
      (id : String)
      → invites_to after.invite_points inv.id id ≡ true
      → (invites_to db.invite_points inv.id id ≡ true) ⊎ Offers e db claims id

All-Member : (P : String → Type 0) (xs : List String) (x : String) → All P xs → Member x xs → P x
All-Member P [] x a m = absurd m.0
All-Member P (y ∷ xs) x (here, _) (inl same) = subst P same here
All-Member P (y ∷ xs) x (_, later) (inr m) = All-Member P xs x later m

Stored-OwnerOffer :
    (e : Env) (db after : Database) (claims : Claims) (apartment_id key : String)
    (public_ids : List String) (res : InviteResult) (n : NewInvite)
    → e.invites.cast apartment_id ≡ some key
    → InScope e db claims apartment_id public_ids n
    → Stored e db n res after
    → OwnerOffer e db claims apartment_id key public_ids (e.hash_token res.token) after
Stored-OwnerOffer e db after claims apartment_id key public_ids res n good scope st =
    let (o, cast, found, shape, loop) =
      create_invite-row e.invites db after (with_token e n res.token) st.stored in
    let row = invite_row e.invites.new_id (with_token e n res.token) o in
    record {
      inv = row;
      found = found;
      company = scope.of_company;
      creator = scope.creator;
      kind = scope.owner.1;
      role = rw scope.owner.0 refl;
      place =
          owner_row e.invites n.apartment_id key o cast (rw scope.for_apartment good)
            (owner_shape row scope.owner.1 shape);
      apartment = (scope.apartment, scope.found, scope.company);
      asked = scope.asked;
      cleaned = scope.cleaned;
      offered =
          All-imp
            (λ pid (id, offer, m).
              (id, offer, insert_points-all e.invites _ n.mc_id _ _ _ id loop m))
            scope.asked scope.listed;
      only = λ id h. elim (insert_points-only e.invites _ n.mc_id _ _ _ id loop h) [
        | inl old ↦ inl old
        | inr m ↦ inr (All-Member (Offers e db claims) n.grant_point_ids id scope.points m)
      ];
    }

-- An invitation that CreateOwnerInvite answered with, and whose token an acceptance then accepts,
-- makes the user of that acceptance an owner of the apartment, whose id is one that the database
-- reads, whatever role the user had there. The invitation that was stored under the token's hash
-- is by the creator and of the creator's company, for an apartment of this company; it offers the
-- point of every public id that NormalizeGrantPublicIDs made of those asked for, and each point
-- that it offers now and did not before is a gate or a barrier of this company.
pub owner_invite-accepted :
    (e : Env) (later : Invites.Env) (db : Database) (claims : Claims)
    (apartment_id phone full_name key : String) (public_ids : List String) (res : InviteResult)
    (at : ℕ) (acc : Accepted)
    → e.invites.cast apartment_id ≡ some key
    → (create_owner_invite e db claims apartment_id phone full_name public_ids).result ≡ ok res
    → (accept_invite_tx later
        (create_owner_invite e db claims apartment_id phone full_name public_ids).db
        (e.hash_token res.token)
        at).0
      ≡ ok acc
    → (role_at
          (accept_invite_tx later
            (create_owner_invite e db claims apartment_id phone full_name public_ids).db
            (e.hash_token res.token)
            at).1.roles
          acc.user_id
          key
        ≡ some "owner")
      × OwnerOffer e db claims apartment_id key public_ids
          (e.hash_token res.token)
          (create_owner_invite e db claims apartment_id phone full_name public_ids).db
owner_invite-accepted e later db claims apartment_id phone full_name key public_ids res at acc good
      h k =
    let after = (create_owner_invite e db claims apartment_id phone full_name public_ids).db in
    let (n, scope, st) =
      create_owner-Stored e db claims apartment_id phone full_name public_ids res h in
    let offer =
      Stored-OwnerOffer e db after claims apartment_id key public_ids res n good scope st in
    let given = accept-Given later after (e.hash_token res.token) at acc k in
    let same = same_row offer.inv given.inv offer.found given.found in
    (
      given.role_lem key "owner"
            (subst (λ (i : InviteRow). is_apartment_kind i.target_kind ≡ true) same
              (rw offer.kind refl))
            (subst (λ (i : InviteRow). i.apartment_id ≡ some key) same offer.place)
            (subst (λ (i : InviteRow). i.role ≡ some "owner") same offer.role)
          ∙ ap (λ r. some r) (raised_owner (role_at after.roles acc.user_id key)),
      offer,
    )
