-- ===== src/Backend/Onboarding/Invites/Place.antt =====
-- What the acceptance of an invitation does to the users, AcceptInviteTx of
-- backend/internal/onboarding/repo.go.
use qr_domofon.Base.{
  String, ◌≡◌, refl, ap, Bool, true, false, Option, none, some, List, [], ◌∷◌, ◌⊎◌, inl, inr, arith,
  str_eq, if◌then◌else◌, Bool-cases, Option-cases, any, eq_iff,
}
use qr_domofon.Backend.Httpx.{ok}
use qr_domofon.Backend.Database.{User, is_value}
use qr_domofon.Backend.Onboarding.Invitations.{Env}
use qr_domofon.Backend.Onboarding.Recipients.{
  Placed, is_admin_kind, user_by_phone, add_user, arrived, place_user, existing_user,
  insert_new_user, reread_user, promote_user, fill_name, set_full_name_if_empty, new_user, new_kind,
}

-- Whom the phone led to: a user that was there and is no admin, or one that was made.
abbrev pub Owner : Env → List User → String → String → Bool → Type 0
Owner e users phone user_id created =
    ((u : User) × (user_by_phone (arrived e users) phone ≡ some u)
      × (u.id ≡ user_id)
      × (is_admin_kind u.kind ≡ false)
      × (created ≡ false))
    ⊎ ((user_by_phone users phone ≡ none) × (user_id ≡ e.new_id) × (created ≡ true))

any-user_by_phone :
    (users : List User) (phone : String) (u : User)
    → user_by_phone users phone ≡ some u
    → any (λ (v : User). is_value v.phone phone) users ≡ true
any-user_by_phone [] phone u h = ground arith
any-user_by_phone (v ∷ users) phone u h = elim (Bool-cases (is_value v.phone phone)) [
  | inl here ↦ rw here refl
  | inr other ↦ rw other (any-user_by_phone users phone u (ground arith))
]

pub is_value-some : (o : Option String) (s : String) → is_value o s ≡ true → o ≡ some s
is_value-some none s h = absurd (ground arith)
is_value-some (some v) s h = ap (λ x. some x) ((eq_iff v s).0 h)

add_user_keeps :
    (users : List User) (v : User) (phone : String) (u : User)
    → user_by_phone users phone ≡ some u
    → user_by_phone (add_user users v).1 phone ≡ some u
unfolding add_user
add_user_keeps users v phone u h = elim (Bool-cases (is_value v.phone phone)) [
  | inl same ↦
      let there : (add_user users v).1 ≡ users =
        rw (is_value-some v.phone phone same, any-user_by_phone users phone u h) refl in
      rw there h
  | inr other ↦ ground arith
]

-- A user that was found is found after the other transaction too.
pub arrived_keeps :
    (e : Env) (users : List User) (phone : String) (u : User)
    → user_by_phone users phone ≡ some u
    → user_by_phone (arrived e users) phone ≡ some u
arrived_keeps e users phone u h = elim (Option-cases e.rival) [
  | inl nobody ↦ rw nobody h
  | inr (v, other) ↦ rw other (add_user_keeps users v phone u h)
]

reread_user-Owner :
    (e : Env) (users : List User) (phone : String) (placed : Placed)
    → reread_user e (arrived e users) phone ≡ ok placed
    → Owner e users phone placed.user_id placed.created
unfolding reread_user
reread_user-Owner e users phone placed h =
    elim (Option-cases (user_by_phone (arrived e users) phone)) [
      | inl gone ↦ absurd (ground arith)
      | inr (u, found) ↦ inl (u, found, ground arith, ground arith, ground arith)
    ]

insert_new_user-Owner :
    (e : Env) (users : List User) (target_kind phone : String) (placed : Placed)
    → user_by_phone users phone ≡ none
    → insert_new_user e (arrived e users) target_kind phone ≡ ok placed
    → Owner e users phone placed.user_id placed.created
unfolding insert_new_user
insert_new_user-Owner e users target_kind phone placed free h =
    elim (Bool-cases (add_user (arrived e users) (new_user e phone (new_kind target_kind))).0) [
      | inl made ↦ inr (free, ground arith, ground arith)
      | inr raced ↦ reread_user-Owner e users phone placed (ground arith)
    ]

existing_user-Owner :
    (e : Env) (users : List User) (target_kind phone : String) (u : User) (placed : Placed)
    → user_by_phone users phone ≡ some u
    → existing_user e (arrived e users) target_kind u ≡ ok placed
    → Owner e users phone placed.user_id placed.created
unfolding existing_user
existing_user-Owner e users target_kind phone u placed found h =
    inl (u, arrived_keeps e users phone u found, ground arith, ground arith, ground arith)

pub place_user-Owner :
    (e : Env) (users : List User) (target_kind phone : String) (placed : Placed)
    → place_user e users target_kind phone ≡ ok placed
    → Owner e users phone placed.user_id placed.created
unfolding place_user
place_user-Owner e users target_kind phone placed h =
    elim (Option-cases (user_by_phone users phone)) [
      | inl free ↦ insert_new_user-Owner e users target_kind phone placed free ground arith
      | inr (u, found) ↦ existing_user-Owner e users target_kind phone u placed found ground arith
    ]

-- What makes an account an admin's: everything but its name, which the server shows only.
pub record Account : Type 0 where
  pub id : String
  pub phone : Option String
  pub email : Option String
  pub password_hash : Option String
  pub totp_secret : Option String
  pub kind : String
  pub mc_id : Option String

abbrev account : User → Account
account u = record {
  id = u.id;
  phone = u.phone;
  email = u.email;
  password_hash = u.password_hash;
  totp_secret = u.totp_secret;
  kind = u.kind;
  mc_id = u.mc_id;
}

abbrev pub admins : List User → List Account
admins [] = []
admins (u ∷ users) =
    let rest = admins users in if is_admin_kind u.kind then account u ∷ rest else rest

admins-promote_user :
    (users : List User) (id : String) → admins (promote_user users id) ≡ admins users
unfolding promote_user
admins-promote_user [] id = refl
admins-promote_user (u ∷ users) id =
    let rest = admins-promote_user users id in
    elim (Bool-cases (str_eq u.kind "resident")) [
      | inl is ↦ rw ((eq_iff u.kind "resident").0 is) (ground arith)
      | inr other ↦ ground arith
    ]

admins-set_full_name :
    (users : List User) (id full_name : String)
    → admins (set_full_name_if_empty users id full_name) ≡ admins users
unfolding set_full_name_if_empty
admins-set_full_name [] id full_name = refl
admins-set_full_name (u ∷ users) id full_name =
    let rest = admins-set_full_name users id full_name in ground arith

pub admins-fill_name :
    (e : Env) (users after : List User) (full_name : Option String) (id : String)
    → fill_name e users full_name id ≡ ok after
    → admins after ≡ admins users
unfolding fill_name
admins-fill_name e users after none id h = ground arith
admins-fill_name e users after (some full_name) id h =
    let kept = admins-set_full_name users id full_name in ground arith

admins-existing_user :
    (e : Env) (users : List User) (target_kind : String) (u : User) (placed : Placed)
    → existing_user e users target_kind u ≡ ok placed
    → admins placed.users ≡ admins users
unfolding existing_user
admins-existing_user e users target_kind u placed h =
    let kept = admins-promote_user users u.id in ground arith

pub new_kind_plain : (target_kind : String) → is_admin_kind (new_kind target_kind) ≡ false
new_kind_plain target_kind = elim (Bool-cases (str_eq target_kind "apartment_owner")) [
  | inl owner ↦ rw owner refl
  | inr other ↦ rw other refl
]

admins-insert_new_user :
    (e : Env) (users : List User) (target_kind phone : String) (placed : Placed)
    → insert_new_user e users target_kind phone ≡ ok placed
    → admins placed.users ≡ admins users
unfolding insert_new_user reread_user add_user
admins-insert_new_user e users target_kind phone placed h =
    let plain = new_kind_plain target_kind in ground arith

pub admins-place_user :
    (e : Env) (users : List User) (target_kind phone : String) (placed : Placed)
    → place_user e users target_kind phone ≡ ok placed
    → admins placed.users ≡ admins (arrived e users)
unfolding place_user
admins-place_user e users target_kind phone placed h =
    elim (Option-cases (user_by_phone users phone)) [
      | inl free ↦
          admins-insert_new_user e (arrived e users) target_kind phone placed (ground arith)
      | inr (u, found) ↦
          admins-existing_user e (arrived e users) target_kind u placed (ground arith)
    ]
