-- ===== src/Backend/Onboarding/Recipients.antt =====
-- The user of an acceptance, found by the phone or made: the middle of AcceptInviteTx of
-- backend/internal/onboarding/repo.go.
use qr_domofon.Base.{
  String, Bool, true, false, ◌&&◌, ◌||◌, Option, none, some, List, ◌∷◌, str_eq, any, first,
  update_rows, if◌then◌else◌,
}
use qr_domofon.Backend.Httpx.{internal_error, Result, ok, err, ◌>>◌, attempt}
use qr_domofon.Backend.Database.{User, is_value}
use qr_domofon.Backend.Onboarding.Invitations.{
  Env, not_found, select_user, insert_user, select_user_again, promote, set_full_name,
}

abbrev pub is_admin_kind : String → Bool
is_admin_kind kind = str_eq kind "mc_admin" || str_eq kind "system_admin"

abbrev pub user_by_phone : List User → String → Option User
user_by_phone users phone =
    first (λ (u : User). if is_value u.phone phone then some u else none) users

-- `ON CONFLICT (phone) DO NOTHING`, and whether a row was inserted; a user without a phone conflicts
-- with none.
abbrev phone_taken : List User → Option String → Bool
phone_taken users none = false
phone_taken users (some phone) = any (λ (u : User). is_value u.phone phone) users

unfoldable pub add_user : List User → User → Bool × List User
add_user users u = if phone_taken users u.phone then (false, users) else (true, u ∷ users)

-- What the other transaction leaves.
abbrev pub arrived : Env → List User → List User
arrived e users = elim e.rival [ none ↦ users | some u ↦ (add_user users u).1 ]

pub record Placed : Type 0 where
  pub user_id : String
  pub created : Bool
  pub users : List User

abbrev pub new_kind : String → String
new_kind target_kind = if str_eq target_kind "apartment_owner" then "owner" else "resident"

-- The second search, after the insertion met a conflict.
unfoldable pub reread_user : Env → List User → String → Result Placed
reread_user e users phone = do
  attempt (e.fails select_user_again)
  elim (user_by_phone users phone) [
    | none ↦ err internal_error
    | some u ↦
        if is_admin_kind u.kind
        then err not_found
        else ok (record { user_id = u.id; created = false; users = users })
  ]

-- `UPDATE users SET kind = 'owner' WHERE id = $1 AND kind = 'resident'`.
unfoldable pub promote_user : List User → String → List User
promote_user users user_id =
    update_rows (λ (u : User). str_eq u.id user_id && str_eq u.kind "resident")
      (λ (u : User). record u { kind = "owner" }) users

unfoldable pub existing_user : Env → List User → String → User → Result Placed
unfolding promote_user
existing_user e users target_kind u =
    if is_admin_kind u.kind
    then err not_found
    else if str_eq target_kind "apartment_owner" && str_eq u.kind "resident"
    then attempt (e.fails promote)
      >> (ok (record { user_id = u.id; created = false; users = promote_user users u.id }))
    else ok (record { user_id = u.id; created = false; users = users })

abbrev pub new_user : Env → String → String → User
new_user e phone kind = record {
  id = e.new_id;
  phone = some phone;
  email = none;
  password_hash = none;
  totp_secret = none;
  full_name = none;
  kind = kind;
  mc_id = none;
}

unfoldable pub insert_new_user : Env → List User → String → String → Result Placed
unfolding add_user reread_user
insert_new_user e users target_kind phone = do
  attempt (e.fails insert_user)
  let inserted = add_user users (new_user e phone (new_kind target_kind))
  (if inserted.0
      then ok (record { user_id = e.new_id; created = true; users = inserted.1 })
      else reread_user e users phone)

-- Find or create the user of a phone.
unfoldable pub place_user : Env → List User → String → String → Result Placed
unfolding existing_user insert_new_user
place_user e users target_kind phone = do
  attempt (e.fails select_user)
  elim (user_by_phone users phone) [
    | none ↦ insert_new_user e (arrived e users) target_kind phone
    | some u ↦ existing_user e (arrived e users) target_kind u
  ]

-- `full_name IS NULL OR full_name = ''`.
abbrev pub is_empty : Option String → Bool
is_empty none = true
is_empty (some s) = str_eq s ""

unfoldable pub set_full_name_if_empty : List User → String → String → List User
set_full_name_if_empty users user_id full_name =
    update_rows (λ (u : User). str_eq u.id user_id && is_empty u.full_name)
      (λ (u : User). record u { full_name = some full_name }) users

unfoldable pub fill_name : Env → List User → Option String → String → Result (List User)
unfolding set_full_name_if_empty
fill_name e users none user_id = ok users
fill_name e users (some full_name) user_id =
    if str_eq full_name ""
    then ok users
    else (attempt (e.fails set_full_name) >> ok (set_full_name_if_empty users user_id full_name))
