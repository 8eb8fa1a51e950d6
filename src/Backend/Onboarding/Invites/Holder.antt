-- ===== src/Backend/Onboarding/Invites/Holder.antt =====
-- The row of the user that an acceptance is for, AcceptInviteTx of backend/internal/onboarding/repo.go.
use mathlib.Core.Path.{subst, ◌∙◌}
use qr_domofon.Base.{
  String, ◌≡◌, refl, Bool, true, false, Option, none, some, List, [], ◌∷◌, ◌⊎◌, inl, inr, arith,
  str_eq, if◌then◌else◌, Bool-cases, Option-cases, ◌&&◌, update_rows, ap,
}
use qr_domofon.Backend.Httpx.{ok}
use qr_domofon.Backend.Database.{User, is_value}
use qr_domofon.Backend.Onboarding.Invitations.{Env}
use qr_domofon.Backend.Onboarding.Recipients.{
  Placed, is_admin_kind, user_by_phone, add_user, arrived, place_user, existing_user,
  insert_new_user, reread_user, promote_user, fill_name, set_full_name_if_empty, new_user, new_kind,
  is_empty,
}
use qr_domofon.Backend.Onboarding.Invites.Place.{is_value-some, new_kind_plain, arrived_keeps}

-- A row with the id and the phone, which is no admin's.
abbrev pub Fits : String → String → User → Type 0
Fits id phone u = (u.id ≡ id) × (u.phone ≡ some phone) × (is_admin_kind u.kind ≡ false)

-- The table has such a row.
abbrev pub Holds : String → String → List User → Type 0
Holds id phone [] = ⊥
Holds id phone (u ∷ users) = Fits id phone u ⊎ Holds id phone users

found-Holds :
    (users : List User) (phone : String) (u : User)
    → user_by_phone users phone ≡ some u
    → is_admin_kind u.kind ≡ false
    → Holds u.id phone users
found-Holds [] phone u h plain = absurd (ground arith)
found-Holds (v ∷ users) phone u h plain = elim (Bool-cases (is_value v.phone phone)) [
  | inl here ↦
      let same : v ≡ u = ground arith in
      let kind : is_admin_kind v.kind ≡ false =
        ap (λ (w : User). is_admin_kind w.kind) same ∙ plain in
      inl (ap (λ (w : User). w.id) same, is_value-some v.phone phone here, kind)
  | inr other ↦ inr (found-Holds users phone u (ground arith) plain)
]

if_updated :
    (id phone : String) (f : User → User) (u : User) (rest : List User) (b : Bool)
    → (Fits id phone u → Fits id phone (f u))
    → Fits id phone u ⊎ Holds id phone rest
    → Holds id phone (if b then f u ∷ rest else u ∷ rest)
if_updated id phone f u rest true keeps (inl here) = inl (keeps here)
if_updated id phone f u rest true keeps (inr later) = inr later
if_updated id phone f u rest false keeps holds = holds

update_rows-Holds :
    (p : User → Bool) (f : User → User) (users : List User) (id phone : String)
    → ((u : User) → Fits id phone u → Fits id phone (f u))
    → Holds id phone users
    → Holds id phone (update_rows p f users)
update_rows-Holds p f [] id phone keeps h = h
update_rows-Holds p f (u ∷ users) id phone keeps (inl here) =
    if_updated id phone f u (update_rows p f users) (p u) (keeps u) (inl here)
update_rows-Holds p f (u ∷ users) id phone keeps (inr later) =
    if_updated id phone f u (update_rows p f users) (p u) (keeps u)
      (inr (update_rows-Holds p f users id phone keeps later))

promote_user-Holds :
    (users : List User) (id phone who : String)
    → Holds id phone users
    → Holds id phone (promote_user users who)
unfolding promote_user
promote_user-Holds users id phone who h =
    update_rows-Holds (λ (u : User). str_eq u.id who && str_eq u.kind "resident")
      (λ (u : User). record u { kind = "owner" }) users id phone
      (λ u (same, called, _). (same, called, refl)) h

set_full_name-Holds :
    (users : List User) (id phone who full_name : String)
    → Holds id phone users
    → Holds id phone (set_full_name_if_empty users who full_name)
unfolding set_full_name_if_empty
set_full_name-Holds users id phone who full_name h =
    update_rows-Holds (λ (u : User). str_eq u.id who && is_empty u.full_name)
      (λ (u : User). record u { full_name = some full_name }) users id phone (λ u fits. fits) h

pub fill_name-Holds :
    (e : Env) (users after : List User) (full_name : Option String) (who id phone : String)
    → fill_name e users full_name who ≡ ok after
    → Holds id phone users
    → Holds id phone after
unfolding fill_name
fill_name-Holds e users after none who id phone h holds =
    let same : users ≡ after = ground arith in subst (Holds id phone) same holds
fill_name-Holds e users after (some full_name) who id phone h holds =
    elim (Bool-cases (str_eq full_name "")) [
      | inl empty ↦ let same : users ≡ after = ground arith in subst (Holds id phone) same holds
      | inr full ↦
          let same : set_full_name_if_empty users who full_name ≡ after = ground arith in
          subst (Holds id phone) same (set_full_name-Holds users id phone who full_name holds)
    ]

abbrev PlacedHolds : String → Placed → Type 0
PlacedHolds phone placed = Holds placed.user_id phone placed.users

reread_user-Holds :
    (e : Env) (users : List User) (phone : String) (placed : Placed)
    → reread_user e users phone ≡ ok placed
    → PlacedHolds phone placed
unfolding reread_user
reread_user-Holds e users phone placed h = elim (Option-cases (user_by_phone users phone)) [
  | inl gone ↦ absurd (ground arith)
  | inr (u, found) ↦
      let there : record { user_id = u.id; created = false; users = users } ≡ placed =
        ground arith in
      subst (PlacedHolds phone) there (found-Holds users phone u found (ground arith))
]

insert_new_user-Holds :
    (e : Env) (users : List User) (target_kind phone : String) (placed : Placed)
    → insert_new_user e users target_kind phone ≡ ok placed
    → PlacedHolds phone placed
unfolding insert_new_user add_user
insert_new_user-Holds e users target_kind phone placed h =
    let u = new_user e phone (new_kind target_kind) in
    elim (Bool-cases (add_user users u).0) [
      | inl made ↦
          let there : record { user_id = e.new_id; created = true; users = u ∷ users } ≡ placed =
            ground arith in
          subst (PlacedHolds phone) there (inl (refl, refl, new_kind_plain target_kind))
      | inr raced ↦ reread_user-Holds e users phone placed (ground arith)
    ]

existing_user-Holds :
    (e : Env) (users : List User) (target_kind phone : String) (u : User) (placed : Placed)
    → user_by_phone users phone ≡ some u
    → existing_user e users target_kind u ≡ ok placed
    → PlacedHolds phone placed
unfolding existing_user
existing_user-Holds e users target_kind phone u placed found h =
    let here = found-Holds users phone u found (ground arith) in
    elim (Bool-cases (str_eq target_kind "apartment_owner" && str_eq u.kind "resident")) [
      | inl promoted ↦
          let there : record { user_id = u.id; created = false; users = promote_user users u.id }
              ≡ placed =
            ground arith in
          subst (PlacedHolds phone) there (promote_user-Holds users u.id phone u.id here)
      | inr other ↦
          let there : record { user_id = u.id; created = false; users = users } ≡ placed =
            ground arith in
          subst (PlacedHolds phone) there here
    ]

-- The user that was found or made has a row with the phone.
pub place_user-Holds :
    (e : Env) (users : List User) (target_kind phone : String) (placed : Placed)
    → place_user e users target_kind phone ≡ ok placed
    → Holds placed.user_id phone placed.users
unfolding place_user
place_user-Holds e users target_kind phone placed h =
    elim (Option-cases (user_by_phone users phone)) [
      | inl free ↦ insert_new_user-Holds e (arrived e users) target_kind phone placed (ground arith)
      | inr (u, found) ↦
          existing_user-Holds e (arrived e users) target_kind phone u placed
            (arrived_keeps e users phone u found) (ground arith)
    ]
