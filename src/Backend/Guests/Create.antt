-- ===== src/Backend/Guests/Create.antt =====
-- What CreateGuest of backend/internal/guests writes.
use qr_domofon.Base.{
  ℕ, ◌+◌, ◌≤◌, ◌<◌, String, ◌≡◌, ◌≢◌, refl, ◌∙◌, true, false, none, some, List, [], ◌∷◌, ◌++◌, ◌⊎◌,
  inl, inr, arith, str_eq, All, All-append, Bool-cases, Option-cases,
}
use qr_domofon.Base.Text.{trim_space}
use qr_domofon.Backend.Httpx.{Result, ok, err}
use qr_domofon.Backend.Auth.Claims.{Claims}
use qr_domofon.Backend.Guests.{
  NewGuest, PointOption, Effect, insert_guest, Env, allow, mem, choose_points, validate_window,
  max_guest_duration,
}
use qr_domofon.Backend.Guests.Window.{validate_window_iff}
use qr_domofon.Backend.Guests.Service.{
  create_guest, create_allowed, create_chosen, create_with, insert_new,
}

-- The id of a point that is offered.
abbrev pub Offered : List PointOption → String → Type 0
Offered [] id = ⊥
Offered (o ∷ opts) id = (o.id ≡ id) ⊎ Offered opts id

allow-Offered :
    (opts : List PointOption) (pid id : String) → allow opts pid ≡ some id → Offered opts id
unfolding allow
allow-Offered [] pid id h = absurd (ground arith)
allow-Offered (o ∷ opts) pid id h = elim (Option-cases (allow opts pid)) [
  | inr (id', later) ↦ inr (allow-Offered opts pid id (later ∙ ground arith))
  | inl none_later ↦ inl (ground arith)
]

Chosen : List PointOption → Result (List String) → Type 0
Chosen opts (ok ids) = All (Offered opts) ids
Chosen opts (err _) = Unit

choose_points-Chosen :
    (opts : List PointOption) (seen ids pids : List String)
    → All (Offered opts) ids
    → Chosen opts (choose_points opts seen ids pids)
unfolding choose_points Chosen
choose_points-Chosen opts seen ids [] offered = offered
choose_points-Chosen opts seen ids (p ∷ ps) offered = elim (Bool-cases (str_eq (trim_space p) "")) [
  | inl blank ↦ rw (blank, choose_points) (choose_points-Chosen opts seen ids ps offered)
  | inr named ↦ elim (Bool-cases (mem (trim_space p) seen)) [
    | inl twice ↦ rw (named, twice, choose_points) (choose_points-Chosen opts seen ids ps offered)
    | inr once ↦ elim (Option-cases (allow opts (trim_space p))) [
      | inl refused ↦ rw (named, once, refused, choose_points) tt
      | inr (id, allowed) ↦
          rw (named, once, allowed, choose_points)
            (choose_points-Chosen opts (trim_space p ∷ seen) (ids ++ (id ∷ [])) ps (
              All-append (Offered opts) ids (id ∷ []) offered
                (allow-Offered opts (trim_space p) id allowed, tt)))
    ]
  ]
]

-- The guests that a list of effects writes.
abbrev pub inserted : List Effect → List NewGuest
inserted [] = []
inserted (insert_guest g ∷ fs) = g ∷ inserted fs
inserted (_ ∷ fs) = inserted fs

-- A guest that its creator may have.
pub record MayCreate (e : Env) (claims : Claims) (apartment_id : String) (g : NewGuest)
    : Type 0 where
  pub creator : g.created_by ≡ claims.subject
  pub apartment : g.apartment_id ≡ apartment_id
  pub company : e.apartment_mc apartment_id ≡ some (some g.mc_id)
  pub right : e.can_create_guests claims.subject apartment_id ≡ some true
  pub window :
      (g.valid_from ≡ e.now) × (e.now < g.valid_to) × (g.valid_to ≤ e.now + max_guest_duration)
  pub offers : List PointOption
  pub offered : e.allowed_points apartment_id claims.subject ≡ some offers
  pub points : All (Offered offers) g.point_ids
  pub some_point : g.point_ids ≢ []

abbrev pub Written : Env → Claims → String → List Effect → Type 0
Written e claims apartment_id effects =
    (inserted effects ≡ [])
    ⊎ ((g : NewGuest) × (inserted effects ≡ g ∷ []) × MayCreate e claims apartment_id g)

inserted-insert_new :
    (e : Env) (g : NewGuest) (raw : String) → inserted (insert_new e g raw).1 ≡ g ∷ []
unfolding insert_new
inserted-insert_new e g raw = ground arith

create_with-Written :
    (e : Env) (claims : Claims) (mc apartment_id full_name : String) (valid_to : ℕ)
    (opts : List PointOption) (ids : List String)
    → e.apartment_mc apartment_id ≡ some (some mc)
    → e.can_create_guests claims.subject apartment_id ≡ some true
    → (e.now < valid_to) × (valid_to ≤ e.now + max_guest_duration)
    → e.allowed_points apartment_id claims.subject ≡ some opts
    → All (Offered opts) ids
    → Written e claims apartment_id (create_with e claims mc apartment_id full_name valid_to ids).1
unfolding create_with
create_with-Written e claims mc apartment_id full_name valid_to opts [] company right window offered
      points =
    inl refl
create_with-Written e claims mc apartment_id full_name valid_to opts (id ∷ ids) company right
      (later, short) offered points =
    elim (Option-cases e.generate_token) [
      | inl failed ↦ inl (rw (failed, create_with) refl)
      | inr (raw, made) ↦
          rw (made, create_with)
            (inr (
              _,
              inserted-insert_new e _ raw,
              record {
                creator = refl;
                apartment = refl;
                company = company;
                right = right;
                window = (refl, later, short);
                offers = opts;
                offered = offered;
                points = points;
                some_point = cons≢nil;
              },
            ))
    ]
  where
    cons≢nil : id ∷ ids ≢ []
    cons≢nil h = ground arith

create_chosen-Written :
    (e : Env) (claims : Claims) (mc apartment_id full_name : String) (valid_to : ℕ)
    (opts : List PointOption) (r : Result (List String))
    → e.apartment_mc apartment_id ≡ some (some mc)
    → e.can_create_guests claims.subject apartment_id ≡ some true
    → (e.now < valid_to) × (valid_to ≤ e.now + max_guest_duration)
    → e.allowed_points apartment_id claims.subject ≡ some opts
    → Chosen opts r
    → Written e claims apartment_id (create_chosen e claims mc apartment_id full_name valid_to r).1
unfolding create_chosen Chosen
create_chosen-Written e claims mc apartment_id full_name valid_to opts (err refused) company right
      window offered points =
    inl refl
create_chosen-Written e claims mc apartment_id full_name valid_to opts (ok ids) company right window
      offered points =
    create_with-Written e claims mc apartment_id full_name valid_to opts ids company right window
      offered points

create_allowed-Written :
    (e : Env) (claims : Claims) (mc apartment_id full_name : String) (valid_to : ℕ)
    (pids : List String)
    → e.apartment_mc apartment_id ≡ some (some mc)
    → e.can_create_guests claims.subject apartment_id ≡ some true
    → Written e claims apartment_id
        (create_allowed e claims mc apartment_id full_name valid_to pids).1
unfolding create_allowed
create_allowed-Written e claims mc apartment_id full_name valid_to pids company right =
    elim (Option-cases (validate_window e.now valid_to)) [
      | inr (refused, not_so) ↦ inl (rw (not_so, create_allowed) refl)
      | inl valid ↦ elim (Option-cases (e.allowed_points apartment_id claims.subject)) [
        | inl failed ↦ inl (rw (valid, failed, create_allowed) refl)
        | inr (opts, offered) ↦
            rw (valid, offered, create_allowed)
              (create_chosen-Written e claims mc apartment_id full_name valid_to opts
                (choose_points opts [] [] pids) company right (window valid) offered
                (choose_points-Chosen opts [] [] pids tt))
      ]
    ]
  where
    window :
        validate_window e.now valid_to ≡ none
        → (e.now < valid_to) × (valid_to ≤ e.now + max_guest_duration)
    window = (validate_window_iff e.now valid_to).0

-- Whatever the answers are, CreateGuest writes nothing, or one guest that its creator may have:
-- of an apartment for which the creator has the right, for at most 48 hours from now on, at one
-- or more points, all of them offered to the creator.
pub create_guest-MayCreate :
    (e : Env) (claims : Claims) (apartment_id full_name : String) (valid_to : ℕ)
    (pids : List String)
    → Written e claims apartment_id (create_guest e claims apartment_id full_name valid_to pids).1
unfolding create_guest
create_guest-MayCreate e claims apartment_id full_name valid_to pids =
    elim (Option-cases (e.apartment_mc apartment_id)) [
      | inl failed ↦ inl (rw (failed, create_guest) refl)
      | inr (none, missing) ↦ inl (rw (missing, create_guest) refl)
      | inr (some mc, company) ↦
          elim (Option-cases (e.can_create_guests claims.subject apartment_id)) [
            | inl failed ↦ inl (rw (company, failed, create_guest) refl)
            | inr (false, not_so) ↦ inl (rw (company, not_so, create_guest) refl)
            | inr (true, right) ↦
                rw (company, right, create_guest)
                  (create_allowed-Written e claims mc apartment_id full_name valid_to pids company
                    right)
          ]
    ]
