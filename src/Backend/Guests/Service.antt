-- ===== src/Backend/Guests/Service.antt =====
-- The operations of backend/internal/guests/service.go that write, show and open.
use Prim.Native.String.{◌++◌}
use qr_domofon.Base.{ℕ, String, Bool, true, false, Option, none, some, List, [], ◌∷◌, map, length}
use qr_domofon.Base.Text.{trim_space, trim_slashes}
use qr_domofon.Backend.Httpx.{
  ApiError, new_error, forbidden, validation_error, guest_invalid, Result, ok, err,
}
use qr_domofon.Backend.Audit.{number, text, flag, no_event}
use qr_domofon.Backend.Access as Access
use qr_domofon.Backend.Access.{internal_error, online_or_offline, open_resolved}
use qr_domofon.Backend.Auth.Claims.{Claims}
use qr_domofon.Backend.Guests.{
  Guest, validate_guest, validate_window, NewGuest, GuestRow, GuestPointView, ResolvedPoint,
  GuestSummary, CreateResult, PointView, GuestView, Effect, insert_guest, revoke_guest,
  set_permission_of, record_event, Env, choose_points,
}

-- CreateGuest, from the token on.
unfoldable pub insert_new : Env → NewGuest → String → Result CreateResult × List Effect
insert_new e g raw = elim (e.create_guest_row g) [
  | none ↦ (err internal_error, insert_guest g ∷ [])
  | some guest_id ↦ (
    ok (record {
      guest_id = guest_id;
      token = raw;
      url = trim_slashes e.base_url ++ "/g/" ++ raw;
      valid_from = g.valid_from;
      valid_to = g.valid_to;
    }),
    insert_guest g
        ∷ record_event (record no_event {
          event_type = "guest_created";
          actor = "user:" ++ g.created_by;
          apartment_id = g.apartment_id;
          management_company_id = g.mc_id;
          metadata =
              ("guest_id", text guest_id)
              ∷ ("points", number (length g.point_ids))
              ∷ ("valid_to", text (e.format_time g.valid_to))
              ∷ [];
        })
        ∷ [],
  )
]

-- CreateGuest, once the points are chosen.
unfoldable pub create_with :
    Env → Claims → String → String → String → ℕ → List String → Result CreateResult × List Effect
unfolding insert_new
create_with e claims mc apartment_id full_name valid_to [] =
    (err (new_error validation_error "At least one access point is required"), [])
create_with e claims mc apartment_id full_name valid_to (id ∷ ids) = elim (e.generate_token) [
  | none ↦ (err internal_error, [])
  | some raw ↦
      insert_new e
        (record {
          token_hash = e.hash_token raw;
          full_name = trim_space full_name;
          apartment_id = apartment_id;
          mc_id = mc;
          created_by = claims.subject;
          valid_from = e.now;
          valid_to = valid_to;
          point_ids = id ∷ ids;
        })
        raw
]

-- CreateGuest, by what the loop over the points gave.
unfoldable pub create_chosen :
    Env
    → Claims
    → String
    → String
    → String
    → ℕ
    → Result (List String)
    → Result CreateResult × List Effect
create_chosen e claims mc apartment_id full_name valid_to (err refused) = (err refused, [])
create_chosen e claims mc apartment_id full_name valid_to (ok ids) =
    create_with e claims mc apartment_id full_name valid_to ids

-- CreateGuest, for a user that may create guests.
unfoldable pub create_allowed :
    Env → Claims → String → String → String → ℕ → List String → Result CreateResult × List Effect
unfolding create_chosen
create_allowed e claims mc apartment_id full_name valid_to pids =
    elim (validate_window e.now valid_to) [
      | some refused ↦ (err refused, [])
      | none ↦ elim (e.allowed_points apartment_id claims.subject) [
        | none ↦ (err internal_error, [])
        | some opts ↦
            create_chosen e claims mc apartment_id full_name valid_to
              (choose_points opts [] [] pids)
      ]
    ]

unfoldable pub create_guest :
    Env → Claims → String → String → ℕ → List String → Result CreateResult × List Effect
unfolding create_allowed
create_guest e claims apartment_id full_name valid_to pids = elim (e.apartment_mc apartment_id) [
  | none ↦ (err internal_error, [])
  | some none ↦ (err (new_error validation_error "Apartment not found"), [])
  | some (some mc) ↦ elim (e.can_create_guests claims.subject apartment_id) [
    | none ↦ (err internal_error, [])
    | some false ↦ (err (new_error forbidden "You may not create guests for this apartment"), [])
    | some true ↦ create_allowed e claims mc apartment_id full_name valid_to pids
  ]
]

abbrev pub guest_of : GuestRow → Guest
guest_of g = record { valid_from = g.valid_from; valid_to = g.valid_to; revoked_at = g.revoked_at }

-- The guest of a link, if it is in its window.
unfoldable pub admit : Env → String → Result GuestRow
admit e raw_token = elim (e.get_guest_by_token_hash (e.hash_token raw_token)) [
  | none ↦ err internal_error
  | some none ↦ err (new_error guest_invalid "Guest link not found")
  | some (some g) ↦ elim (validate_guest (guest_of g) e.now) [
    | some refused ↦ err refused
    | none ↦ ok g
  ]
]

abbrev point_view : Env → GuestPointView → PointView
point_view e p = record {
  public_id = p.public_id;
  label = p.label;
  type = p.type;
  online = online_or_offline (e.is_online p.device_id);
}

unfoldable pub view_guest : Env → String → Result GuestView
unfolding admit
view_guest e raw_token = elim (admit e raw_token) [
  | err refused ↦ err refused
  | ok g ↦ elim (e.guest_points g.id) [
    | none ↦ err internal_error
    | some pts ↦ ok (record {
      full_name = g.full_name;
      valid_from = g.valid_from;
      valid_to = g.valid_to;
      points = map (point_view e) pts;
    })
  ]
]

-- guestDoorOpener of cmd/server/main.go: the point as access knows it.
abbrev pub granted_point : ResolvedPoint → Access.GrantedPoint
granted_point rp = record {
  device_id = rp.device_id;
  access_point_id = rp.access_point_id;
  apartment_id = rp.apartment_id;
  management_company_id = rp.management_company_id;
}

-- The effects are those of access.
unfoldable pub open_as_guest :
    Env → Access.Env → String → String → Result Access.OpenResult × List Access.Effect
unfolding admit
open_as_guest e doors raw_token public_id = elim (admit e raw_token) [
  | err refused ↦ (err refused, [])
  | ok g ↦ elim (e.resolve_guest_open_point g.id g.created_by g.apartment_id public_id) [
    | none ↦ (err internal_error, [])
    | some none ↦ (err (new_error forbidden "This point is not available"), [])
    | some (some rp) ↦
        open_resolved doors (granted_point rp) ("guest:" ++ g.id) (("guest_id", text g.id) ∷ [])
  ]
]

unfoldable pub list_guests : Env → Claims → Result (List GuestSummary)
list_guests e claims = elim (e.list_by_creator claims.subject) [
  | none ↦ err internal_error
  | some out ↦ ok out
]

unfoldable pub revoke_guest_of : Env → Claims → String → Option ApiError × List Effect
revoke_guest_of e claims guest_id =
    let asked = revoke_guest guest_id claims.subject e.now in
    elim (e.revoke_row guest_id claims.subject e.now) [
      | none ↦ (some internal_error, asked ∷ [])
      | some false ↦ (some (new_error guest_invalid "Guest not found"), asked ∷ [])
      | some true ↦ (
        none,
        asked
            ∷ record_event (record no_event {
              event_type = "guest_revoked";
              actor = "user:" ++ claims.subject;
              metadata = ("guest_id", text guest_id) ∷ [];
            })
            ∷ [],
      )
    ]

unfoldable pub set_permission :
    Env → Claims → String → String → Bool → Option ApiError × List Effect
set_permission e claims apartment_id target enabled =
    elim (e.owns_apartment claims.subject apartment_id) [
      | none ↦ (some internal_error, [])
      | some false ↦ (some (new_error forbidden "You are not the owner of this apartment"), [])
      | some true ↦
          let asked = set_permission_of apartment_id target enabled in
          elim (e.set_guest_permission apartment_id target enabled) [
            | none ↦ (some internal_error, asked ∷ [])
            | some false ↦ (
              some (new_error validation_error "User is not a resident of this apartment"),
              asked ∷ [],
            )
            | some true ↦ (
              none,
              asked
                  ∷ record_event (record no_event {
                    event_type = "guest_right_changed";
                    actor = "user:" ++ claims.subject;
                    apartment_id = apartment_id;
                    metadata = ("target", text target) ∷ ("enabled", flag enabled) ∷ [];
                  })
                  ∷ [],
            )
          ]
    ]
