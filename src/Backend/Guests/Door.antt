-- ===== src/Backend/Guests/Door.antt =====
-- The door that a guest's link opens, OpenAsGuest of backend/internal/guests.
use Prim.Native.String.{◌++◌}
use qr_domofon.Base.{
  String, ◌≡◌, refl, true, none, some, List, [], ◌∷◌, ◌⊎◌, inl, inr, Option-cases,
}
use qr_domofon.Backend.Httpx.{ok}
use qr_domofon.Backend.Audit.{Value, text}
use qr_domofon.Backend.Access as Access
use qr_domofon.Backend.Access.Gates.{published}
use qr_domofon.Backend.Access.Granted.{published-open_resolved, point_command}
use qr_domofon.Backend.Guests.{Env, GuestRow, ResolvedPoint, validate_guest}
use qr_domofon.Backend.Guests.Window.{IsActive, validate_guest-IsActive}
use qr_domofon.Backend.Guests.Service.{admit, open_as_guest, guest_of, granted_point}

-- The guest of a link, the point and the device of a door that the link opens.
pub record MayEnter (e : Env) (doors : Access.Env) (raw_token public_id : String) (g : GuestRow)
    (rp : ResolvedPoint) : Type 0 where
  pub found : e.get_guest_by_token_hash (e.hash_token raw_token) ≡ some (some g)
  pub active : IsActive (guest_of g) e.now
  pub resolved :
      e.resolve_guest_open_point g.id g.created_by g.apartment_id public_id ≡ some (some rp)
  pub online : doors.is_online rp.device_id ≡ some true

admit_active :
    (e : Env) (raw_token : String) (g : GuestRow)
    → e.get_guest_by_token_hash (e.hash_token raw_token) ≡ some (some g)
    → IsActive (guest_of g) e.now
    → admit e raw_token ≡ ok g
unfolding admit
admit_active e raw_token g found active =
    rw (found, (validate_guest-IsActive (guest_of g) e.now).1 active, admit) refl

-- A guest's link opens nothing, or its guest is within its window and not revoked, the creator's
-- access to the point still stands, and the device is online; and then it publishes the one
-- command for the point.
pub open_as_guest-MayEnter :
    (e : Env) (doors : Access.Env) (raw_token public_id : String)
    → ((published (open_as_guest e doors raw_token public_id).1 ≡ [])
        ⊎ ((g : GuestRow) × (rp : ResolvedPoint) × MayEnter e doors raw_token public_id g rp))
      × ((g : GuestRow) (rp : ResolvedPoint)
          → MayEnter e doors raw_token public_id g rp
          → published (open_as_guest e doors raw_token public_id).1
            ≡ point_command doors (granted_point rp) ("guest:" ++ g.id))
unfolding open_as_guest admit
open_as_guest-MayEnter e doors raw_token public_id = (
  elim (Option-cases (e.get_guest_by_token_hash (e.hash_token raw_token))) [
    | inl failed ↦ inl (rw (failed, open_as_guest, admit) refl)
    | inr (none, missing) ↦ inl (rw (missing, open_as_guest, admit) refl)
    | inr (some g, found) ↦ elim (Option-cases (validate_guest (guest_of g) e.now)) [
      | inr (refused, not_so) ↦ inl (rw (found, not_so, open_as_guest, admit) refl)
      | inl valid ↦
          elim (Option-cases
            (e.resolve_guest_open_point g.id g.created_by g.apartment_id public_id)) [
              | inl failed ↦ inl (rw (found, valid, failed, open_as_guest, admit) refl)
              | inr (none, missing) ↦ inl (rw (found, valid, missing, open_as_guest, admit) refl)
              | inr (some rp, resolved) ↦
                  elim ((published-open_resolved doors (granted_point rp) ("guest:" ++ g.id)
                    (meta g)).0) [
                      | inl stopped ↦
                          inl (rw (found, valid, resolved, open_as_guest, admit) stopped)
                      | inr online ↦ inr (
                        g,
                        rp,
                        record {
                          found = found;
                          active = (validate_guest-IsActive (guest_of g) e.now).0 valid;
                          resolved = resolved;
                          online = online;
                        },
                      )
                    ]
            ]
    ]
  ],
  λ g rp m.
      rw (admit_active e raw_token g m.found m.active, open_as_guest, m.resolved)
        ((published-open_resolved doors (granted_point rp) ("guest:" ++ g.id) (meta g)).1 m.online),
)
  where
    meta : GuestRow → List (String × Value)
    meta g = ("guest_id", text g.id) ∷ []
