-- ===== src/Backend/Access/Granted.antt =====
-- Opening by a grant and by a guest's link, OpenPoint and OpenResolved of backend/internal/access.
use Prim.Native.String.{◌++◌}
use qr_domofon.Base.{
  String, ◌≡◌, refl, true, none, some, List, [], ◌∷◌, ◌⊎◌, inl, inr, arith, Option-cases,
}
use qr_domofon.Backend.Audit.{Value}
use qr_domofon.Backend.Access.{
  Env, GrantedPoint, OpenRelayCommand, command, open_online, open_resolved, open_point,
}
use qr_domofon.Backend.Access.Gates.{published}

-- The publication for a point that is online.
abbrev pub point_command : Env → GrantedPoint → String → List (String × OpenRelayCommand)
point_command e gp actor = (gp.device_id, command e actor) ∷ []

-- OpenResolved publishes nothing, or the one command to a device that is online.
pub published-open_resolved :
    (e : Env) (gp : GrantedPoint) (actor : String) (extra : List (String × Value))
    → ((published (open_resolved e gp actor extra).1 ≡ []) ⊎ (e.is_online gp.device_id ≡ some true))
      × (e.is_online gp.device_id ≡ some true
          → published (open_resolved e gp actor extra).1 ≡ point_command e gp actor)
unfolding open_resolved open_online
published-open_resolved e gp actor extra = (ground arith, λ on. ground arith)

-- The grant and the device of a user that may open a point.
pub record MayOpenPoint (e : Env) (user_id public_id : String) (gp : GrantedPoint) : Type 0 where
  pub granted : e.resolve_granted_point user_id public_id ≡ some (some gp)
  pub online : e.is_online gp.device_id ≡ some true

-- OpenPoint publishes only when there is a grant of the user for the point and the point's device
-- is online; and then it publishes the one command of this grant.
pub open_point-MayOpenPoint :
    (e : Env) (user_id public_id : String)
    → ((published (open_point e user_id public_id).1 ≡ [])
        ⊎ ((gp : GrantedPoint) × MayOpenPoint e user_id public_id gp))
      × ((gp : GrantedPoint)
          → MayOpenPoint e user_id public_id gp
          → published (open_point e user_id public_id).1
            ≡ point_command e gp ("resident:" ++ user_id))
unfolding open_point
open_point-MayOpenPoint e user_id public_id = (
  elim (Option-cases (e.resolve_granted_point user_id public_id)) [
    | inl failed ↦ inl (rw (failed, open_point) refl)
    | inr (none, missing) ↦ inl (rw (missing, open_point) refl)
    | inr (some gp, granted) ↦ elim ((published-open_resolved e gp ("resident:" ++ user_id) []).0) [
      | inl stopped ↦ inl (rw (granted, open_point) stopped)
      | inr online ↦ inr (gp, record { granted = granted; online = online })
    ]
  ],
  λ gp g.
      rw (g.granted, open_point)
        ((published-open_resolved e gp ("resident:" ++ user_id) []).1 g.online),
)
