-- ===== src/Backend/Access/Listing.antt =====
-- The list of a user's points, ListPoints of backend/internal/access.
use qr_domofon.Base.{
  Bool, arith, String, ◌≡◌, refl, sym, ap, ◌∙◌, ◌↔◌, true, Option, some, List, [], ◌∷◌, ◌++◌, map,
}
use qr_domofon.Backend.Httpx.{ok}
use qr_domofon.Backend.Access.{
  Env, GrantedPointInfo, PointStatus, point_status, online_or_offline, collect, list_points,
}

append_assoc_one :
    (out : List PointStatus) (x : PointStatus) (ys : List PointStatus)
    → (out ++ (x ∷ [])) ++ ys ≡ out ++ (x ∷ ys)
append_assoc_one [] x ys = refl
append_assoc_one (o ∷ out) x ys = ap (λ r. o ∷ r) (append_assoc_one out x ys)

append_nil : (out : List PointStatus) → out ++ [] ≡ out
append_nil [] = refl
append_nil (o ∷ out) = ap (λ r. o ∷ r) (append_nil out)

collect_lem :
    (e : Env) (out : List PointStatus) (pts : List GrantedPointInfo)
    → collect e out pts ≡ out ++ map (point_status e) pts
unfolding collect
collect_lem e out [] = sym (append_nil out)
collect_lem e out (p ∷ pts) =
    collect_lem e (out ++ (point_status e p ∷ [])) pts
    ∙ append_assoc_one out (point_status e p) (map (point_status e) pts)

online_lem : (answer : Option Bool) → (online_or_offline answer ≡ true) ↔ (answer ≡ some true)
online_lem answer = (λ h. ground arith, λ h. ground arith)

-- ListPoints answers the points with a grant in their order, each as online exactly when the
-- check of its device's presence succeeded and said so; so a failed check loses no point.
pub list_points_lem :
    (e : Env) (user_id : String) (pts : List GrantedPointInfo)
    → e.list_granted_points user_id ≡ some pts
    → (list_points e user_id ≡ ok (map (point_status e) pts))
      × ((p : GrantedPointInfo)
          → (((point_status e p).online ≡ true) ↔ (e.is_online p.device_id ≡ some true)))
unfolding list_points
list_points_lem e user_id pts h = (
  rw (h, list_points) (ap (λ r. ok r) (collect_lem e [] pts)),
  λ p. online_lem (e.is_online p.device_id),
)
