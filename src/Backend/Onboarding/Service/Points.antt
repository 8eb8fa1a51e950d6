-- ===== src/Backend/Onboarding/Service/Points.antt =====
-- The extra points of an invitation as CreateInvite of backend/internal/onboarding/repo.go stores them.
use mathlib.Core.Path.{subst}
use qr_domofon.Base.{
  String, ◌≡◌, refl, sym, Bool, true, ◌&&◌, List, [], ◌∷◌, ◌⊎◌, inl, inr, arith, str_eq, eq_iff,
  any, Member, if◌then◌else◌, Bool-cases,
}
use qr_domofon.Backend.Httpx.{ok, attempt, then-ok}
use qr_domofon.Backend.Database.{InvitePoint}
use qr_domofon.Backend.Onboarding.Invitations.{Env, insert_points, insert_invite_point}
use qr_domofon.Backend.Onboarding.Invites.Attach.{invites_to}

abbrev there : List InvitePoint → String → String → Bool
there rows id p =
    any (λ (r : InvitePoint). str_eq r.invite_id id && str_eq r.access_point_id p) rows

abbrev point_row : String → String → String → InvitePoint
point_row id mc_id p = record { invite_id = id; access_point_id = p; mc_id = mc_id }

-- The rows with one more point.
abbrev with_point : String → String → List InvitePoint → String → List InvitePoint
with_point id mc_id rows p = if there rows id p then rows else point_row id mc_id p ∷ rows

there-invites_to :
    (rows : List InvitePoint) (id p : String) → there rows id p ≡ true → invites_to rows id p ≡ true
there-invites_to [] id p h = h
there-invites_to (r ∷ rows) id p h =
    elim (Bool-cases (str_eq r.invite_id id && str_eq r.access_point_id p)) [
      | inl here ↦ ground arith
      | inr other ↦ let later = there-invites_to rows id p (rw other at h) in ground arith
    ]

with_point-has :
    (id mc_id : String) (rows : List InvitePoint) (p : String)
    → invites_to (with_point id mc_id rows p) id p ≡ true
with_point-has id mc_id rows p = elim (Bool-cases (there rows id p)) [
  | inl old ↦ rw old (there-invites_to rows id p old)
  | inr new ↦ rw (new, (eq_iff p p).1 refl, (eq_iff id id).1 refl) refl
]

with_point-keeps :
    (id mc_id : String) (rows : List InvitePoint) (p q : String)
    → invites_to rows id q ≡ true
    → invites_to (with_point id mc_id rows p) id q ≡ true
with_point-keeps id mc_id rows p q h = elim (Bool-cases (there rows id p)) [
  | inl old ↦ rw old h
  | inr new ↦ rw new (ground arith)
]

with_point-only :
    (id mc_id : String) (rows : List InvitePoint) (p q : String)
    → invites_to (with_point id mc_id rows p) id q ≡ true
    → (invites_to rows id q ≡ true) ⊎ (p ≡ q)
with_point-only id mc_id rows p q h = elim (Bool-cases (there rows id p)) [
  | inl old ↦ inl (rw old at h)
  | inr new ↦ elim (Bool-cases (str_eq p q)) [
    | inl same ↦ inr ((eq_iff p q).0 same)
    | inr other ↦ let k = rw (new, other) at h in inl k
  ]
]

same_rows : (a b : List InvitePoint) → ok a ≡ ok b → a ≡ b
same_rows a b h = ground arith

insert_points-keeps :
    (e : Env) (id mc_id : String) (rows out : List InvitePoint) (ps : List String) (q : String)
    → insert_points e id mc_id rows ps ≡ ok out
    → invites_to rows id q ≡ true
    → invites_to out id q ≡ true
unfolding insert_points
insert_points-keeps e id mc_id rows out [] q h k =
    subst (λ r. invites_to r id q ≡ true) (same_rows rows out h) k
insert_points-keeps e id mc_id rows out (p ∷ ps) q h k =
    insert_points-keeps e id mc_id (with_point id mc_id rows p) out ps q
      (then-ok (attempt (e.fails (insert_invite_point p))) _ _ h)
      (with_point-keeps id mc_id rows p q k)

-- Every point of the list is stored.
pub insert_points-all :
    (e : Env) (id mc_id : String) (rows out : List InvitePoint) (ps : List String) (q : String)
    → insert_points e id mc_id rows ps ≡ ok out
    → Member q ps
    → invites_to out id q ≡ true
unfolding insert_points
insert_points-all e id mc_id rows out [] q h m = absurd m.0
insert_points-all e id mc_id rows out (p ∷ ps) q h (inl same) =
    insert_points-keeps e id mc_id (with_point id mc_id rows p) out ps q
      (then-ok (attempt (e.fails (insert_invite_point p))) _ _ h)
      (subst (λ x. invites_to (with_point id mc_id rows p) id x ≡ true) same
        (with_point-has id mc_id rows p))
insert_points-all e id mc_id rows out (p ∷ ps) q h (inr later) =
    insert_points-all e id mc_id (with_point id mc_id rows p) out ps q
      (then-ok (attempt (e.fails (insert_invite_point p))) _ _ h) later

-- A point that is stored was there, or is of the list.
pub insert_points-only :
    (e : Env) (id mc_id : String) (rows out : List InvitePoint) (ps : List String) (q : String)
    → insert_points e id mc_id rows ps ≡ ok out
    → invites_to out id q ≡ true
    → (invites_to rows id q ≡ true) ⊎ Member q ps
unfolding insert_points
insert_points-only e id mc_id rows out [] q h k =
    inl (subst (λ r. invites_to r id q ≡ true) (sym (same_rows rows out h)) k)
insert_points-only e id mc_id rows out (p ∷ ps) q h k =
    elim (insert_points-only e id mc_id (with_point id mc_id rows p) out ps q
      (then-ok (attempt (e.fails (insert_invite_point p))) _ _ h) k) [
        | inr later ↦ inr (inr later)
        | inl here ↦ elim (with_point-only id mc_id rows p q here) [
          | inl old ↦ inl old
          | inr same ↦ inr (inl same)
        ]
      ]
