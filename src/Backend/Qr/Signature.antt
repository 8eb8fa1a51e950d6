-- ===== src/Backend/Qr/Signature.antt =====
-- What a signature of backend/internal/qr/qr.go vouches for.
use Prim.Native.Char.{Char, code}
use Prim.Native.String as S
use Prim.Native.String.{◌++◌, slice}
use text.Mathlib.TextLemmas.{
  append_cancel_left, append_cancel_right, cons-append, nil-append, head-eq_of_cons-eq,
  tail-eq_of_cons-eq,
}
use qr_domofon.Base.{
  String, ◌≡◌, ◌≢◌, ◌↔◌, refl, sym, ap, ◌∙◌, Bool, true, false, not, ◌&&◌, ◌||◌, Option, none, some,
  str_eq, arith, eq_iff, ◌==◌, Option-cases, inl, inr,
}
use qr_domofon.Backend.Qr.{
  Env, message, sign, verify, ValidateRequest, ValidateResponse, ResolvedProperty, Resolution,
  resolved, property_not_found, resolution_failed, response, online_or, validate, answer,
}
use qr_domofon.Backend.Httpx.{ok}

-- A text without a colon.
unfoldable pub plain : String → Bool
plain S.[] = true
plain (S.◌∷◌ c s) = not (code c == b':') && plain s

plain-head : (c : Char) (s : String) → plain (S.◌∷◌ c s) ≡ true → (code c == b':') ≡ false
unfolding plain
plain-head c s h = ground arith

plain-tail : (c : Char) (s : String) → plain (S.◌∷◌ c s) ≡ true → plain s ≡ true
unfolding plain
plain-tail c s h = ground arith

-- A text up to its first colon is one with none.
not_colon : (c : Char) (a s t : String) → plain (S.◌∷◌ c a) ≡ true → (S.◌∷◌ c a) ++ s ≢ ":" ++ t
not_colon c a s t h same =
    let heads = head-eq_of_cons-eq (sym (cons-append c a s) ∙ same ∙ cons-append ":" "" t) in
    let codes = ap code heads in let other = plain-head c a h in ground arith

fields :
    (a b s t : String)
    → plain a ≡ true
    → plain b ≡ true
    → a ++ (":" ++ s) ≡ b ++ (":" ++ t)
    → (a ≡ b) × (s ≡ t)
fields S.[] S.[] s t p q h =
    (refl, append_cancel_left ":" s t (sym (nil-append _) ∙ h ∙ nil-append _))
fields S.[] (S.◌∷◌ d b) s t p q h = absurd (not_colon d b _ s q (sym h ∙ nil-append _))
fields (S.◌∷◌ c a) S.[] s t p q h = absurd (not_colon c a _ t p (h ∙ nil-append _))
fields (S.◌∷◌ c a) (S.◌∷◌ d b) s t p q h =
    let whole = sym (cons-append c a _) ∙ h ∙ cons-append d b _ in
    let (left, right) =
      fields a b s t (plain-tail c a p) (plain-tail d b q) (tail-eq_of_cons-eq whole) in
    (ap (λ x. S.◌∷◌ x a) (head-eq_of_cons-eq whole) ∙ ap (λ x. S.◌∷◌ d x) left, right)

message-fields :
    (aid v aid' v' kid : String)
    → plain aid ≡ true
    → plain aid' ≡ true
    → message aid v kid ≡ message aid' v' kid
    → (aid ≡ aid') × (v ≡ v')
message-fields aid v aid' v' kid p q same =
    let (left, right) = fields aid aid' _ _ p q same in
    (left, append_cancel_right v v' (":" ++ kid) right)

verify-accepts :
    (e : Env) (aid v kid sig secret : String)
    → e.keyring kid ≡ some secret
    → (verify e aid v kid sig ≡ none) ↔ (sign e aid v kid secret ≡ sig)
unfolding verify
verify-accepts e aid v kid sig secret active = (
  λ h. (eq_iff _ _).0 (ground arith),
  λ h. let same = (eq_iff (sign e aid v kid secret) sig).1 h in rw (verify, active, same) refl,
)

-- With an active key, and for two aids without a colon: a signature that was made for one aid and
-- v is accepted for another pair exactly when the pairs are equal, unless the two messages
-- collide.
pub sign-verify_iff :
    (e : Env) (aid v aid' v' kid secret : String)
    → e.keyring kid ≡ some secret
    → plain aid ≡ true
    → plain aid' ≡ true
    → (sign e aid' v' kid secret ≡ sign e aid v kid secret
        → message aid' v' kid ≡ message aid v kid)
    → (verify e aid' v' kid (sign e aid v kid secret) ≡ none) ↔ (aid' ≡ aid) × (v' ≡ v)
sign-verify_iff e aid v aid' v' kid secret active p q apart =
    let accepts = verify-accepts e aid' v' kid (sign e aid v kid secret) secret active in
    (
      λ h. message-fields aid' v' aid v kid q p (apart (accepts.0 h)),
      λ (same, same_v).
          accepts.1
            (ap (λ x. sign e x v' kid secret) same ∙ ap (λ x. sign e aid x kid secret) same_v),
    )

answer-ok :
    (e : Env) (r : Resolution ResolvedProperty) (res : ValidateResponse)
    → answer e r ≡ ok res
    → (prop : ResolvedProperty) × (r ≡ resolved prop)
      × (res ≡ response prop (online_or (e.is_online prop.device_id)))
unfolding answer
answer-ok e property_not_found res h = absurd (ground arith)
answer-ok e resolution_failed res h = absurd (ground arith)
answer-ok e (resolved prop) res h = (prop, refl, ground arith)

-- Whatever the services answer: Validate answers with a property only for a request with all its
-- fields, a key that is active and the signature that this key makes for aid and v; and the
-- property is that of the aid, shown as online only when the check of its device said so.
pub validate-Signed :
    (e : Env) (body : Option ValidateRequest) (res : ValidateResponse)
    → validate e body ≡ ok res
    → (req : ValidateRequest) × (body ≡ some req)
      × ((str_eq req.aid "" || str_eq req.v "" || str_eq req.kid "" || str_eq req.sig "") ≡ false)
      × ((secret : String) × (e.keyring req.kid ≡ some secret)
          × (sign e req.aid req.v req.kid secret ≡ req.sig))
      × ((prop : ResolvedProperty) × (e.resolve_by_public_id req.aid ≡ resolved prop)
          × (res ≡ response prop (online_or (e.is_online prop.device_id))))
unfolding validate verify answer
validate-Signed e none res h = absurd (ground arith)
validate-Signed e (some req) res h = elim (Option-cases (e.keyring req.kid)) [
  | inl unknown ↦ absurd (ground arith)
  | inr (secret, active) ↦ (
    req,
    refl,
    ground arith,
    (secret, active, (eq_iff _ _).0 (ground arith)),
    answer-ok e (e.resolve_by_public_id req.aid) res (ground arith),
  )
]
