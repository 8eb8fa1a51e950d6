-- ===== src/Backend/Onboarding/Phone.antt =====
-- The canonical form of a phone, phone.go of backend/internal/onboarding.
use Prim.Native.Char.{code}
use Prim.Native.String.{String, [], ◌∷◌}
use qr_domofon.Base.{
  ◌≡◌, refl, ap, Bool, true, false, ◌&&◌, Bool-cases, inl, inr, ◌==◌, if◌then◌else◌,
}
use qr_domofon.Backend.Onboarding.{
  is_digit, digits, size, international, with_plus, normalize_phone,
}

AllDigits : String → Type 0
AllDigits [] = Unit
AllDigits (c ∷ s) = (is_digit c ≡ true) × AllDigits s

digits-AllDigits : (s : String) → AllDigits (digits s)
unfolding digits AllDigits
digits-AllDigits [] = tt
digits-AllDigits (c ∷ s) = elim (Bool-cases (is_digit c)) [
  | inl is ↦ rw (is, digits) (is, digits-AllDigits s)
  | inr other ↦ rw (other, digits) (digits-AllDigits s)
]

digits_same : (s : String) → AllDigits s → digits s ≡ s
unfolding digits AllDigits
digits_same [] d = refl
digits_same (c ∷ s) (is, d) = rw (is, digits) (ap (λ t. c ∷ t) (digits_same s d))

international-AllDigits : (s : String) → AllDigits s → AllDigits (international s)
unfolding international AllDigits
international-AllDigits [] d = tt
international-AllDigits (c ∷ s) (is, d) = elim (Bool-cases (size s == 10 && code c == b'8')) [
  | inl spelt ↦ rw (spelt, international) (refl, d)
  | inr other ↦ rw (other, international) (is, d)
]

-- The international form is not the local one.
international_twice : (s : String) → international (international s) ≡ international s
unfolding international
international_twice [] = refl
international_twice (c ∷ s) = elim (Bool-cases (size s == 10 && code c == b'8')) [
  | inl spelt ↦ rw (spelt, international) (not_local (size s == 10))
  | inr other ↦ rw (other, international, other) refl
]
  where
    not_local : (b : Bool) → (if b && false then "7" ∷ s else "7" ∷ s) ≡ "7" ∷ s
    not_local true = refl
    not_local false = refl

-- The canonical form of digits.
normalize_digits :
    (d : String) → AllDigits d → international d ≡ d → normalize_phone (with_plus d) ≡ with_plus d
unfolding normalize_phone digits international
normalize_digits [] a e = refl
normalize_digits (c ∷ s) a e = rw (digits_same (c ∷ s) a, e) refl

-- A phone in the canonical form stays as it is: NormalizePhone is idempotent.
pub normalize_phone_twice :
    (raw : String) → normalize_phone (normalize_phone raw) ≡ normalize_phone raw
unfolding normalize_phone
normalize_phone_twice raw =
    normalize_digits (international (digits raw))
      (international-AllDigits (digits raw) (digits-AllDigits raw))
      (international_twice (digits raw))

-- A number of ten digits after the code of the country, written with any separators, has one
-- canonical form, whether it starts with 8 or with +7.
pub normalize_phone-local :
    (t : String)
    → size (digits t) ≡ 10
    → normalize_phone ("8" ∷ t) ≡ normalize_phone ("+" ∷ "7" ∷ t)
unfolding normalize_phone digits international size
normalize_phone-local t h = rw h refl
