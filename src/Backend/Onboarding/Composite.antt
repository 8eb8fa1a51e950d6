-- ===== src/Backend/Onboarding/Composite.antt =====
-- composite.go of backend/internal/onboarding: the extra points of one invitation.
use mathlib.Core.Bool.{false≢true}
use mathlib.Core.Path.{subst}
use qr_domofon.Base.{
  ℕ, ◌≤◌, String, ◌≡◌, refl, sym, ap, ◌∙◌, true, false, List, [], ◌∷◌, ◌++◌, length, ltb, str_eq,
  eq_iff, if◌then◌else◌, arith, Bool-cases, inl, inr,
}
use qr_domofon.Base.Text.{trim_space}
use qr_domofon.Backend.Httpx.{Result, ok, err, new_error, validation_error}
use qr_domofon.Backend.Guests.{mem}

abbrev pub max_composite_grants : ℕ
max_composite_grants = 20

-- The loop: what was seen is what is kept so far.
unfoldable pub collect_ids : List String → List String → List String
collect_ids out [] = out
collect_ids out (x ∷ xs) =
    let id = trim_space x in
    let skipped = collect_ids out xs in
    let taken = collect_ids (out ++ (id ∷ [])) xs in
    if str_eq id "" then skipped else if mem id out then skipped else taken

unfoldable pub normalize_grant_public_ids : List String → Result (List String)
normalize_grant_public_ids ids =
    let out = collect_ids [] ids in
    if ltb max_composite_grants (length out)
    then err (new_error validation_error "Too many access points in one invite")
    else ok out

-- No two are the same, and none is empty.
abbrev pub Distinct : List String → Type 0
Distinct [] = Unit
Distinct (x ∷ xs) = (mem x xs ≡ false) × (str_eq x "" ≡ false) × Distinct xs

mem-append :
    (id : String) (xs : List String) (y : String)
    → mem id (xs ++ (y ∷ [])) ≡ (if mem id xs then true else str_eq y id)
mem-append id [] y = ground arith
mem-append id (x ∷ xs) y = let h = mem-append id xs y in ground arith

not_same : (a b : String) → str_eq a b ≡ false → str_eq b a ≡ false
not_same a b h = elim (Bool-cases (str_eq b a)) [
  | inl same ↦ absurd (false≢true (sym h ∙ (eq_iff a b).1 (sym ((eq_iff b a).0 same))))
  | inr other ↦ other
]

Distinct-append :
    (xs : List String) (y : String)
    → Distinct xs
    → mem y xs ≡ false
    → str_eq y "" ≡ false
    → Distinct (xs ++ (y ∷ []))
Distinct-append [] y d new named = (refl, named, tt)
Distinct-append (x ∷ xs) y (fresh, full, d) new named =
    (mem-append x xs y ∙ rw (fresh, apart) refl, full, Distinct-append xs y d (ground arith) named)
  where
    apart : str_eq y x ≡ false
    apart = not_same x y (ground arith)

collect_ids-Distinct : (out ids : List String) → Distinct out → Distinct (collect_ids out ids)
unfolding collect_ids
collect_ids-Distinct out [] d = d
collect_ids-Distinct out (x ∷ xs) d = elim (Bool-cases (str_eq (trim_space x) "")) [
  | inl blank ↦ rw (blank, collect_ids) (collect_ids-Distinct out xs d)
  | inr named ↦ elim (Bool-cases (mem (trim_space x) out)) [
    | inl twice ↦ rw (named, twice, collect_ids) (collect_ids-Distinct out xs d)
    | inr once ↦
        rw (named, once, collect_ids)
          (collect_ids-Distinct (out ++ (trim_space x ∷ [])) xs
            (Distinct-append out (trim_space x) d once named))
  ]
]

-- The ids of an answer.
abbrev ids_in : Result (List String) → List String
ids_in (ok ids) = ids
ids_in (err _) = []

-- What NormalizeGrantPublicIDs lets through are at most 20 ids, no two the same and none empty.
pub normalize_grant_public_ids-Distinct :
    (ids out : List String)
    → normalize_grant_public_ids ids ≡ ok out
    → Distinct out × (length out ≤ 20)
unfolding normalize_grant_public_ids
normalize_grant_public_ids-Distinct ids out h =
    elim (Bool-cases (ltb max_composite_grants (length (collect_ids [] ids)))) [
      | inl many ↦ absurd (refused many h)
      | inr few ↦
          let kept : normalize_grant_public_ids ids ≡ ok (collect_ids [] ids) =
            rw (few, normalize_grant_public_ids) refl in
          let same = ap ids_in (sym kept ∙ h) in
          subst (λ o. Distinct o × (length o ≤ 20)) same
            (collect_ids-Distinct [] ids tt, ground arith)
    ]
  where
    refused :
        ltb max_composite_grants (length (collect_ids [] ids)) ≡ true
        → normalize_grant_public_ids ids ≡ ok out
        → ⊥
    refused many e = ground arith
