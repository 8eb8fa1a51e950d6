-- ===== src/Base/Rows.antt =====
-- Queries on lists of rows: the first answer, and whether there is a row.
use mathlib.Core.Path.{◌≡◌, refl, sym, ap, subst}
use mathlib.Core.Logic.{◌⊎◌, inl, inr}
use mathlib.Core.Bool.{Bool, true, false}
use mathlib.Core.Option.{Option, none, some}
use mathlib.Core.List.{List, [], ◌∷◌}
use native.Mathlib.Omega.{arith}
use qr_domofon.Base.Tests.{if◌then◌else◌, Bool-cases, Option-cases}

abbrev pub or_else {ℓ} : {A : Type ℓ} → Option A → Option A → Option A
or_else none o = o
or_else (some a) _ = some a

module _ {ℓ} {A : Type ℓ} where
  abbrev pub any : (A → Bool) → List A → Bool
  any p [] = false
  any p (x ∷ xs) = let later = any p xs in if p x then true else later

  -- The rows that a query keeps.
  abbrev pub filter : (A → Bool) → List A → List A
  filter p [] = []
  filter p (x ∷ xs) = let rest = filter p xs in if p x then x ∷ rest else rest

  -- An update of the rows that a condition selects.
  abbrev pub update_rows : (A → Bool) → (A → A) → List A → List A
  update_rows p f [] = []
  update_rows p f (x ∷ xs) = let rest = update_rows p f xs in if p x then f x ∷ rest else x ∷ rest

  abbrev pub Member : A → List A → Type ℓ
  Member x [] = ⊥ × (x ≡ x)
  Member x (y ∷ ys) = (y ≡ x) ⊎ Member x ys

module _ {ℓ κ} {A : Type ℓ} {B : Type κ} where
  abbrev pub first : (A → Option B) → List A → Option B
  first f [] = none
  first f (x ∷ xs) = or_else (f x) (first f xs)

  pub first-Member :
      (f : A → Option B) (xs : List A) (b : B)
      → first f xs ≡ some b
      → (a : A) × Member a xs × (f a ≡ some b)
  first-Member f [] b h = absurd (ground arith)
  first-Member f (x ∷ xs) b h = elim (Option-cases (f x)) [
    | inr (c, here) ↦ (x, inl refl, ground arith)
    | inl gone ↦ let (a, m, e) = first-Member f xs b (ground arith) in (a, inr m, e)
  ]

  pub first-none :
      (f : A → Option B) (xs : List A) → ((a : A) → Member a xs → f a ≡ none) → first f xs ≡ none
  first-none f [] h = refl
  first-none f (x ∷ xs) h = rw (h x (inl refl)) (first-none f xs (λ a m. h a (inr m)))

  pub first-Holds :
      (f : A → Option B) (xs : List A) (a : A) (b : B)
      → Member a xs
      → f a ≡ some b
      → (c : B) × (first f xs ≡ some c)
  first-Holds f [] a b m h = absurd (m.0)
  first-Holds f (x ∷ xs) a b (inl same) h = (b, rw (same, h) refl)
  first-Holds f (x ∷ xs) a b (inr m) h = elim (Option-cases (f x)) [
    | inr (c, here) ↦ (c, rw here refl)
    | inl gone ↦ let (c, later) = first-Holds f xs a b m h in (c, rw gone later)
  ]

module _ {ℓ} {A : Type ℓ} where
  pub filter-Member :
      (p : A → Bool) (xs : List A) (x : A) → Member x (filter p xs) → Member x xs × (p x ≡ true)
  filter-Member p [] x m = absurd (m.0)
  filter-Member p (y ∷ ys) x m =
      let In = λ (b : Bool). Member x (if b then y ∷ filter p ys else filter p ys) in
      elim (Bool-cases (p y)) [
        | inr gone ↦ let (rest, h) = filter-Member p ys x (subst In gone m) in (inr rest, h)
        | inl kept ↦ elim (subst In kept m) [
          | inl same ↦ (inl same, rw (← same) kept)
          | inr later ↦ let (rest, h) = filter-Member p ys x later in (inr rest, h)
        ]
      ]

  pub any-Member :
      (p : A → Bool) (xs : List A) → any p xs ≡ true → (a : A) × Member a xs × (p a ≡ true)
  any-Member p [] h = absurd (ground arith)
  any-Member p (x ∷ xs) h = elim (Bool-cases (p x)) [
    | inl here ↦ (x, inl refl, here)
    | inr other ↦ let (a, m, k) = any-Member p xs (ground arith) in (a, inr m, k)
  ]

  pub Member-any : (p : A → Bool) (xs : List A) (a : A) → Member a xs → p a ≡ true → any p xs ≡ true
  Member-any p [] a m h = absurd (m.0)
  Member-any p (x ∷ xs) a (inl same) h = rw (same, h) refl
  Member-any p (x ∷ xs) a (inr m) h = let later = Member-any p xs a m h in ground arith

  -- The row that a query chooses, after an update that keeps what the query tests.
  pub first-update_rows :
      (p q : A → Bool) (f : A → A) (xs : List A) (a : A)
      → ((x : A) → p (f x) ≡ p x)
      → first (λ x. if p x then some x else none) xs ≡ some a
      → q a ≡ true
      → first (λ x. if p x then some x else none) (update_rows q f xs) ≡ some (f a)
  first-update_rows p q f [] a keeps h chosen = absurd (ground arith)
  first-update_rows p q f (x ∷ xs) a keeps h chosen = elim (Bool-cases (p x)) [
    | inl here ↦
        let same : x ≡ a = ground arith in
        rw (subst (λ y. q y ≡ true) (sym same) chosen, keeps x, here) (ap (λ y. some (f y)) same)
    | inr other ↦
        let later = first-update_rows p q f xs a keeps (ground arith) chosen in
        elim (Bool-cases (q x)) [
          | inl changed ↦ rw (changed, keeps x, other) later
          | inr left ↦ rw (left, other) later
        ]
  ]
