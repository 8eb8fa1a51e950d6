-- ===== src/Backend/Audit/Scope.antt =====
-- What a reader of the table of backend/internal/audit sees.
use mathlib.Core.Bool.{false≢true}
use qr_domofon.Base.{
  str_eq, sym, ◌∙◌, ℕ, zero, suc, ◌≤◌, ◌<◌, String, ◌≡◌, true, List, [], ◌∷◌, refl, arith, length,
  All, Bool-cases, inl, inr, eq_iff,
}
use qr_domofon.Base.Int.{ℤ, pos, negsuc}
use qr_domofon.Backend.Audit.{Event, Row, Table, insert, clamp_limit, in_scope, select, list}

-- The ids of a list fall strictly, from a bound on.
abbrev pub Descending : ℕ → List Row → Type 0
Descending bound [] = Unit
Descending bound (r ∷ rs) = (r.id < bound) × Descending r.id rs

-- The ids of a table are below the next one, the latest first.
abbrev pub IsValid : Table → Type 0
IsValid t = Descending t.next_id t.rows

abbrev pub OfCompany : String → Row → Type 0
OfCompany mc_id r = (r.event.management_company_id ≡ mc_id) × ¬ (r.event.management_company_id ≡ "")

pub insert-IsValid : (t : Table) (ev : Event) → IsValid t → IsValid (insert t ev)
unfolding insert
insert-IsValid t ev v = (omega arith, v)

in_scope-OfCompany : (mc_id : String) (r : Row) → in_scope mc_id r.event ≡ true → OfCompany mc_id r
unfolding in_scope
in_scope-OfCompany mc_id r h = elim (Bool-cases (str_eq r.event.management_company_id "")) [
  | inl empty ↦ absurd (ground arith)
  | inr named ↦ ((eq_iff _ _).0 (ground arith), λ e. false≢true (sym named ∙ (eq_iff _ _).1 e))
]

Descending-weaken : (a b : ℕ) (rs : List Row) → a ≤ b → Descending a rs → Descending b rs
Descending-weaken a b [] le d = tt
Descending-weaken a b (r ∷ rs) le (lt, d) = (omega arith, d)

select_lem :
    (n bound : ℕ) (mc_id : String) (rs : List Row)
    → Descending bound rs
    → (length (select n mc_id rs) ≤ n)
      × All (OfCompany mc_id) (select n mc_id rs)
      × Descending bound (select n mc_id rs)
unfolding select
select_lem zero bound mc_id rs d = (omega arith, tt, tt)
select_lem (suc n) bound mc_id [] d = (omega arith, tt, tt)
select_lem (suc n) bound mc_id (r ∷ rs) (lt, d) = elim (Bool-cases (in_scope mc_id r.event)) [
  | inl own ↦
      let (few, of_company, falls) = select_lem n r.id mc_id rs d in
      rw (own, select) (omega arith, (in_scope-OfCompany mc_id r own, of_company), (lt, falls))
  | inr other ↦
      rw (other, select)
        (select_lem (suc n) bound mc_id rs (Descending-weaken r.id bound rs (omega arith) d))
]

clamp_limit_lem : (limit : ℤ) → (1 ≤ clamp_limit limit) × (clamp_limit limit ≤ 500)
unfolding clamp_limit
clamp_limit_lem (negsuc n) = omega arith
clamp_limit_lem (pos zero) = omega arith
clamp_limit_lem (pos (suc n)) = ground arith

-- A reader of a table whose ids rise gets at most 500 rows, the newest first, each of the company
-- that was asked for, and none without a company.
pub list-OfCompany :
    (t : Table) (mc_id : String) (limit : ℤ)
    → IsValid t
    → (length (list t mc_id limit) ≤ 500)
      × All (OfCompany mc_id) (list t mc_id limit)
      × Descending t.next_id (list t mc_id limit)
unfolding list
list-OfCompany t mc_id limit v =
    let (few, of_company, falls) = select_lem (clamp_limit limit) t.next_id mc_id t.rows v in
    (omega (arith, (clamp_limit_lem limit).1), of_company, falls)

positive : (n : ℕ) → 1 ≤ n → (m : ℕ) × (n ≡ suc m)
positive zero h = absurd (omega arith)
positive (suc m) h = (m, refl)

own_in_scope :
    (ev : Event) → ¬ (ev.management_company_id ≡ "") → in_scope ev.management_company_id ev ≡ true
unfolding in_scope
own_in_scope ev named = elim (Bool-cases (str_eq ev.management_company_id "")) [
  | inl empty ↦ absurd (named ((eq_iff _ _).0 empty))
  | inr other ↦ rw other ((eq_iff _ _).1 refl)
]

-- An event of a company is what its next reader sees first.
pub list-insert :
    (t : Table) (ev : Event) (limit : ℤ)
    → ¬ (ev.management_company_id ≡ "")
    → (rest : List Row) × (list (insert t ev) ev.management_company_id limit
        ≡ (record { id = t.next_id; event = ev }) ∷ rest)
unfolding list insert
list-insert t ev limit named =
    let (m, e) = positive (clamp_limit limit) (clamp_limit_lem limit).0 in
    (select m ev.management_company_id t.rows, rw (e, own_in_scope ev named, select) refl)
