-- ===== src/Firmware/Idempotency/Validity.antt =====
-- What holds of the buffer of idempotency.go between two calls, and exactly when a call finds a
-- duplicate.
use mathlib.Core.List.{Memᴰ}
use qr_domofon.Base.{
  ap, ◌&&◌, ℕ, ◌+◌, ◌≤◌, ◌<◌, String, ◌≡◌, refl, sym, ◌≢◌, ◌↔◌, inl, inr, true, false, List, [],
  ◌∷◌, ◌++◌, arith, length, length-append, leb, str_eq, eq_iff, Bool-cases, All, All-append,
}
use qr_domofon.Firmware.Idempotency.{
  IdempotencyEntry, IdempotencyBuffer, new_idempotency_buffer, idempotency_capacity,
  idempotency_ttl, is_live, purge, contains, evict, seen, run,
}
use qr_domofon.Firmware.Idempotency.Retention.{length-purge}

-- No two entries have one id.
abbrev pub Distinct : List IdempotencyEntry → Type 0
Distinct [] = Unit
Distinct (e ∷ es) = All (λ x. x.id ≢ e.id) es × Distinct es

pub record IsValid (b : IdempotencyBuffer) : Type 0 where
  pub bounded : length b.entries ≤ idempotency_capacity
  pub distinct : Distinct b.entries

All-purge :
    (P : IdempotencyEntry → Type 0) (now : ℕ) (es : List IdempotencyEntry)
    → All P es
    → All P (purge now es)
unfolding purge
All-purge P now [] h = h
All-purge P now (e ∷ es) (p, h) = elim (Bool-cases (is_live now e)) [
  | inl live ↦ rw live (p, All-purge P now es h)
  | inr dead ↦ rw dead (All-purge P now es h)
]

Distinct-purge : (now : ℕ) (es : List IdempotencyEntry) → Distinct es → Distinct (purge now es)
unfolding purge
Distinct-purge now [] h = h
Distinct-purge now (e ∷ es) (new, h) = elim (Bool-cases (is_live now e)) [
  | inl live ↦ rw live (All-purge _ now es new, Distinct-purge now es h)
  | inr dead ↦ rw dead (Distinct-purge now es h)
]

-- The ids of the entries all differ from one that is not contained.
missing :
    (id : String) (es : List IdempotencyEntry) → contains id es ≡ false → All (λ x. x.id ≢ id) es
unfolding contains
missing id [] h = tt
missing id (e ∷ es) h = (λ same. ground (arith, eq_iff e.id id), missing id es (ground arith))

Distinct-append :
    (id : String) (now : ℕ) (es : List IdempotencyEntry)
    → All (λ x. x.id ≢ id) es
    → Distinct es
    → Distinct (es ++ record { id = id; added = now } ∷ [])
Distinct-append id now [] new h = (tt, tt)
Distinct-append id now (e ∷ es) (ne, new) (d, h) =
    (All-append _ es _ d (λ same. ne (sym same), tt), Distinct-append id now es new h)

length-evict :
    (es : List IdempotencyEntry)
    → length es ≤ idempotency_capacity
    → length (evict es) < idempotency_capacity
unfolding evict
length-evict [] h = omega arith
length-evict (e ∷ es) h = ground arith

All-evict :
    (P : IdempotencyEntry → Type 0) (es : List IdempotencyEntry) → All P es → All P (evict es)
unfolding evict
All-evict P [] h = h
All-evict P (e ∷ es) (p, h) = elim (Bool-cases (leb idempotency_capacity (length (e ∷ es)))) [
  | inl full ↦ rw full h
  | inr room ↦ rw room (p, h)
]

Distinct-evict : (es : List IdempotencyEntry) → Distinct es → Distinct (evict es)
unfolding evict
Distinct-evict [] h = h
Distinct-evict (e ∷ es) (p, h) = elim (Bool-cases (leb idempotency_capacity (length (e ∷ es)))) [
  | inl full ↦ rw full h
  | inr room ↦ rw room (p, h)
]

pub seen-IsValid :
    (b : IdempotencyBuffer) (id : String) (now : ℕ) → IsValid b → IsValid (seen b id now).0
unfolding seen
seen-IsValid b id now v =
    let es = purge now b.entries in
    let fits : length es ≤ idempotency_capacity =
      omega (arith, length-purge now b.entries, v.bounded) in
    let d = Distinct-purge now b.entries v.distinct in
    elim (Bool-cases (contains id es)) [
      | inl e ↦ rw e (record { bounded = fits; distinct = d })
      | inr e ↦ rw e (record {
        bounded = omega (
          arith,
          length-append (evict es) (record { id = id; added = now } ∷ []),
          length-evict es fits,
        );
        distinct =
            Distinct-append id now (evict es) (All-evict _ es (missing id es e))
              (Distinct-evict es d);
      })
    ]

run_from-IsValid : (cs : List (String × ℕ)) (b : IdempotencyBuffer) → IsValid b → IsValid (run b cs)
unfolding run
run_from-IsValid [] b v = v
run_from-IsValid ((id, t) ∷ cs) b v = run_from-IsValid cs (seen b id t).0 (seen-IsValid b id t v)

-- Over any history of calls from the empty buffer there are at most 20 entries, and no two with
-- one id.
pub run-IsValid : (cs : List (String × ℕ)) → IsValid (run new_idempotency_buffer cs)
unfolding new_idempotency_buffer
run-IsValid cs = run_from-IsValid cs _ (record { bounded = omega arith; distinct = tt })

-- An entry of the id that has not outlived its time.
abbrev pub LiveEntry : IdempotencyBuffer → String → ℕ → Type 0
LiveEntry b id now =
    (e : IdempotencyEntry) × Memᴰ e b.entries × (e.id ≡ id) × (now ≤ e.added + idempotency_ttl)

found :
    (id : String) (now : ℕ) (es : List IdempotencyEntry)
    → contains id (purge now es) ≡ true
    → (e : IdempotencyEntry) × Memᴰ e es × (e.id ≡ id) × (now ≤ e.added + idempotency_ttl)
unfolding purge contains
found id now [] h = cc
found id now (e ∷ es) h = elim (Bool-cases (is_live now e && str_eq e.id id)) [
  | inl here ↦ (e, Memᴰ.head refl, (eq_iff e.id id).0 (ground arith), ground arith)
  | inr there ↦
      let (x, m, same, live) = found id now es (ground arith) in (x, Memᴰ.tail m, same, live)
]

finds :
    (id : String) (now : ℕ) (e : IdempotencyEntry) (es : List IdempotencyEntry)
    → Memᴰ e es
    → e.id ≡ id
    → now ≤ e.added + idempotency_ttl
    → contains id (purge now es) ≡ true
unfolding purge contains
finds id now e [] m same live = elim m [ ]
finds id now e (x ∷ es) (Memᴰ.head p) same live = ground (
  arith,
  eq_iff x.id id,
  ap (λ (y : IdempotencyEntry). y.id) p,
  ap (λ (y : IdempotencyEntry). y.added) p,
)
finds id now e (x ∷ es) (Memᴰ.tail m) same live = ground (arith, finds id now e es m same live)

-- A call finds a duplicate exactly when the buffer has an entry of the id that was added at most
-- 60 seconds ago; and then no entry is added, and the dead ones are dropped.
pub seen_iff :
    (b : IdempotencyBuffer) (id : String) (now : ℕ)
    → (((seen b id now).1 ≡ true) ↔ LiveEntry b id now)
      × ((seen b id now).1 ≡ true → (seen b id now).0.entries ≡ purge now b.entries)
unfolding seen
seen_iff b id now = (
  (
    λ h. found id now b.entries (ground arith),
    λ (e, m, same, live). ground (arith, finds id now e b.entries m same live),
  ),
  λ h. ground arith,
)
