-- ===== src/Firmware/Idempotency/Retention.antt =====
-- How long idempotency.go remembers a request id.
use native.Mathlib.Nat.{add-zero}
use qr_domofon.Base.{
  ℕ, suc, ◌+◌, ◌≤◌, ◌<◌, String, ◌≡◌, refl, ◌⊎◌, inl, inr, true, false, List, [], ◌∷◌, ◌++◌, arith,
  length, length-append, eq_iff, Bool-cases,
}
use qr_domofon.Firmware.Idempotency.{
  IdempotencyEntry, IdempotencyBuffer, idempotency_capacity, idempotency_ttl, purge, contains,
  evict, seen, run, count_new, new_ids,
}

-- The id was added at `t`, and at most `k` ids after it.
abbrev pub Keeps : String → ℕ → ℕ → List IdempotencyEntry → Type 0
Keeps id t k [] = ⊥
Keeps id t k (e ∷ es) = ((e.id ≡ id) × (e.added ≡ t) × (length es ≤ k)) ⊎ Keeps id t k es

pub length-purge : (now : ℕ) (es : List IdempotencyEntry) → length (purge now es) ≤ length es
unfolding purge
length-purge now [] = omega arith
length-purge now (e ∷ es) = ground (arith, length-purge now es)

Keeps-purge :
    (id : String) (t k now : ℕ) (es : List IdempotencyEntry)
    → now ≤ t + idempotency_ttl
    → Keeps id t k es
    → Keeps id t k (purge now es)
unfolding purge
Keeps-purge id t k now [] h m = m
Keeps-purge id t k now (e ∷ es) h (inl (same, at, few)) = ground (arith, length-purge now es)
Keeps-purge id t k now (e ∷ es) h (inr m) = ground (arith, Keeps-purge id t k now es h m)

Keeps-contains :
    (id : String) (t k : ℕ) (es : List IdempotencyEntry) → Keeps id t k es → contains id es ≡ true
unfolding contains
Keeps-contains id t k [] m = elim m [ ]
Keeps-contains id t k (e ∷ es) (inl (same, at, few)) = ground (arith, eq_iff e.id id)
Keeps-contains id t k (e ∷ es) (inr m) = ground (arith, Keeps-contains id t k es m)

Keeps-evict :
    (id : String) (t k : ℕ) (es : List IdempotencyEntry)
    → k + 1 < idempotency_capacity
    → Keeps id t k es
    → Keeps id t k (evict es)
unfolding evict
Keeps-evict id t k [] h m = m
Keeps-evict id t k (e ∷ es) h m = ground arith

Keeps-append :
    (id : String) (t k : ℕ) (es : List IdempotencyEntry) (e : IdempotencyEntry)
    → Keeps id t k es
    → Keeps id t (suc k) (es ++ e ∷ [])
Keeps-append id t k [] e m = elim m [ ]
Keeps-append id t k (x ∷ es) e (inl (same, at, few)) =
    inl (same, at, omega (arith, length-append es (e ∷ [])))
Keeps-append id t k (x ∷ es) e (inr m) = inr (Keeps-append id t k es e m)

Keeps-new :
    (id : String) (t : ℕ) (es : List IdempotencyEntry)
    → Keeps id t 0 (es ++ record { id = id; added = t } ∷ [])
Keeps-new id t [] = inl (refl, refl, omega arith)
Keeps-new id t (e ∷ es) = inr (Keeps-new id t es)

seen_kept :
    (b : IdempotencyBuffer) (id : String) (t k now : ℕ)
    → now ≤ t + idempotency_ttl
    → Keeps id t k b.entries
    → (seen b id now).1 ≡ true
unfolding seen
seen_kept b id t k now h m =
    ground
      (arith, Keeps-contains id t k (purge now b.entries) (Keeps-purge id t k now b.entries h m))

seen-Keeps :
    (b : IdempotencyBuffer) (id other : String) (t k now : ℕ)
    → now ≤ t + idempotency_ttl
    → count_new (seen b other now).1 k < idempotency_capacity
    → Keeps id t k b.entries
    → Keeps id t (count_new (seen b other now).1 k) (seen b other now).0.entries
unfolding seen
seen-Keeps b id other t k now h few m =
    let es = purge now b.entries in
    let m' : Keeps id t k es = Keeps-purge id t k now b.entries h m in
    elim (Bool-cases (contains other es)) [
      | inl e ↦ rw e m'
      | inr e ↦ rw e (Keeps-append id t k (evict es) _ (Keeps-evict id t k es (ground arith) m'))
    ]

-- The calls come at times up to `last`.
abbrev pub Until : ℕ → List (String × ℕ) → Type 0
Until last [] = Unit
Until last ((_, t) ∷ cs) = (t ≤ last) × Until last cs

run-Keeps :
    (cs : List (String × ℕ)) (b : IdempotencyBuffer) (id : String) (t k : ℕ)
    → Until (t + idempotency_ttl) cs
    → k + new_ids b cs < idempotency_capacity
    → Keeps id t k b.entries
    → Keeps id t (k + new_ids b cs) (run b cs).entries
unfolding run new_ids
run-Keeps [] b id t k u few m = rw add-zero m
run-Keeps ((other, at) ∷ cs) b id t k (h, u) few m =
    let b' = (seen b other at).0 in
    let k' = count_new (seen b other at).1 k in
    let total : (k' + new_ids b' cs) ≡ k + count_new (seen b other at).1 (new_ids b' cs) =
      ground arith in
    let m' : Keeps id t k' b'.entries =
      seen-Keeps b id other t k at h (omega (arith, few, total)) m in
    rw (← total) (run-Keeps cs b' id t k' u (omega (arith, total)) m')

Until-mono : (cs : List (String × ℕ)) (a b : ℕ) → a ≤ b → Until a cs → Until b cs
Until-mono [] a b h u = tt
Until-mono ((_, t) ∷ cs) a b h (k, u) = (omega arith, Until-mono cs a b h u)

seen_new-Keeps :
    (b : IdempotencyBuffer) (id : String) (t : ℕ)
    → (seen b id t).1 ≡ false
    → Keeps id t 0 (seen b id t).0.entries
unfolding seen
seen_new-Keeps b id t new = elim (Bool-cases (contains id (purge t b.entries))) [
  | inl e ↦ absurd (ground arith)
  | inr e ↦ rw e (Keeps-new id t (evict (purge t b.entries)))
]

-- A request id that was new is found a duplicate at every later call up to 60 seconds after,
-- whatever calls come in between at times up to then, if fewer than 20 of them find new ids.
pub remembers :
    (b : IdempotencyBuffer) (id : String) (t now : ℕ) (cs : List (String × ℕ))
    → (seen b id t).1 ≡ false
    → Until now cs
    → now ≤ t + idempotency_ttl
    → new_ids (seen b id t).0 cs < idempotency_capacity
    → (seen (run (seen b id t).0 cs) id now).1 ≡ true
remembers b id t now cs new u h few =
    seen_kept (run (seen b id t).0 cs) id t (0 + new_ids (seen b id t).0 cs) now h (
      run-Keeps cs (seen b id t).0 id t 0 (Until-mono cs now _ h u) (omega arith)
        (seen_new-Keeps b id t new))
