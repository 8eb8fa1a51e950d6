-- ===== src/Firmware/Idempotency.antt =====
-- firmware/emulator/idempotency.go: the buffer of the last request ids. The caller serialises the
-- calls, so its mutex is not modelled.
pub mod Retention
pub mod Validity
use qr_domofon.Base.{
  ℕ, suc, ◌+◌, ◌-◌, ◌*◌, String, Bool, true, false, ◌||◌, List, [], ◌∷◌, ◌++◌, length, leb, str_eq,
  if◌then◌else◌,
}
use qr_domofon.Base.Time.{second}

abbrev pub idempotency_capacity : ℕ
idempotency_capacity = 20

abbrev pub idempotency_ttl : ℕ
idempotency_ttl = 60 * second

pub record IdempotencyEntry : Type 0 where
  pub id : String
  pub added : ℕ

pub record IdempotencyBuffer : Type 0 where
  pub entries : List IdempotencyEntry

unfoldable pub new_idempotency_buffer : IdempotencyBuffer
new_idempotency_buffer = record { entries = [] }

-- `now.Sub(e.added) <= idempotencyTTL`, which also a negative duration meets.
abbrev pub is_live : ℕ → IdempotencyEntry → Bool
is_live now e = leb (now - e.added) idempotency_ttl

unfoldable pub purge : ℕ → List IdempotencyEntry → List IdempotencyEntry
purge now [] = []
purge now (e ∷ es) = let rest = purge now es in if is_live now e then e ∷ rest else rest

unfoldable pub contains : String → List IdempotencyEntry → Bool
contains id [] = false
contains id (e ∷ es) = str_eq e.id id || contains id es

-- `entries[1:]` of a full buffer.
unfoldable pub evict : List IdempotencyEntry → List IdempotencyEntry
evict [] = []
evict (e ∷ es) = if leb idempotency_capacity (length (e ∷ es)) then es else e ∷ es

unfoldable pub seen : IdempotencyBuffer → String → ℕ → IdempotencyBuffer × Bool
seen b id now =
    let fresh = purge now b.entries in
    if contains id fresh
    then (record { entries = fresh }, true)
    else (record { entries = evict fresh ++ record { id = id; added = now } ∷ [] }, false)

-- A history of calls, and how many of them found a new id.
unfoldable pub run : IdempotencyBuffer → List (String × ℕ) → IdempotencyBuffer
run b [] = b
run b ((id, t) ∷ cs) = run (seen b id t).0 cs

abbrev count_new : Bool → ℕ → ℕ
count_new true n = n
count_new false n = suc n

unfoldable pub new_ids : IdempotencyBuffer → List (String × ℕ) → ℕ
new_ids b [] = 0
new_ids b ((id, t) ∷ cs) = count_new (seen b id t).1 (new_ids (seen b id t).0 cs)
