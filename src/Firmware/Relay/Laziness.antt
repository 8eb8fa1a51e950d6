-- ===== src/Firmware/Relay/Laziness.antt =====
-- The latch of relay.go is brought up to date only when a method runs. When it is asked in between
-- makes no difference to what is seen later.
use qr_domofon.Base.{ℕ, ◌≤◌, ◌≡◌, refl, ◌∙◌, Bool, true, false, List, [], ◌∷◌, arith}
use qr_domofon.Firmware.Relay.{
  RelayFsm, Call, opens, loses, restores, asks_state, asks_fail_open, refresh, open_relay,
  connection_lost, connection_restored, state, fail_open_at, step, run,
}

-- The calls come at times that do not fall, from `t` up to `now`.
abbrev pub Ordered : ℕ → List (ℕ × Call) → ℕ → Type 0
Ordered t [] now = t ≤ now
Ordered t ((u, c) ∷ cs) now = (t ≤ u) × Ordered u cs now

pub refresh-refresh : (r : RelayFsm) (t u : ℕ) → t ≤ u → refresh (refresh r t) u ≡ refresh r u
unfolding refresh
refresh-refresh r t u h = ground arith

-- Two automata that no later call can tell apart.
abbrev Alike : ℕ → RelayFsm → RelayFsm → Type 0
Alike t r s = (u : ℕ) → t ≤ u → refresh r u ≡ refresh s u

abbrev is_query : Call → Bool
is_query asks_state = true
is_query asks_fail_open = true
is_query _ = false

-- The history without the calls of `State` and `FailOpen`.
pub erase_queries : List (ℕ × Call) → List (ℕ × Call)
erase_queries [] = []
erase_queries ((t, asks_state) ∷ cs) = erase_queries cs
erase_queries ((t, asks_fail_open) ∷ cs) = erase_queries cs
erase_queries ((t, c) ∷ cs) = (t, c) ∷ erase_queries cs

Alike-query : (r s : RelayFsm) (t u : ℕ) → Alike t r s → t ≤ u → Alike u (refresh r u) s
Alike-query r s t u a h v k = refresh-refresh r u v k ∙ a v (omega arith)

run-Alike :
    (cs : List (ℕ × Call)) (r s : RelayFsm) (t now : ℕ)
    → Alike t r s
    → Ordered t cs now
    → refresh (run r cs) now ≡ refresh (run s (erase_queries cs)) now
unfolding run erase_queries step
run-Alike [] r s t now a h = a now h
run-Alike ((u, asks_state) ∷ cs) r s t now a (h, k) =
    run-Alike cs (refresh r u) s u now (Alike-query r s t u a h) k
run-Alike ((u, asks_fail_open) ∷ cs) r s t now a (h, k) =
    run-Alike cs (refresh r u) s u now (Alike-query r s t u a h) k
run-Alike ((u, opens d) ∷ cs) r s t now a (h, k) =
    run-Alike cs (open_relay r u d) (open_relay s u d) u now (λ v _. rw (a u h)) k
run-Alike ((u, loses) ∷ cs) r s t now a (h, k) =
    run-Alike cs (connection_lost r u) (connection_lost s u) u now (λ v _. rw (a u h)) k
run-Alike ((u, restores) ∷ cs) r s t now a (h, k) =
    run-Alike cs (connection_restored r u) (connection_restored s u) u now (λ v _. rw (a u h)) k

-- Over any history in the order of time, the relay's state and the fail-open latch at a later
-- time are what they are when all earlier calls of State and FailOpen are left out.
pub queries_unseen :
    (r : RelayFsm) (cs : List (ℕ × Call)) (t now : ℕ)
    → Ordered t cs now
    → ((state (run r cs) now).0 ≡ (state (run r (erase_queries cs)) now).0)
      × ((fail_open_at (run r cs) now).0 ≡ (fail_open_at (run r (erase_queries cs)) now).0)
unfolding state fail_open_at
queries_unseen r cs t now h = let e = run-Alike cs r r t now (λ u _. refl) h in (rw e, rw e)

-- The state that is read at `t` and again at `u` is the one that is read at `u` alone.
pub state-state : (r : RelayFsm) (t u : ℕ) → t ≤ u → (state (state r t).1 u).0 ≡ (state r u).0
unfolding state
state-state r t u h = rw (refresh-refresh r t u h)

-- So with the latch.
pub latch-state :
    (r : RelayFsm) (t u : ℕ) → t ≤ u → (fail_open_at (state r t).1 u).0 ≡ (fail_open_at r u).0
unfolding state fail_open_at
latch-state r t u h = rw (refresh-refresh r t u h)
