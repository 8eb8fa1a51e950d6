-- ===== src/Firmware/Relay/FailOpen.antt =====
-- When relay.go holds the door open for want of a connection, and when it stops.
use qr_domofon.Base.{
  ℕ, ◌+◌, ◌≤◌, ◌<◌, ◌≡◌, refl, ◌↔◌, ◌⊎◌, ◌∙◌, Bool, true, false, List, [], ◌∷◌, arith,
}
use qr_domofon.Base.Int.{ℤ}
use qr_domofon.Base.Time.{add}
use qr_domofon.Firmware.Relay.{
  RelayFsm, relay_open, Call, opens, loses, restores, fail_open_threshold, recovery_hysteresis,
  refresh, open_relay, connection_lost, connection_restored, state, fail_open_at, step, run,
}
use qr_domofon.Firmware.Relay.Laziness.{Ordered}

-- A call that leaves the connection as it is, and a history of such calls.
abbrev IsQuiet : Call → Type 0
IsQuiet loses = ⊥
IsQuiet restores = ⊥
IsQuiet _ = Unit

abbrev pub Quiet : List (ℕ × Call) → Type 0
Quiet [] = Unit
Quiet ((_, c) ∷ cs) = IsQuiet c × Quiet cs

abbrev pub latch : RelayFsm → ℕ → Bool
latch r now = (fail_open_at r now).0

latch-step :
    (r : RelayFsm) (t now : ℕ) (c : Call)
    → IsQuiet c
    → t ≤ now
    → latch (step r t c) now ≡ latch r now
unfolding step refresh fail_open_at
latch-step r t now (opens d) q h = ground arith
latch-step r t now loses q h = elim q [ ]
latch-step r t now restores q h = elim q [ ]
latch-step r t now _ q h = ground arith

Ordered-le : (cs : List (ℕ × Call)) (t now : ℕ) → Ordered t cs now → t ≤ now
Ordered-le [] t now h = h
Ordered-le ((u, c) ∷ cs) t now (h, k) = omega (arith, Ordered-le cs u now k)

pub latch-run :
    (cs : List (ℕ × Call)) (r : RelayFsm) (t now : ℕ)
    → Quiet cs
    → Ordered t cs now
    → latch (run r cs) now ≡ latch r now
unfolding run
latch-run [] r t now q h = refl
latch-run ((u, c) ∷ cs) r t now (q, qs) (h, k) =
    latch-run cs (step r u c) u now qs k ∙ latch-step r u now c q (Ordered-le cs u now k)

lost_latch :
    (r : RelayFsm) (t now : ℕ)
    → latch r t ≡ false
    → t ≤ now
    → (latch (connection_lost r t) now ≡ true) ↔ (t + fail_open_threshold ≤ now)
unfolding fail_open_at connection_lost refresh
lost_latch r t now off h = (λ e. ground arith, λ k. ground arith)

restored_latch :
    (r : RelayFsm) (t now : ℕ)
    → latch r t ≡ true
    → t ≤ now
    → (latch (connection_restored r t) now ≡ true) ↔ (now < t + recovery_hysteresis)
unfolding fail_open_at connection_restored refresh
restored_latch r t now on h = (λ e. ground arith, λ k. ground arith)

-- After a loss of the connection with the latch off, whatever commands and queries follow in the
-- order of time while the connection is not restored, fail-open is on exactly when 90 seconds
-- have passed since the loss, and then the relay is open.
pub outage_opens :
    (r : RelayFsm) (t now : ℕ) (cs : List (ℕ × Call))
    → latch r t ≡ false
    → Quiet cs
    → Ordered t cs now
    → ((latch (run (connection_lost r t) cs) now ≡ true) ↔ (t + fail_open_threshold ≤ now))
      × (t + fail_open_threshold ≤ now → (state (run (connection_lost r t) cs) now).0 ≡ relay_open)
unfolding state fail_open_at
outage_opens r t now cs off q h =
    let e = latch-run cs (connection_lost r t) t now q h in
    let l = lost_latch r t now off (Ordered-le cs t now h) in (rw e l, λ k. rw (e ∙ l.1 k))

-- After the connection is restored with the latch on, whatever commands and queries follow in the
-- order of time while it is kept, fail-open is on exactly while 30 seconds have not yet passed,
-- and until then the relay is open.
pub recovery_closes :
    (r : RelayFsm) (t now : ℕ) (cs : List (ℕ × Call))
    → latch r t ≡ true
    → Quiet cs
    → Ordered t cs now
    → ((latch (run (connection_restored r t) cs) now ≡ true) ↔ (now < t + recovery_hysteresis))
      × (now < t + recovery_hysteresis
          → (state (run (connection_restored r t) cs) now).0 ≡ relay_open)
unfolding state fail_open_at
recovery_closes r t now cs on q h =
    let e = latch-run cs (connection_restored r t) t now q h in
    let l = restored_latch r t now on (Ordered-le cs t now h) in (rw e l, λ k. rw (e ∙ l.1 k))

-- Whether there is a connection after a call, and since when the last restored one stands.
abbrev up_after : Bool → Call → Bool
up_after up loses = false
up_after up restores = true
up_after up _ = up

abbrev since_after : ℕ → ℕ → Call → ℕ
since_after since t restores = t
since_after since t _ = since

abbrev IsBrief : Bool → ℕ → ℕ → Type 0
IsBrief true since t = t < since + recovery_hysteresis
IsBrief false since t = Unit

-- No connection in the history, from the one that stands at its start to the one that stands at
-- its end, lasts for 30 seconds.
abbrev pub Flaps : Bool → ℕ → List (ℕ × Call) → ℕ → Type 0
Flaps up since [] now = IsBrief up since now
Flaps up since ((t, c) ∷ cs) now =
    IsBrief up since t × Flaps (up_after up c) (since_after since t c) cs now

refresh_brief :
    (r : RelayFsm) (t : ℕ)
    → r.fail_open ≡ true
    → IsBrief r.connected r.restored_at t
    → refresh r t ≡ r
unfolding refresh
refresh_brief r t on b = ground arith

step_brief :
    (r : RelayFsm) (t : ℕ) (c : Call)
    → r.fail_open ≡ true
    → refresh r t ≡ r
    → ((step r t c).fail_open ≡ true)
      × ((step r t c).connected ≡ up_after r.connected c)
      × ((step r t c).restored_at ≡ since_after r.restored_at t c)
unfolding step open_relay connection_lost connection_restored state fail_open_at
step_brief r t c on e = ground arith

-- With the latch on, a history in which no connection lasts for 30 seconds leaves the latch on
-- and the relay open.
pub flapping_stays_open :
    (cs : List (ℕ × Call)) (r : RelayFsm) (now : ℕ)
    → r.fail_open ≡ true
    → Flaps r.connected r.restored_at cs now
    → (latch (run r cs) now ≡ true) × ((state (run r cs) now).0 ≡ relay_open)
unfolding run state fail_open_at
flapping_stays_open [] r now on b = let e = refresh_brief r now on b in (ground arith, ground arith)
flapping_stays_open ((t, c) ∷ cs) r now on (b, f) =
    let (on', up, since) = step_brief r t c on (refresh_brief r t on b) in
    flapping_stays_open cs (step r t c) now on' (rw (up, since) f)

-- After a command at some time the relay is open at a later time exactly when fail-open is on
-- then, or the command's duration is not over, whatever was commanded before.
pub last_command_wins :
    (r : RelayFsm) (t now : ℕ) (d : ℤ)
    → t ≤ now
    → ((state (open_relay r t d) now).0 ≡ relay_open) ↔ ((latch r now ≡ true) ⊎ (now < add t d))
unfolding state open_relay fail_open_at refresh
last_command_wins r t now d h = (λ e. ground arith, λ k. ground arith)
