-- ===== src/Firmware/Relay.antt =====
-- firmware/emulator/relay.go: the automaton of the lock's relay. Methods on `*RelayFSM` return the
-- new record. `now.Sub(t)` compares as it does here, since a negative duration reaches no threshold.
pub mod Laziness
pub mod FailOpen
use qr_domofon.Base.{
  ℕ, ◌-◌, ◌*◌, Bool, true, false, not, ◌&&◌, List, [], ◌∷◌, leb, ltb, if◌then◌else◌,
}
use qr_domofon.Base.Int.{ℤ}
use qr_domofon.Base.Time.{second, add}

pub data RelayState : Type 0 where
  relay_closed relay_open : RelayState

abbrev pub fail_open_threshold : ℕ
fail_open_threshold = 90 * second

abbrev pub recovery_hysteresis : ℕ
recovery_hysteresis = 30 * second

pub record RelayFsm : Type 0 where
  pub open_until : ℕ
  pub connected : Bool
  pub lost_at : ℕ
  pub restored_at : ℕ
  pub fail_open : Bool

-- The fields that Go leaves out hold its zero values.
unfoldable pub new_relay_fsm : ℕ → RelayFsm
new_relay_fsm now = record {
  open_until = 0;
  connected = true;
  lost_at = 0;
  restored_at = now;
  fail_open = false;
}

unfoldable pub refresh : RelayFsm → ℕ → RelayFsm
refresh r now =
    if r.connected
    then if r.fail_open && leb recovery_hysteresis (now - r.restored_at)
      then record r { fail_open = false }
      else r
    else if not r.fail_open && leb fail_open_threshold (now - r.lost_at)
    then record r { fail_open = true }
    else r

unfoldable pub open_relay : RelayFsm → ℕ → ℤ → RelayFsm
open_relay r now duration = record (refresh r now) { open_until = add now duration }

unfoldable pub connection_lost : RelayFsm → ℕ → RelayFsm
connection_lost r now = record (refresh r now) { connected = false; lost_at = now }

unfoldable pub connection_restored : RelayFsm → ℕ → RelayFsm
connection_restored r now = record (refresh r now) { connected = true; restored_at = now }

abbrev position : RelayFsm → ℕ → RelayState
position r now =
    if r.fail_open then relay_open else if ltb now r.open_until then relay_open else relay_closed

-- `State` and `FailOpen` write the refreshed latch back, and so return the automaton too.
unfoldable pub state : RelayFsm → ℕ → RelayState × RelayFsm
state r now = let r' = refresh r now in (position r' now, r')

unfoldable pub fail_open_at : RelayFsm → ℕ → Bool × RelayFsm
fail_open_at r now = let r' = refresh r now in (r'.fail_open, r')

-- A history of the automaton: its calls in the order of their times.
pub data Call : Type 0 where
  opens : ℤ → Call
  loses restores asks_state asks_fail_open : Call

unfoldable pub step : RelayFsm → ℕ → Call → RelayFsm
unfolding open_relay connection_lost connection_restored state fail_open_at
step r now (opens d) = open_relay r now d
step r now loses = connection_lost r now
step r now restores = connection_restored r now
step r now asks_state = (state r now).1
step r now asks_fail_open = (fail_open_at r now).1

unfoldable pub run : RelayFsm → List (ℕ × Call) → RelayFsm
run r [] = r
run r ((t, c) ∷ cs) = run (step r t c) cs
