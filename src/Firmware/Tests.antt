-- ===== src/Firmware/Tests.antt =====
-- Runs of the device emulator, firmware/emulator/*.go, on small inputs.
use qr_domofon.Base.{
  ℕ, ◌+◌, ◌*◌, ◌≤◌, ◌<◌, ◌≡◌, refl, ◌↔◌, true, false, none, some, [], ◌∷◌, ◌++◌, arith, str_eq,
  if◌then◌else◌,
}
use qr_domofon.Base.Int.{pos}
use qr_domofon.Base.Time.{second}
use qr_domofon.Firmware.Relay
use qr_domofon.Firmware.Relay.{
  RelayFsm, relay_open, relay_closed, opens, loses, restores, asks_state, asks_fail_open, refresh,
  new_relay_fsm, connection_lost, connection_restored, open_relay, state, fail_open_at,
  fail_open_threshold, recovery_hysteresis,
}
use qr_domofon.Firmware.Relay.Laziness.{queries_unseen, erase_queries}
use qr_domofon.Firmware.Relay.FailOpen.{latch, outage_opens, recovery_closes, flapping_stays_open}
use qr_domofon.Firmware.Idempotency
use qr_domofon.Firmware.Idempotency.{IdempotencyBuffer, new_idempotency_buffer, seen, purge}
use qr_domofon.Firmware.Idempotency.Retention.{remembers}
use qr_domofon.Firmware.Device
use qr_domofon.Firmware.Device.{
  Device, Codec, OpenRelayCommand, new_device, command, connect, connection_loss, poll,
  heartbeat_tick, handle_command, is_stale,
}
use qr_domofon.Firmware.Device.Staleness.{IsFresh}
use qr_domofon.Base.Time.{sub}
use qr_domofon.Firmware.Device.Commands.{
  Executes, Follows, Idle, handle_command_lem, replay_refused,
}
use qr_domofon.Firmware.Device.Events.{events_of, occurrences, events_conserved}
use qr_domofon.Firmware.Device.Boot.{boot_never_opens}

abbrev start : RelayFsm
start = record { open_until = 0; connected = true; lost_at = 0; restored_at = 0; fail_open = false }

abbrev latched : RelayFsm
latched = record {
  open_until = 0;
  connected = true;
  lost_at = 0;
  restored_at = 0;
  fail_open = true;
}

queries_unseen_example :
    ((state (Relay.run start ((5, loses) ∷ (100 * second, asks_state) ∷ [])) (200 * second)).0
      ≡ (state
          (Relay.run start (erase_queries ((5, loses) ∷ (100 * second, asks_state) ∷ [])))
          (200 * second)).0)
    × ((fail_open_at
          (Relay.run start ((5, loses) ∷ (100 * second, asks_state) ∷ []))
          (200 * second)).0
        ≡ (fail_open_at
            (Relay.run start (erase_queries ((5, loses) ∷ (100 * second, asks_state) ∷ [])))
            (200 * second)).0)
queries_unseen_example =
    queries_unseen start ((5, loses) ∷ (100 * second, asks_state) ∷ []) 0 (200 * second)
      (omega arith)

outage_opens_example :
    ((latch (Relay.run (connection_lost start 7) ((8, opens (pos 5)) ∷ [])) (91 * second) ≡ true)
      ↔ (7 + fail_open_threshold ≤ 91 * second))
    × (7 + fail_open_threshold ≤ 91 * second
        → (state (Relay.run (connection_lost start 7) ((8, opens (pos 5)) ∷ [])) (91 * second)).0
          ≡ relay_open)
unfolding refresh fail_open_at
outage_opens_example =
    outage_opens start 7 (91 * second) ((8, opens (pos 5)) ∷ []) refl (tt, tt)
      (omega arith, omega arith)

recovery_closes_example :
    ((latch (Relay.run (connection_restored latched 7) ((8, asks_state) ∷ [])) (20 * second) ≡ true)
      ↔ (20 * second < 7 + recovery_hysteresis))
    × (20 * second < 7 + recovery_hysteresis
        → (state (Relay.run (connection_restored latched 7) ((8, asks_state) ∷ [])) (20 * second)).0
          ≡ relay_open)
unfolding refresh fail_open_at
recovery_closes_example =
    recovery_closes latched 7 (20 * second) ((8, asks_state) ∷ []) refl (tt, tt)
      (omega arith, omega arith)

flapping_stays_open_example :
    (latch (Relay.run latched ((10 * second, loses) ∷ (60 * second, restores) ∷ [])) (80 * second)
      ≡ true)
    × ((state
          (Relay.run latched ((10 * second, loses) ∷ (60 * second, restores) ∷ []))
          (80 * second)).0
        ≡ relay_open)
flapping_stays_open_example =
    flapping_stays_open ((10 * second, loses) ∷ (60 * second, restores) ∷ []) latched (80 * second)
      refl (omega arith)

remembers_example :
    (seen
      (Idempotency.run (seen new_idempotency_buffer "a" 0).0 (("b", 5) ∷ []))
      "a"
      (60 * second)).1
    ≡ true
unfolding seen new_idempotency_buffer purge Idempotency.contains Idempotency.evict
    Idempotency.new_ids
remembers_example =
    remembers new_idempotency_buffer "a" 0 (60 * second) (("b", 5) ∷ []) refl (omega arith, tt)
      (omega arith) (omega arith)

-- A payload "open" is a command that was issued at 100 seconds and holds the relay for 5 seconds.
abbrev open_command : OpenRelayCommand
open_command = record {
  cmd = "open_relay";
  relay_id = pos 1;
  duration_ms = pos 5000;
  request_id = "r1";
  issued_by = "resident:a1";
  issued_at = "t100";
}

abbrev codec : Codec
codec = record {
  iso8601 = λ _. "t";
  unmarshal = λ p. if str_eq p "open" then some open_command else none;
  parse_rfc3339 = λ _. some (100 * second);
}

abbrev device : Device
device = record {
  device_id = "d1";
  firmware_version = "1";
  fsm = start;
  idemp = record { entries = [] };
  relay_state = relay_closed;
  fail_open = false;
  online = true;
  started_at = 0;
  offline = [];
}

device-Executes : Executes codec device "open" (101 * second)
unfolding seen purge Idempotency.contains Idempotency.evict is_stale sub
device-Executes = record {
  cmd = open_command;
  issued_at = 100 * second;
  decoded = refl;
  opens = refl;
  dated = refl;
  fresh = refl;
  new = refl;
}

handle_command_lem_example :
    ((issued_at : ℕ)
      → (is_stale issued_at (101 * second) ≡ false) ↔ IsFresh issued_at (101 * second))
    × (¬ Executes codec device "open" (101 * second)
        → Idle codec device (handle_command codec device "open" (101 * second)))
    × ((x : Executes codec device "open" (101 * second))
        → Follows codec start x.cmd
            (101 * second)
            (handle_command codec device "open" (101 * second)))
handle_command_lem_example = handle_command_lem codec device "open" (101 * second)

replay_refused_example :
    ¬ Executes codec
      (Device.run codec
        (handle_command codec device "open" (101 * second)).0
        ((102 * second, poll) ∷ (102 * second, command "open") ∷ [])).0
      "open"
      (120 * second)
unfolding handle_command Idempotency.new_ids Device.Commands.reaches Idempotency.contains purge
    Idempotency.evict device-Executes
replay_refused_example =
    replay_refused codec device "open" (101 * second) (120 * second)
      ((102 * second, poll) ∷ (102 * second, command "open") ∷ []) device-Executes (omega arith)
      (omega arith) (omega arith)

events_conserved_example :
    let (d, out) =
      Device.run codec
        (new_device "d1" "1" 0)
        ((1, connect) ∷ (2, connection_loss) ∷ (100 * second, poll) ∷ []) in
    (events_of out ++ d.offline
      ≡ occurrences codec
          (new_device "d1" "1" 0)
          ((1, connect) ∷ (2, connection_loss) ∷ (100 * second, poll) ∷ []))
    × (d.online ≡ true → d.offline ≡ [])
events_conserved_example =
    events_conserved codec "d1" "1" 0
      ((1, connect) ∷ (2, connection_loss) ∷ (100 * second, poll) ∷ [])

boot_never_opens_example :
    let (d, out) = Device.run codec (new_device "d1" "1" 0) ((100 * second, poll) ∷ []) in
    ((state d.fsm (200 * second)).0 ≡ relay_closed)
    × (latch d.fsm (200 * second) ≡ false)
    × (out ≡ [])
boot_never_opens_example =
    boot_never_opens codec "d1" "1" 0 (200 * second) ((100 * second, poll) ∷ []) (tt, tt)
