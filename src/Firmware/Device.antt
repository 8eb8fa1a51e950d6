-- ===== src/Firmware/Device.antt =====
-- firmware/emulator/main.go, commands.go, failopen.go and heartbeat.go: the device around the
-- automaton of the relay. A handler returns the new device and the messages that it publishes on
-- the status topic, in their order; `publishJSON` logs a failed publication and goes on, so a
-- message stands for the attempt. Each handler takes the device's mutex, and runs as one step here.
pub mod Staleness
pub mod Commands
pub mod Events
pub mod Boot
use qr_domofon.Base.{
  ℕ, zero, ◌+◌, ◌-◌, ◌*◌, ◌/◌, String, Bool, true, false, not, ◌||◌, Option, none, some, List, [],
  ◌∷◌, ◌++◌, map, ltb, leb, str_eq, if◌then◌else◌,
}
use qr_domofon.Base.Int.{ℤ, negsuc, mul_64, neg_64, is_negative, exceeds}
use qr_domofon.Base.Time.{second, sub}
use qr_domofon.Firmware.Relay.{
  RelayState, relay_closed, relay_open, RelayFsm, new_relay_fsm, open_relay, connection_lost,
  connection_restored, state, fail_open_at,
}
use qr_domofon.Firmware.Idempotency.{IdempotencyBuffer, new_idempotency_buffer, seen}

abbrev pub stale_threshold : ℕ
stale_threshold = 30 * second

-- `|now - issuedAt| > staleThreshold`, on int64.
unfoldable pub is_stale : ℕ → ℕ → Bool
is_stale issued_at now =
    let diff = sub now issued_at in
    let size = if is_negative diff then neg_64 diff else diff in exceeds size stale_threshold

pub record OpenRelayCommand : Type 0 where
  pub cmd : String
  pub relay_id : ℤ
  pub duration_ms : ℤ
  pub request_id : String
  pub issued_by : String
  pub issued_at : String

pub record CommandAck : Type 0 where
  pub request_id : String
  pub result : String
  pub reason : String
  pub duplicate : Bool
  pub timestamp : String

pub record Heartbeat : Type 0 where
  pub device_id : String
  pub status : String
  pub relay_state : RelayState
  pub firmware_version : String
  pub uptime_sec : ℕ
  pub rssi : ℤ
  pub timestamp : String

pub data EventName : Type 0 where
  fail_open_activated fail_open_deactivated : EventName

pub record EventMessage : Type 0 where
  pub event : EventName
  pub timestamp : String

-- The field `type` of a payload: "command_ack", absent, "event".
pub data Message : Type 0 where
  ack : CommandAck → Message
  heartbeat : Heartbeat → Message
  event : EventMessage → Message

pub record Device : Type 0 where
  pub device_id : String
  pub firmware_version : String
  pub fsm : RelayFsm
  pub idemp : IdempotencyBuffer
  pub relay_state : RelayState
  pub fail_open : Bool
  pub online : Bool
  pub started_at : ℕ
  pub offline : List EventMessage

unfoldable pub new_device : String → String → ℕ → Device
unfolding new_relay_fsm new_idempotency_buffer
new_device device_id firmware_version now = record {
  device_id = device_id;
  firmware_version = firmware_version;
  fsm = new_relay_fsm now;
  idemp = new_idempotency_buffer;
  relay_state = relay_closed;
  fail_open = false;
  online = false;
  started_at = now;
  offline = [];
}

abbrev same_state : RelayState → RelayState → Bool
same_state relay_closed relay_closed = true
same_state relay_open relay_open = true
same_state _ _ = false

-- What the goroutines and the callbacks of main.go feed the device with.
pub data Input : Type 0 where
  command : String → Input
  connect connection_loss poll heartbeat_tick : Input

-- `iso8601` of the time package, and the two parsers that a command goes through.
pub record Codec : Type 0 where
  pub iso8601 : ℕ → String
  pub unmarshal : String → Option OpenRelayCommand
  pub parse_rfc3339 : String → Option ℕ

module _ (codec : Codec) where
  open codec use {iso8601, unmarshal, parse_rfc3339}

  unfoldable pub publish_heartbeat : Device → ℕ → List Message
  publish_heartbeat d now =
      if not d.online
      then []
      else heartbeat (record {
        device_id = d.device_id;
        status = "online";
        relay_state = d.relay_state;
        firmware_version = d.firmware_version;
        uptime_sec = (now - d.started_at) / second;
        rssi = negsuc 64;
        timestamp = iso8601 now;
      })
        ∷ []

  -- `offlineEventBuffer.add` is the append.
  unfoldable pub emit_event : Device → EventName → ℕ → Device × List Message
  emit_event d name now =
      let msg : EventMessage = record { event = name; timestamp = iso8601 now } in
      if d.online then (d, event msg ∷ []) else (record d { offline = d.offline ++ msg ∷ [] }, [])

  -- `offlineEventBuffer.drain` and the loop over what it returns.
  unfoldable pub flush_offline_events : Device → Device × List Message
  flush_offline_events d = (record d { offline = [] }, map event d.offline)

  abbrev ack_of : String → String → String → Bool → ℕ → Message
  ack_of request_id result reason duplicate now = ack (record {
    request_id = request_id;
    result = result;
    reason = reason;
    duplicate = duplicate;
    timestamp = iso8601 now;
  })

  -- From the call of `OpenRelay` to the end of `handleCommand`.
  unfoldable pub actuate : Device → OpenRelayCommand → ℕ → Device × List Message
  unfolding open_relay state publish_heartbeat
  actuate d cmd now =
      let (new_state, fsm) = state (open_relay d.fsm now (mul_64 1_000_000 cmd.duration_ms)) now in
      let d' : Device = record d { fsm = fsm; relay_state = new_state } in
      let changed = not (same_state new_state d.relay_state) in
      (
        d',
        (if changed then publish_heartbeat d' now else [])
            ++ ack_of cmd.request_id "ok" "" false now ∷ [],
      )

  -- From the check of freshness on.
  unfoldable pub accept : Device → OpenRelayCommand → ℕ → ℕ → Device × List Message
  unfolding is_stale seen actuate
  accept d cmd issued_at now =
      if is_stale issued_at now
      then (d, ack_of cmd.request_id "rejected" "stale" false now ∷ [])
      else let (idemp, duplicate) = seen d.idemp cmd.request_id now in
        let d' : Device = record d { idemp = idemp } in
        if duplicate then (d', ack_of cmd.request_id "ok" "" true now ∷ []) else actuate d' cmd now

  unfoldable pub handle_command : Device → String → ℕ → Device × List Message
  unfolding accept
  handle_command d payload now = elim (unmarshal payload) [
    | none ↦ (d, [])
    | some cmd ↦
        if not (str_eq cmd.cmd "open_relay") then (d, []) else elim (parse_rfc3339 cmd.issued_at) [
          | none ↦ (d, [])
          | some issued_at ↦ accept d cmd issued_at now
        ]
  ]

  -- The subscription is the broker's; a failed one is logged.
  unfoldable pub handle_connect : Device → ℕ → Device × List Message
  unfolding connection_restored flush_offline_events publish_heartbeat
  handle_connect d now =
      let d₁ : Device = record d { fsm = connection_restored d.fsm now; online = true } in
      let (d₂, events) = flush_offline_events d₁ in (d₂, events ++ publish_heartbeat d₂ now)

  unfoldable pub handle_connection_lost : Device → ℕ → Device × List Message
  unfolding connection_lost
  handle_connection_lost d now = (record d { fsm = connection_lost d.fsm now; online = false }, [])

  -- The two tests of `pollState` on the latch: at most one of them holds.
  abbrev emit_transition : Device → Bool → Bool → ℕ → Device × List Message
  emit_transition d false true now = emit_event d fail_open_activated now
  emit_transition d true false now = emit_event d fail_open_deactivated now
  emit_transition d _ _ now = (d, [])

  unfoldable pub poll_state : Device → ℕ → Device × List Message
  unfolding state fail_open_at emit_event publish_heartbeat
  poll_state d now =
      let (new_relay, fsm₁) = state d.fsm now in
      let (new_fail_open, fsm₂) = fail_open_at fsm₁ now in
      let d₁ : Device = record d {
        fsm = fsm₂;
        relay_state = new_relay;
        fail_open = new_fail_open;
      } in
      let (d₂, events) = emit_transition d₁ d.fail_open new_fail_open now in
      (d₂, events ++ (if same_state d.relay_state new_relay then [] else publish_heartbeat d₂ now))

  -- The ticker of `runHeartbeatLoop`.
  unfoldable pub tick_heartbeat : Device → ℕ → Device × List Message
  unfolding publish_heartbeat
  tick_heartbeat d now = (d, publish_heartbeat d now)

  unfoldable pub step : Device → ℕ → Input → Device × List Message
  unfolding handle_command handle_connect handle_connection_lost poll_state tick_heartbeat
  step d now (command payload) = handle_command d payload now
  step d now connect = handle_connect d now
  step d now connection_loss = handle_connection_lost d now
  step d now poll = poll_state d now
  step d now heartbeat_tick = tick_heartbeat d now

  unfoldable pub run : Device → List (ℕ × Input) → Device × List Message
  unfolding step
  run d [] = (d, [])
  run d ((now, i) ∷ is) =
      let (d', out) = step d now i in let (d'', rest) = run d' is in (d'', out ++ rest)
