-- ===== src/Firmware/Device/Events.antt =====
-- What main.go and failopen.go report of fail-open, and what becomes of the reports while there is
-- no connection.
use qr_domofon.Base.{
  ℕ, String, ◌≡◌, refl, sym, ap, ◌∙◌, Bool, true, false, not, List, [], ◌∷◌, ◌++◌, map, arith,
  if◌then◌else◌, Bool-cases, Option-cases, str_eq, inl, inr,
}
use mathlib.Core.Bool.{false≢true}
use mathlib.Core.List.{append-nil, append_assoc}
use mathlib.Core.Path.{subst}
use qr_domofon.Base.Int.{mul_64}
use qr_domofon.Firmware.Relay.{open_relay, state, fail_open_at}
use qr_domofon.Firmware.Relay.Laziness.{latch-state}
use qr_domofon.Firmware.Idempotency.{seen}
use qr_domofon.Firmware.Relay.FailOpen.{latch}
use qr_domofon.Firmware.Device.{
  Device, Codec, OpenRelayCommand, same_state, ack_of, is_stale, EventName, fail_open_activated,
  fail_open_deactivated, EventMessage, Message, ack, heartbeat, event, Input, command, connect,
  connection_loss, poll, heartbeat_tick, new_device, publish_heartbeat, emit_event, actuate, accept,
  handle_command, handle_connect, poll_state, emit_transition, step, run,
}

-- The events among the published messages.
abbrev pub events_of : List Message → List EventMessage
events_of [] = []
events_of (event e ∷ ms) = e ∷ events_of ms
events_of (_ ∷ ms) = events_of ms

events_of-append : (xs ys : List Message) → events_of (xs ++ ys) ≡ events_of xs ++ events_of ys
events_of-append [] ys = refl
events_of-append (event e ∷ xs) ys = ap (λ l. e ∷ l) (events_of-append xs ys)
events_of-append (ack _ ∷ xs) ys = events_of-append xs ys
events_of-append (heartbeat _ ∷ xs) ys = events_of-append xs ys

events_of-map : (es : List EventMessage) → events_of (map event es) ≡ es
events_of-map [] = refl
events_of-map (e ∷ es) = ap (λ l. e ∷ l) (events_of-map es)

module _ (codec : Codec) where
  open codec use {iso8601, unmarshal, parse_rfc3339}

  -- The change of the latch between two polls, as an event with the time at which it is noticed.
  abbrev change : Bool → Bool → ℕ → List EventMessage
  change false true now = record { event = fail_open_activated; timestamp = iso8601 now } ∷ []
  change true false now = record { event = fail_open_deactivated; timestamp = iso8601 now } ∷ []
  change _ _ now = []

  -- The events that a history gives rise to, connected or not.
  abbrev pub changes : Device → ℕ → Input → List EventMessage
  changes d now poll = change d.fail_open (latch d.fsm now) now
  changes d now _ = []

  pub occurrences : Device → List (ℕ × Input) → List EventMessage
  occurrences d [] = []
  occurrences d ((now, i) ∷ is) = changes d now i ++ occurrences (step codec d now i).0 is

  -- The offline buffer is in use only while there is no connection.
  abbrev pub IsFlushed : Device → Type 0
  IsFlushed d = d.online ≡ true → d.offline ≡ []

  -- The published events and those that are kept are the old ones and the new.
  abbrev Conserves : Device → List EventMessage → Device × List Message → Type 0
  Conserves d new (d', out) = IsFlushed d' × (events_of out ++ d'.offline ≡ d.offline ++ new)

  events_of-heartbeat : (d : Device) (now : ℕ) → events_of (publish_heartbeat codec d now) ≡ []
  unfolding publish_heartbeat
  events_of-heartbeat d now = ground arith

  emit_event-Conserves :
      (d : Device) (name : EventName) (now : ℕ)
      → IsFlushed d
      → Conserves d
          (record { event = name; timestamp = iso8601 now } ∷ [])
          (emit_event codec d name now)
  unfolding emit_event
  emit_event-Conserves d name now f = elim (Bool-cases d.online) [
    | inl on ↦ ((λ e. ground (arith, f on)), ground (arith, f on, append-nil d.offline))
    | inr off ↦ ((λ e. ground arith), ground arith)
  ]

  emit_transition-Conserves :
      (d : Device) (a b : Bool) (now : ℕ)
      → IsFlushed d
      → Conserves d (change a b now) (emit_transition codec d a b now)
  emit_transition-Conserves d false true now f = emit_event-Conserves d fail_open_activated now f
  emit_transition-Conserves d true false now f = emit_event-Conserves d fail_open_deactivated now f
  emit_transition-Conserves d true true now f = (f, rw append-nil)
  emit_transition-Conserves d false false now f = (f, rw append-nil)

  -- Messages that are no events may follow.
  Conserves-append :
      (d : Device) (new : List EventMessage) (r : Device × List Message) (ms : List Message)
      → events_of ms ≡ []
      → Conserves d new r
      → Conserves d new (r.0, r.1 ++ ms)
  Conserves-append d new r ms quiet (f, e) = (f, rw (events_of-append r.1 ms, quiet, append-nil) e)

  events_of-if :
      (b : Bool) (d : Device) (now : ℕ)
      → events_of (if b then [] else publish_heartbeat codec d now) ≡ []
  events_of-if true d now = refl
  events_of-if false d now = events_of-heartbeat d now

  poll_state-Conserves :
      (d : Device) (now : ℕ)
      → IsFlushed d
      → Conserves d (changes d now poll) (poll_state codec d now)
  unfolding poll_state
  poll_state-Conserves d now f =
      let (relay, fsm₁) = state d.fsm now in
      let (b, fsm₂) = fail_open_at fsm₁ now in
      let d₁ : Device = record d { fsm = fsm₂; relay_state = relay; fail_open = b } in
      let t = emit_transition codec d₁ d.fail_open b now in
      subst (λ x. Conserves d (change d.fail_open x now) (poll_state codec d now))
        (latch-state d.fsm now now (omega arith))
        (Conserves-append d (change d.fail_open b now) t
          (if same_state d.relay_state relay then [] else publish_heartbeat codec t.0 now)
          (events_of-if (same_state d.relay_state relay) t.0 now)
          (emit_transition-Conserves d₁ d.fail_open b now f))

  handle_connect-Conserves : (d : Device) (now : ℕ) → Conserves d [] (handle_connect codec d now)
  unfolding handle_connect
  handle_connect-Conserves d now = ((λ _. refl), simp (append-nil, events_of-append, events_of-map))

  -- A command neither publishes an event nor keeps one.
  abbrev Eventless : Device → Device × List Message → Type 0
  Eventless d (d', out) = (d'.online ≡ d.online) × (d'.offline ≡ d.offline) × (events_of out ≡ [])

  events_of-if' :
      (b : Bool) (d : Device) (now : ℕ) (ms : List Message)
      → events_of ms ≡ []
      → events_of ((if b then publish_heartbeat codec d now else []) ++ ms) ≡ []
  events_of-if' true d now ms e = rw (events_of-append, events_of-heartbeat d now) e
  events_of-if' false d now ms e = e

  actuate-Eventless :
      (d : Device) (cmd : OpenRelayCommand) (now : ℕ) → Eventless d (actuate codec d cmd now)
  unfolding actuate
  actuate-Eventless d cmd now = (
    refl,
    refl,
    (let (relay, fsm) = state (open_relay d.fsm now (mul_64 1_000_000 cmd.duration_ms)) now in
        let d' : Device = record d { fsm = fsm; relay_state = relay } in
        events_of-if' (not (same_state relay d.relay_state)) d' now
          (ack_of codec cmd.request_id "ok" "" false now ∷ []) refl),
  )

  accept-Eventless :
      (d : Device) (cmd : OpenRelayCommand) (issued_at now : ℕ)
      → Eventless d (accept codec d cmd issued_at now)
  unfolding accept
  accept-Eventless d cmd issued_at now = elim (Bool-cases (is_stale issued_at now)) [
    | inl stale ↦ rw (stale, accept) (refl, refl, refl)
    | inr fresh ↦ elim (Bool-cases (seen d.idemp cmd.request_id now).1) [
      | inl old ↦ rw (fresh, accept, old) (refl, refl, refl)
      | inr new ↦
          rw (fresh, accept, new)
            (actuate-Eventless (record d { idemp = (seen d.idemp cmd.request_id now).0 }) cmd now)
    ]
  ]

  handle_command-Eventless :
      (d : Device) (payload : String) (now : ℕ) → Eventless d (handle_command codec d payload now)
  unfolding handle_command
  handle_command-Eventless d payload now = elim (Option-cases (unmarshal payload)) [
    | inl e ↦ rw (e, handle_command) (refl, refl, refl)
    | inr (cmd, e) ↦ elim (Bool-cases (str_eq cmd.cmd "open_relay")) [
      | inr other ↦ rw (e, handle_command, other) (refl, refl, refl)
      | inl opens ↦ elim (Option-cases (parse_rfc3339 cmd.issued_at)) [
        | inl undated ↦ rw (e, handle_command, opens, undated) (refl, refl, refl)
        | inr (issued_at, dated) ↦
            rw (e, handle_command, opens, dated) (accept-Eventless d cmd issued_at now)
      ]
    ]
  ]

  Eventless-Conserves :
      (d : Device) (r : Device × List Message) → IsFlushed d → Eventless d r → Conserves d [] r
  Eventless-Conserves d r f (on, buffer, quiet) =
      ((λ e. buffer ∙ f (sym on ∙ e)), rw (quiet, append-nil) buffer)

  step-Conserves :
      (d : Device) (now : ℕ) (i : Input)
      → IsFlushed d
      → Conserves d (changes d now i) (step codec d now i)
  unfolding step
  step-Conserves d now (command payload) f =
      Eventless-Conserves d (handle_command codec d payload now) f
        (handle_command-Eventless d payload now)
  step-Conserves d now connect f = handle_connect-Conserves d now
  step-Conserves d now connection_loss f = ((λ e. absurd (false≢true e)), rw append-nil)
  step-Conserves d now poll f = poll_state-Conserves d now f
  step-Conserves d now heartbeat_tick f = (f, rw (events_of-heartbeat d now, append-nil))

  run-Conserves :
      (is : List (ℕ × Input)) (d : Device)
      → IsFlushed d
      → Conserves d (occurrences d is) (run codec d is)
  unfolding run occurrences
  run-Conserves [] d f = (f, rw append-nil)
  run-Conserves ((now, i) ∷ is) d f =
      let (f', e) = step-Conserves d now i f in
      let (f'', e') = run-Conserves is (step codec d now i).0 f' in
      (f'', rw (events_of-append, append_assoc, e', ← append_assoc, e, append_assoc))

  -- Over any history of a device from its start, the published events followed by those that wait
  -- for a connection are the changes of the fail-open latch that its polls noticed, in their
  -- order and with their times; while there is a connection none waits.
  pub events_conserved :
      (id version : String) (t : ℕ) (is : List (ℕ × Input))
      → let (d, out) = run codec (new_device id version t) is in
        (events_of out ++ d.offline ≡ occurrences (new_device id version t) is)
        × (d.online ≡ true → d.offline ≡ [])
  unfolding new_device
  events_conserved id version t is =
      let (f, e) = run-Conserves is (new_device id version t) (λ _. refl) in (e, f)
