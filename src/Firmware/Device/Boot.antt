-- ===== src/Firmware/Device/Boot.antt =====
-- A device of main.go whose broker cannot be reached from its start on.
use qr_domofon.Base.{ℕ, ◌≡◌, refl, String, true, false, List, [], ◌∷◌, arith}
use qr_domofon.Firmware.Relay.{relay_closed, refresh, state, fail_open_at}
use qr_domofon.Firmware.Relay.FailOpen.{latch}
use qr_domofon.Firmware.Device.{Device, Codec, Input, poll, heartbeat_tick, new_device, step, run}

-- Neither a connection, nor its loss, nor a command: nothing but the passing of time.
abbrev IsSilent : Input → Type 0
IsSilent poll = Unit
IsSilent heartbeat_tick = Unit
IsSilent _ = ⊥

abbrev pub Silent : List (ℕ × Input) → Type 0
Silent [] = Unit
Silent ((_, i) ∷ is) = IsSilent i × Silent is

record IsUnconnected (d : Device) : Type 0 where
  believed : d.fsm.connected ≡ true
  unlatched : d.fsm.fail_open ≡ false
  unopened : d.fsm.open_until ≡ 0
  closed : d.relay_state ≡ relay_closed
  unnoticed : d.fail_open ≡ false
  offline : d.online ≡ false

module _ (codec : Codec) where
  step-IsUnconnected :
      (d : Device) (now : ℕ) (i : Input)
      → IsSilent i
      → IsUnconnected d
      → IsUnconnected (step codec d now i).0 × ((step codec d now i).1 ≡ [])
  unfolding step refresh
  step-IsUnconnected d now poll q u = ground arith
  step-IsUnconnected d now heartbeat_tick q u = (u, ground arith)
  step-IsUnconnected d now _ q u = elim q [ ]

  run-IsUnconnected :
      (is : List (ℕ × Input)) (d : Device)
      → Silent is
      → IsUnconnected d
      → IsUnconnected (run codec d is).0 × ((run codec d is).1 ≡ [])
  unfolding run
  run-IsUnconnected [] d q u = (u, refl)
  run-IsUnconnected ((now, i) ∷ is) d (q, qs) u =
      let (u', none_now) = step-IsUnconnected d now i q u in
      let (u'', none_later) = run-IsUnconnected is (step codec d now i).0 qs u' in
      (u'', rw (none_now, none_later))

  unconnected_closed :
      (d : Device) (now : ℕ)
      → IsUnconnected d
      → ((state d.fsm now).0 ≡ relay_closed) × (latch d.fsm now ≡ false)
  unfolding state refresh fail_open_at
  unconnected_closed d now u = ground arith

  -- A device that from its start on has no connection, no loss of one and no command keeps its
  -- relay closed and fail-open off at every time, and publishes nothing, however long its polls
  -- and heartbeats go on.
  pub boot_never_opens :
      (id version : String) (t now : ℕ) (is : List (ℕ × Input))
      → Silent is
      → let (d, out) = run codec (new_device id version t) is in
        ((state d.fsm now).0 ≡ relay_closed) × (latch d.fsm now ≡ false) × (out ≡ [])
  unfolding new_device
  boot_never_opens id version t now is q =
      let (u, quiet) = run-IsUnconnected is (new_device id version t) q (record {
        believed = refl;
        unlatched = refl;
        unopened = refl;
        closed = refl;
        unnoticed = refl;
        offline = refl;
      }) in
      let (closed, off) = unconnected_closed _ now u in (closed, off, quiet)
