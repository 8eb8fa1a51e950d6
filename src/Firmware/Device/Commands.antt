-- ===== src/Firmware/Device/Commands.antt =====
-- Which commands commands.go executes, and that it executes none of them twice.
use mathlib.Core.Bool.{false≢true}
use qr_domofon.Base.{
  ℕ, ◌+◌, ◌^◌, ◌≤◌, ◌<◌, String, ◌≡◌, refl, sym, ap, ◌∙◌, ◌↔◌, ◌⊎◌, inl, inr, true, false, not,
  Option, none, some, List, [], ◌∷◌, ◌++◌, arith, str_eq, eq_iff, if◌then◌else◌, All, Option-cases,
  Bool-cases,
}
use qr_domofon.Base.Int.{mul_64}
use qr_domofon.Base.Time.{add}
use qr_domofon.Firmware.Relay.{relay_open, RelayFsm, state, open_relay}
use qr_domofon.Firmware.Relay.Laziness.{state-state}
use qr_domofon.Firmware.Relay.FailOpen.{latch, last_command_wins}
use qr_domofon.Firmware.Idempotency
use qr_domofon.Firmware.Idempotency.{
  IdempotencyBuffer, idempotency_capacity, idempotency_ttl, seen, new_ids,
}
use qr_domofon.Firmware.Idempotency.Retention.{Until, remembers}
use qr_domofon.Firmware.Device.Staleness.{IsFresh, is_stale-IsFresh}
use qr_domofon.Firmware.Device.{
  Device, Codec, OpenRelayCommand, CommandAck, Message, ack, Input, command, connect,
  connection_loss, poll, heartbeat_tick, is_stale, actuate, accept, handle_command, handle_connect,
  handle_connection_lost, poll_state, run,
}

module _ (codec : Codec) where
  open codec use {unmarshal, parse_rfc3339}

  -- The payload is an open_relay command that is fresh, and its id is new to the device.
  pub record Executes (d : Device) (payload : String) (now : ℕ) : Type 0 where
    pub cmd : OpenRelayCommand
    pub issued_at : ℕ
    pub decoded : unmarshal payload ≡ some cmd
    pub opens : cmd.cmd ≡ "open_relay"
    pub dated : parse_rfc3339 cmd.issued_at ≡ some issued_at
    pub fresh : is_stale issued_at now ≡ false
    pub new : (seen d.idemp cmd.request_id now).1 ≡ false

  -- An acknowledgement of a command that was executed now.
  abbrev pub IsExecution : Message → Type 0
  IsExecution (ack a) = (a.result ≡ "ok") × (a.duplicate ≡ false)
  IsExecution _ = ⊥

  -- The id with which a payload reaches the idempotency buffer, if it does.
  abbrev fresh_id : ℕ → OpenRelayCommand → Option ℕ → Option String
  fresh_id now cmd none = none
  fresh_id now cmd (some issued_at) = if is_stale issued_at now then none else some cmd.request_id

  abbrev command_id : ℕ → Option OpenRelayCommand → Option String
  command_id now none = none
  command_id now (some cmd) =
      if not (str_eq cmd.cmd "open_relay")
      then none
      else fresh_id now cmd (parse_rfc3339 cmd.issued_at)

  unfoldable pub reaches : ℕ → String → Option String
  reaches now payload = command_id now (unmarshal payload)

  Executes-reaches :
      (d : Device) (payload : String) (now : ℕ) (x : Executes d payload now)
      → reaches now payload ≡ some x.cmd.request_id
  unfolding reaches
  Executes-reaches d payload now x = rw (x.decoded, (eq_iff _ _).1 x.opens, x.dated, x.fresh)

  -- What a command that is not executed does to the automaton, and what is acknowledged.
  abbrev pub Idle : Device → Device × List Message → Type 0
  Idle d (d', out) =
      (d'.fsm ≡ d.fsm) × (d'.relay_state ≡ d.relay_state) × All (λ m. ¬ IsExecution m) out

  accept-Idle :
      (d : Device) (cmd : OpenRelayCommand) (issued_at now : ℕ)
      → ((is_stale issued_at now ≡ false) × ((seen d.idemp cmd.request_id now).1 ≡ false))
        ⊎ Idle d (accept codec d cmd issued_at now)
  unfolding accept
  accept-Idle d cmd issued_at now = elim (Bool-cases (is_stale issued_at now)) [
    | inl stale ↦ inr (rw (stale, accept) (refl, refl, ((λ x. cc), tt)))
    | inr fresh ↦ elim (Bool-cases (seen d.idemp cmd.request_id now).1) [
      | inl old ↦ inr (rw (fresh, accept, old) (refl, refl, ((λ x. cc), tt)))
      | inr new ↦ inl (fresh, new)
    ]
  ]

  Executes-or_Idle :
      (d : Device) (payload : String) (now : ℕ)
      → Executes d payload now ⊎ Idle d (handle_command codec d payload now)
  unfolding handle_command
  Executes-or_Idle d payload now = elim (Option-cases (unmarshal payload)) [
    | inl e ↦ inr (rw (e, handle_command) (refl, refl, tt))
    | inr (cmd, e) ↦ elim (Bool-cases (str_eq cmd.cmd "open_relay")) [
      | inr other ↦ inr (rw (e, handle_command, other) (refl, refl, tt))
      | inl opens ↦ elim (Option-cases (parse_rfc3339 cmd.issued_at)) [
        | inl undated ↦ inr (rw (e, handle_command, opens, undated) (refl, refl, tt))
        | inr (issued_at, dated) ↦ elim (accept-Idle d cmd issued_at now) [
          | inl (fresh, new) ↦ inl (record {
            cmd = cmd;
            issued_at = issued_at;
            decoded = e;
            opens = (eq_iff _ _).0 opens;
            dated = dated;
            fresh = fresh;
            new = new;
          })
          | inr idle ↦ inr (rw (e, handle_command, opens, dated) idle)
        ]
      ]
    ]
  ]

  -- What an executed command does, in terms of the automaton's own operations.
  executes_lem :
      (d : Device) (payload : String) (now : ℕ) (x : Executes d payload now)
      → handle_command codec d payload now
        ≡ actuate codec (record d { idemp = (seen d.idemp x.cmd.request_id now).0 }) x.cmd now
  unfolding handle_command
  executes_lem d payload now x =
      rw (x.decoded, handle_command, (eq_iff _ _).1 x.opens, x.dated, accept, x.fresh, x.new)

  -- The relay follows the command, and the last message acknowledges it.
  pub record Follows (fsm : RelayFsm) (cmd : OpenRelayCommand) (now : ℕ) (r : Device × List Message)
      : Type 0 where
    pub before : List Message
    pub last : CommandAck
    pub acknowledged : r.1 ≡ before ++ ack last ∷ []
    pub result : last.result ≡ "ok"
    pub first : last.duplicate ≡ false
    pub request_id : last.request_id ≡ cmd.request_id
    pub observed : r.0.relay_state ≡ (state r.0.fsm now).0
    pub held :
        (t : ℕ)
        → now ≤ t
        → ((state r.0.fsm t).0 ≡ relay_open)
          ↔ ((latch fsm t ≡ true) ⊎ (t < add now (mul_64 1_000_000 cmd.duration_ms)))

  actuate-Follows :
      (d : Device) (cmd : OpenRelayCommand) (now : ℕ)
      → Follows d.fsm cmd now (actuate codec d cmd now)
  unfolding actuate
  actuate-Follows d cmd now =
      let opened = open_relay d.fsm now (mul_64 1_000_000 cmd.duration_ms) in
      record {
        before = _;
        last = _;
        acknowledged = refl;
        result = refl;
        first = refl;
        request_id = refl;
        observed = sym (state-state opened now now (omega arith));
        held = λ t h.
            rw (state-state opened now t h)
              (last_command_wins d.fsm now t (mul_64 1_000_000 cmd.duration_ms) h);
      }

  -- A command that is not executed (not decoded, not open_relay, undated, stale or a duplicate)
  -- leaves the automaton and the observed state as they are and is not acknowledged as executed;
  -- one that is executed is acknowledged in the last message, and then the relay is open exactly
  -- while fail-open is on or the duration, multiplied out on 64 bits, is not over. A command is
  -- not stale exactly up to 30 seconds before and after its own time, and 2 ^ 63 nanoseconds
  -- before it and earlier, where the difference of the times is cut to the least int64.
  pub handle_command_lem :
      (d : Device) (payload : String) (now : ℕ)
      → ((issued_at : ℕ) → (is_stale issued_at now ≡ false) ↔ IsFresh issued_at now)
        × (¬ Executes d payload now → Idle d (handle_command codec d payload now))
        × ((x : Executes d payload now)
            → Follows d.fsm x.cmd now (handle_command codec d payload now))
  handle_command_lem d payload now = (
    λ issued_at. is_stale-IsFresh issued_at now,
    λ no. elim (Executes-or_Idle d payload now) [ inl x ↦ absurd (no x) | inr idle ↦ idle ],
    λ x. rw (executes_lem d payload now x) (actuate-Follows _ x.cmd now),
  )

  -- The calls of the idempotency buffer that a history of inputs makes.
  abbrev id_call : Option String → ℕ → List (String × ℕ) → List (String × ℕ)
  id_call none now rest = rest
  id_call (some id) now rest = (id, now) ∷ rest

  abbrev pub id_calls : List (ℕ × Input) → List (String × ℕ)
  id_calls [] = []
  id_calls ((now, command payload) ∷ is) = id_call (reaches now payload) now (id_calls is)
  id_calls ((_, _) ∷ is) = id_calls is

  abbrev after_call : IdempotencyBuffer → ℕ → Option String → IdempotencyBuffer
  after_call b now none = b
  after_call b now (some id) = (seen b id now).0

  accept-idemp :
      (d : Device) (cmd : OpenRelayCommand) (issued_at now : ℕ)
      → (accept codec d cmd issued_at now).0.idemp
        ≡ after_call d.idemp now (if is_stale issued_at now then none else some cmd.request_id)
  unfolding accept
  accept-idemp d cmd issued_at now = elim (Bool-cases (is_stale issued_at now)) [
    | inl stale ↦ rw (stale, accept)
    | inr fresh ↦ elim (Bool-cases (seen d.idemp cmd.request_id now).1) [
      | inl old ↦ rw (fresh, accept, old)
      | inr new ↦ rw (fresh, accept, new)
    ]
  ]

  handle_command-idemp :
      (d : Device) (payload : String) (now : ℕ)
      → (handle_command codec d payload now).0.idemp ≡ after_call d.idemp now (reaches now payload)
  unfolding handle_command reaches
  handle_command-idemp d payload now = elim (Option-cases (unmarshal payload)) [
    | inl e ↦ rw (e, handle_command)
    | inr (cmd, e) ↦ elim (Bool-cases (str_eq cmd.cmd "open_relay")) [
      | inr other ↦ rw (e, handle_command, other)
      | inl opens ↦ elim (Option-cases (parse_rfc3339 cmd.issued_at)) [
        | inl undated ↦ rw (e, handle_command, opens, undated)
        | inr (issued_at, dated) ↦
            rw (e, handle_command, opens, dated) (accept-idemp d cmd issued_at now)
      ]
    ]
  ]

  poll_state-idemp : (d : Device) (now : ℕ) → (poll_state codec d now).0.idemp ≡ d.idemp
  unfolding poll_state
  poll_state-idemp d now = ground arith

  run-id_call :
      (o : Option String) (b : IdempotencyBuffer) (now : ℕ) (cs : List (String × ℕ))
      → Idempotency.run (after_call b now o) cs ≡ Idempotency.run b (id_call o now cs)
  unfolding Idempotency.run
  run-id_call none b now cs = refl
  run-id_call (some id) b now cs = refl

  run-idemp :
      (is : List (ℕ × Input)) (d : Device)
      → (run codec d is).0.idemp ≡ Idempotency.run d.idemp (id_calls is)
  unfolding run Idempotency.run
  run-idemp [] d = refl
  run-idemp ((now, command payload) ∷ is) d =
      run-idemp is (handle_command codec d payload now).0
      ∙ rw (handle_command-idemp d payload now)
          (run-id_call (reaches now payload) d.idemp now (id_calls is))
  run-idemp ((now, connect) ∷ is) d = run-idemp is (handle_connect codec d now).0
  run-idemp ((now, connection_loss) ∷ is) d = run-idemp is (handle_connection_lost codec d now).0
  run-idemp ((now, poll) ∷ is) d =
      run-idemp is (poll_state codec d now).0
      ∙ ap (λ b. Idempotency.run b (id_calls is)) (poll_state-idemp d now)
  run-idemp ((now, heartbeat_tick) ∷ is) d = run-idemp is d

  -- The inputs come at times up to `last`.
  abbrev pub Before : ℕ → List (ℕ × Input) → Type 0
  Before last [] = Unit
  Before last ((t, _) ∷ is) = (t ≤ last) × Before last is

  id_call-Until :
      (o : Option String) (last now : ℕ) (cs : List (String × ℕ))
      → now ≤ last
      → Until last cs
      → Until last (id_call o now cs)
  id_call-Until none last now cs h u = u
  id_call-Until (some id) last now cs h u = (h, u)

  id_calls-Until : (is : List (ℕ × Input)) (last : ℕ) → Before last is → Until last (id_calls is)
  id_calls-Until [] last b = tt
  id_calls-Until ((now, command payload) ∷ is) last (h, b) =
      id_call-Until (reaches now payload) last now (id_calls is) h (id_calls-Until is last b)
  id_calls-Until ((_, _) ∷ is) last (h, b) = id_calls-Until is last b

  executed-idemp :
      (d : Device) (payload : String) (now : ℕ) (x : Executes d payload now)
      → (handle_command codec d payload now).0.idemp ≡ (seen d.idemp x.cmd.request_id now).0
  executed-idemp d payload now x =
      rw (handle_command-idemp d payload now, Executes-reaches d payload now x)

  soon_lem :
      (issued_at t now : ℕ)
      → issued_at < t + 2 ^ 63
      → IsFresh issued_at t
      → IsFresh issued_at now
      → now ≤ t + idempotency_ttl
  soon_lem issued_at t now near (_, inl ahead) (late, _) = omega (arith, ahead, late)
  soon_lem issued_at t now near (_, inr far) fresh = absurd (omega (arith, near, far))

  -- No command that is dated less than 2 ^ 63 nanoseconds ahead of its execution is executed
  -- twice: it is not executed when it comes again, whatever inputs the device has in between, if
  -- these come at times up to the second arrival and bring fewer than 20 commands with new ids.
  pub replay_refused :
      (d : Device) (payload : String) (t now : ℕ) (is : List (ℕ × Input))
      → (x : Executes d payload t) → x.issued_at < t + 2 ^ 63
      → Before now is
      → new_ids (handle_command codec d payload t).0.idemp (id_calls is) < idempotency_capacity
      → ¬ Executes (run codec (handle_command codec d payload t).0 is).0 payload now
  replay_refused d payload t now is x near b few y =
      let d' = (handle_command codec d payload t).0 in
      let same : x.cmd ≡ y.cmd = cc (x.decoded, y.decoded) in
      let at : x.issued_at ≡ y.issued_at = cc (x.dated, y.dated, same) in
      let soon : now ≤ t + idempotency_ttl =
        soon_lem x.issued_at t now near ((is_stale-IsFresh x.issued_at t).0 x.fresh)
          ((is_stale-IsFresh x.issued_at now).0 (rw at y.fresh)) in
      let dup : (seen (Idempotency.run d'.idemp (id_calls is)) x.cmd.request_id now).1 ≡ true =
        rw (executed-idemp d payload t x) (
          remembers d.idemp x.cmd.request_id t now (id_calls is) x.new (id_calls-Until is now b)
            soon (rw (executed-idemp d payload t x) at few)) in
      false≢true (sym y.new ∙ rw (run-idemp is d', ← same) dup)
