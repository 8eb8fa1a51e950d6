-- ===== src/Backend/Access/Gates.antt =====
-- When backend/internal/access publishes a command, and what it leaves behind then.
use Prim.Native.String.{◌++◌}
use qr_domofon.Base.{
  String, ◌≡◌, refl, true, false, none, some, List, [], ◌∷◌, ◌⊎◌, inl, inr, arith, str_eq, eq_iff,
  Bool-cases, Option-cases,
}
use qr_domofon.Backend.Httpx.{Result, ok, err}
use qr_domofon.Backend.Audit.{Event}
use qr_domofon.Backend.Devices.{value_of}
use qr_domofon.Backend.Access.{
  Env, Effect, publish, save, record_event, CallSession, OpenRelayCommand, OpenResult, command,
  open_session, check_session, open_door,
}

abbrev pub published : List Effect → List (String × OpenRelayCommand)
published [] = []
published (publish d cmd ∷ fs) = (d, cmd) ∷ published fs
published (save _ _ ∷ fs) = published fs
published (record_event _ ∷ fs) = published fs

-- The session of a call that a resident of its apartment has accepted, at a device that is online.
pub record MayOpen (e : Env) (call_id : String) (sess : CallSession) : Type 0 where
  pub found : e.lookup call_id ≡ some (some sess)
  pub member : e.allow_apartment sess.apartment_id ≡ true
  pub accepted : sess.state ≡ "accepted"
  pub online : e.is_online sess.device_id ≡ some true

-- What a publication for a session is.
abbrev pub session_command : Env → CallSession → List (String × OpenRelayCommand)
session_command e sess = (sess.device_id, command e ("resident:" ++ sess.apartment_id)) ∷ []

published-open_session :
    (e : Env) (sess : CallSession) → published (open_session e sess).1 ≡ session_command e sess
unfolding open_session
published-open_session e sess = ground arith

-- The checks let through exactly what they are named for.
check_session_passes :
    (e : Env) (sess : CallSession)
    → e.allow_apartment sess.apartment_id ≡ true
    → sess.state ≡ "accepted"
    → e.is_online sess.device_id ≡ some true
    → check_session e sess ≡ open_session e sess
unfolding check_session
check_session_passes e sess member accepted online =
    rw (member, (eq_iff _ _).1 accepted, online, check_session) refl

check_session_stops :
    (e : Env) (sess : CallSession)
    → (published (check_session e sess).1 ≡ [])
      ⊎ ((e.allow_apartment sess.apartment_id ≡ true)
          × (str_eq sess.state "accepted" ≡ true)
          × (e.is_online sess.device_id ≡ some true))
unfolding check_session
check_session_stops e sess = ground arith

-- Open publishes nothing, or one command, to the device of a session that was found, belongs to
-- an apartment of the user, is accepted and has its device online; and to such a session it does
-- publish.
pub open_door-MayOpen :
    (e : Env) (call_id : String)
    → ((published (open_door e call_id).1 ≡ [])
        ⊎ ((sess : CallSession) × MayOpen e call_id sess
            × (published (open_door e call_id).1 ≡ session_command e sess)))
      × ((sess : CallSession)
          → MayOpen e call_id sess
          → published (open_door e call_id).1 ≡ session_command e sess)
unfolding open_door
open_door-MayOpen e call_id = (
  elim (Option-cases (e.lookup call_id)) [
    | inl failed ↦ inl (rw (failed, open_door) refl)
    | inr (none, missing) ↦ inl (rw (missing, open_door) refl)
    | inr (some sess, found) ↦ elim (check_session_stops e sess) [
      | inl stopped ↦ inl (rw (found, open_door) stopped)
      | inr (member, accepted, online) ↦
          let g : MayOpen e call_id sess = record {
            found = found;
            member = member;
            accepted = (eq_iff _ _).0 accepted;
            online = online;
          } in
          inr (sess, g, passes sess g)
    ]
  ],
  passes,
)
  where
    passes :
        (sess : CallSession)
        → MayOpen e call_id sess
        → published (open_door e call_id).1 ≡ session_command e sess
    passes sess g =
        rw (g.found, open_door, check_session_passes e sess g.member g.accepted g.online)
          (published-open_session e sess)

-- What a door that was opened leaves behind, by the id that the caller is told: the command, the
-- context that the acknowledgement will be read with, and the event, which are of the call's session.
pub record Correlated (e : Env) (call_id : String) (r : OpenResult) (effects : List Effect)
    : Type 0 where
  pub sess : CallSession
  pub found : e.lookup call_id ≡ some (some sess)
  pub cmd : OpenRelayCommand
  pub context : List (String × String)
  pub ev : Event
  pub effects_lem :
      effects ≡ publish sess.device_id cmd ∷ save r.request_id context ∷ record_event ev ∷ []
  pub command_id : cmd.request_id ≡ r.request_id
  pub event_id : ev.request_id ≡ r.request_id
  pub actor : cmd.issued_by ≡ "resident:" ++ sess.apartment_id
  pub event_actor : ev.actor ≡ "resident:" ++ sess.apartment_id
  pub event_type : ev.event_type ≡ "door_open_requested"
  pub call : (value_of context "call_id" ≡ sess.call_id) × (ev.call_id ≡ sess.call_id)
  pub apartment :
      (value_of context "apartment_id" ≡ sess.apartment_id) × (ev.apartment_id ≡ sess.apartment_id)
  pub point :
      (value_of context "access_point_id" ≡ sess.access_point_id)
      × (ev.access_point_id ≡ sess.access_point_id)
  pub device : (value_of context "device_id" ≡ sess.device_id) × (ev.device_id ≡ sess.device_id)
  pub company :
      (value_of context "management_company_id" ≡ sess.management_company_id)
      × (ev.management_company_id ≡ sess.management_company_id)
  pub taken : e.publish_open_relay sess.device_id cmd ≡ true

-- A call that is answered with an error has published nothing, or tried and failed.
abbrev pub Accounts : Env → String → Result OpenResult × List Effect → Type 0
Accounts e call_id (ok r, effects) = Correlated e call_id r effects
Accounts e call_id (err _, effects) =
    (effects ≡ [])
    ⊎ ((d : String) × (cmd : OpenRelayCommand) × (effects ≡ publish d cmd ∷ [])
        × (e.publish_open_relay d cmd ≡ false))

open_session-Accounts :
    (e : Env) (call_id : String) (sess : CallSession)
    → e.lookup call_id ≡ some (some sess)
    → Accounts e call_id (open_session e sess)
unfolding open_session
open_session-Accounts e call_id sess found =
    let cmd = command e ("resident:" ++ sess.apartment_id) in
    elim (Bool-cases (e.publish_open_relay sess.device_id cmd)) [
      | inl sent ↦
          rw (sent, open_session)
            (record {
              sess = sess;
              found = found;
              cmd = cmd;
              context = _;
              ev = _;
              effects_lem = refl;
              command_id = refl;
              event_id = refl;
              actor = refl;
              event_actor = refl;
              event_type = refl;
              call = (refl, refl);
              apartment = (refl, refl);
              point = (refl, refl);
              device = (refl, refl);
              company = (refl, refl);
              taken = sent;
            })
      | inr failed ↦ rw (failed, open_session) (inr (sess.device_id, cmd, refl, failed))
    ]

-- Open, whatever its services answer, succeeds with one command that was taken, for the device of
-- the call's session, with one context that is saved under the id that is returned, and with one
-- event; command and event carry this id and the resident of the session's apartment, and context
-- and event both name the call, apartment, point, device and company of the session. Or it fails
-- with no command, or one that was not taken.
pub open_door-Accounts : (e : Env) (call_id : String) → Accounts e call_id (open_door e call_id)
unfolding open_door check_session
open_door-Accounts e call_id = elim (Option-cases (e.lookup call_id)) [
  | inl failed ↦ rw (failed, open_door) (inl refl)
  | inr (none, missing) ↦ rw (missing, open_door) (inl refl)
  | inr (some sess, found) ↦
      rw (found, open_door)
        (elim (Bool-cases (e.allow_apartment sess.apartment_id)) [
          | inl member ↦ elim (Bool-cases (str_eq sess.state "accepted")) [
            | inl accepted ↦ elim (Option-cases (e.is_online sess.device_id)) [
              | inl lost ↦ rw (member, accepted, lost, check_session) (inl refl)
              | inr (false, off) ↦ rw (member, accepted, off, check_session) (inl refl)
              | inr (true, on) ↦
                  rw (member, accepted, on, check_session)
                    (open_session-Accounts e call_id sess found)
            ]
            | inr other ↦ rw (member, other, check_session) (inl refl)
          ]
          | inr other ↦ rw (other, check_session) (inl refl)
        ])
]
