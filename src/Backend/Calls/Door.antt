-- ===== src/Backend/Calls/Door.antt =====
-- The door of a call: access.Service.Open over the sessions of calls, as cmd/server/main.go joins them.
use text.Mathlib.TextLemmas.{append_cancel_left}
use mathlib.Core.Path.{subst}
use mathlib.Core.Option.{some-injective}
use qr_domofon.Base.{
  ◌⊎◌, String, ◌≡◌, refl, sym, Option, none, some, List, [], inl, inr, arith, true,
}
use qr_domofon.Backend.Access.{open_door}
use qr_domofon.Backend.Access as Access
use qr_domofon.Backend.Access.Gates.{published, open_door-MayOpen}
use qr_domofon.Backend.Redis.{Redis, Answers}
use qr_domofon.Backend.Calls.Sessions.{Session, Codec, get_session}
use qr_domofon.Backend.Calls.History.{Request, RoundTrips, FreshIds, AcceptedIn, run}
use qr_domofon.Backend.Calls.History.Kept.{get_session-Kept}
use qr_domofon.Backend.Calls.History.Requests.{run_keeps}

-- callStoreAdapter.Lookup.
abbrev pub call_session : Session → Access.CallSession
call_session s = record {
  call_id = s.call_id;
  apartment_id = s.apartment_id;
  access_point_id = s.access_point_id;
  device_id = s.device_id;
  management_company_id = s.management_company_id;
  state = s.state;
}

abbrev pub map_session : Option (Option Session) → Option (Option Access.CallSession)
map_session none = none
map_session (some none) = some none
map_session (some (some s)) = some (some (call_session s))

map_session_lem :
    (o : Option (Option Session)) (view : Access.CallSession)
    → map_session o ≡ some (some view)
    → (s : Session) × (o ≡ some (some s)) × (call_session s ≡ view)
map_session_lem none view h = absurd (ground arith)
map_session_lem (some none) view h = absurd (ground arith)
map_session_lem (some (some s)) view h = (s, refl, some-injective _ _ (some-injective _ _ h))

module _ (r : Redis) (json : Codec) where
  open r use {Db}

  unfoldable pub lookup : Db → String → Option (Option Access.CallSession)
  lookup db call_id = map_session (get_session r json db call_id)

  -- A request to open, against the sessions of this moment.
  abbrev pub with_sessions : Access.Env → Db → Access.Env
  with_sessions e db = record e { lookup = lookup db }

module _ (r : Redis) (json : Codec) (a : Answers r) (trips : RoundTrips json) where
  open r use {Db}
  open a use {held}

  -- What a history leaves was accepted in it, when nothing was accepted before it.
  since_start : {A : Type 0} {stands : Type 0} → (⊥ × stands) ⊎ A → A
  since_start (inl (never, _)) = absurd never
  since_start (inr accepted) = accepted

  -- A session in the state "accepted" that a history leaves has been accepted in it.
  accepted_in :
      (qs : List Request) (db : Db) (call_id : String) (sess : Session)
      → FreshIds json qs
      → ((key : String) → held db key ≡ none)
      → get_session r json (run r json qs db) call_id ≡ some (some sess)
      → sess.state ≡ "accepted"
      → AcceptedIn r json qs db call_id sess.apartment_id
  accepted_in qs db call_id sess fresh empty there accepted =
      let k =
        get_session-Kept r json a trips (AcceptedIn r json qs db) (run r json qs db) call_id sess
          (run_keeps r json a trips (λ _ _. ⊥) (AcceptedIn r json qs db) qs db fresh
            (λ c ap known. since_start known) (λ key. rw (empty key) tt))
          there in
      subst (λ c. AcceptedIn r json qs db c sess.apartment_id)
        (sym (append_cancel_left "call:" call_id sess.call_id k.own_key)) (k.evidence accepted)

  -- After any history of requests to the calls and expiries of keys from an empty database that
  -- answers, a request to open publishes a command for a call only when some request of the
  -- history accepted that call: at its place in the history it found a session of the call, of
  -- the apartment that the door is opened for, its user was a member there, it was answered with
  -- success, and no request after it cancelled or ended the call with success. Who opens is a
  -- member as well. The ids that the server makes are not the JSON of a session, and sessions
  -- come back from their JSON.
  pub door_needs_accept :
      (qs : List Request) (db : Db) (e : Access.Env) (call_id : String)
      → FreshIds json qs
      → ((key : String) → held db key ≡ none)
      → ¬ (published (open_door (with_sessions r json e (run r json qs db)) call_id).1 ≡ [])
      → (sess : Session) × (get_session r json (run r json qs db) call_id ≡ some (some sess))
        × (e.allow_apartment sess.apartment_id ≡ true)
        × AcceptedIn r json qs db call_id sess.apartment_id
  unfolding lookup
  door_needs_accept qs db e call_id fresh empty opens =
      elim ((open_door-MayOpen (with_sessions r json e (run r json qs db)) call_id).0) [
        | inl stopped ↦ absurd (opens stopped)
        | inr (view, may, _) ↦
            let (sess, there, same) =
              map_session_lem (get_session r json (run r json qs db) call_id) view may.found in
            (
              sess,
              there,
              subst (λ v. e.allow_apartment v.apartment_id ≡ true) (sym same) may.member,
              accepted_in qs db call_id sess fresh empty there
                  (subst (λ v. v.state ≡ "accepted") (sym same) may.accepted),
            )
      ]
