-- ===== src/Backend/Tests/Calls.antt =====
-- Runs of backend/internal/calls over a database that is a function.
use mathlib.Core.Path.{subst}
use mathlib.Core.Option.{some-injective}
use qr_domofon.Base.{
  All, String, ◌≡◌, ◌≢◌, refl, sym, ap, ◌∙◌, Bool, true, false, not, Option, none, some, List, [],
  ◌∷◌, eq_iff, str_eq, if◌then◌else◌, arith, Bool-cases, inl, inr,
}
use qr_domofon.Backend.Httpx.{ok, err}
use qr_domofon.Backend.Access as Access
use qr_domofon.Backend.Access.Gates.{published}
use qr_domofon.Backend.Access.{open_door, internal_error}
use qr_domofon.Backend.Redis.{Redis, Answers, held_by, remove}
use qr_domofon.Backend.Calls.{
  Env, Property, ValidateInput, InitiateResult, found, not_found, initiate, accept, cancel,
  end_call, new_session,
}
use qr_domofon.Backend.Calls.Sessions.{
  Session, Codec, create, get_session, update, call_key, apartment_busy_key,
}
use qr_domofon.Backend.Calls.History.{
  Request, initiate_at, accept_as, RoundTrips, AcceptedIn, step, run,
}
use qr_domofon.Backend.Calls.Door.{lookup, door_needs_accept, with_sessions}
use qr_domofon.Backend.Calls.Life.{
  Encoded, busy, busy_error, initiate_excludes, initiate_rings, end_call_frees,
}

abbrev pub redis : Redis
redis = record {
  Db = String → Option String;
  set_nx = λ f k v _. (
    some (not (held_by (f k))),
    λ j. if held_by (f k) then f j else if str_eq k j then some v else f j,
  );
  set = λ f k v _. (true, λ j. if str_eq k j then some v else f j);
  get = λ f k. some (f k);
  del = λ f ks. (true, remove f ks);
  exists = λ f k. some (held_by (f k));
}

abbrev pub answers : Answers redis
answers = record {
  held = λ f k. f k;
  get_lem = λ f k. refl;
  set_lem = λ f k v ttl. refl;
  held-set = λ f k v j ttl. refl;
  set_nx_lem = λ f k v ttl. refl;
  held-set_nx = λ f k v j ttl. refl;
  del_lem = λ f ks. refl;
  held-del = λ f ks j. refl;
  exists_lem = λ f k. refl;
}

abbrev property : Property
property = record {
  access_point_id = "p1";
  access_point_label = "entrance";
  apartment_id = "a1";
  device_id = "d1";
  management_company_id = "m1";
}

abbrev ringing : Session
ringing = new_session "c1" property

abbrev accepted : Session
accepted = record ringing { state = "accepted" }

abbrev all_same : List (String × String) → Bool
all_same [] = true
all_same ((a, b) ∷ ps) = if str_eq a b then all_same ps else false

all_same_lem :
    (ps : List (String × String)) → all_same ps ≡ true → All (λ (p : String × String). p.0 ≡ p.1) ps
all_same_lem [] h = tt
all_same_lem ((a, b) ∷ ps) h = elim (Bool-cases (str_eq a b)) [
  | inl same ↦ ((eq_iff a b).0 same, all_same_lem ps (ground arith))
  | inr other ↦ absurd (ground arith)
]

abbrev fields : Session → Session → List (String × String)
fields s t =
    ((s.call_id, t.call_id)
      ∷ (s.apartment_id, t.apartment_id)
      ∷ (s.access_point_id, t.access_point_id)
      ∷ (s.access_point_label, t.access_point_label)
      ∷ (s.device_id, t.device_id)
      ∷ (s.management_company_id, t.management_company_id)
      ∷ (s.state, t.state)
      ∷ [])

abbrev same_session : Session → Session → Bool
same_session s t = all_same (fields s t)

same_session_lem : (s t : Session) → same_session s t ≡ true → s ≡ t
same_session_lem s t h =
    let (e₁, (e₂, (e₃, (e₄, (e₅, (e₆, (e₇, _))))))) = all_same_lem (fields s t) h in
    λ i. record {
      call_id = e₁ i;
      apartment_id = e₂ i;
      access_point_id = e₃ i;
      access_point_label = e₄ i;
      device_id = e₅ i;
      management_company_id = e₆ i;
      state = e₇ i;
    }

none≢some : (b : String) → ◌≢◌ {A = Option String} none (some b)
none≢some b h = ground arith

-- The JSON of the two sessions of a call.
abbrev json : Codec
json = record {
  marshal = λ s.
      if same_session s ringing
      then some "ringing"
      else if same_session s accepted
      then some "accepted"
      else none;
  unmarshal = λ b.
      if str_eq b "ringing"
      then some ringing
      else if str_eq b "accepted"
      then some accepted
      else none;
}

decoded :
    (s t : Session) (name body : String)
    → json.marshal s ≡ some body
    → json.marshal s ≡ some name
    → json.unmarshal name ≡ some t
    → t ≡ s
    → json.unmarshal body ≡ some s
decoded s t name body h m u e =
    subst (λ b. json.unmarshal b ≡ some s) (some-injective name body (sym m ∙ h))
      (u ∙ ap (λ x. some x) e)

json-RoundTrips : RoundTrips json
json-RoundTrips s body h = elim (Bool-cases (same_session s ringing)) [
  | inl same ↦
      decoded s ringing "ringing" body h (rw same refl) refl (sym (same_session_lem s ringing same))
  | inr other ↦ elim (Bool-cases (same_session s accepted)) [
    | inl same ↦
        decoded s accepted "accepted" body h (rw (other, same) refl) refl
          (sym (same_session_lem s accepted same))
    | inr other' ↦ absurd (none≢some body (sym (rw (other, other') refl) ∙ h))
  ]
]

-- A member of a1, whose calls start as c1.
abbrev env : Env
env = record {
  verify_qr = λ input. str_eq input.sig "good";
  resolve_by_public_id = λ aid. if str_eq aid "P1" then found property else not_found;
  is_online = λ d. some true;
  mint_visitor = λ room who. some "visitor";
  mint_resident = λ room who. some "resident";
  url = "wss://media";
  allow_apartment = λ id. str_eq id "a1";
  new_call_id = "c1";
}

abbrev mute : Env
mute = record env { mint_visitor = λ room who. none }

abbrev good : ValidateInput
good = record { aid = "P1"; v = "1"; kid = "k1"; sig = "good" }

abbrev empty : String → Option String
empty k = none

apart : call_key "c1" ≢ apartment_busy_key "a1"
apart e = ground (arith, eq_iff (call_key "c1") (apartment_busy_key "a1"))

encoded : Encoded json ringing
encoded = record { body = "ringing"; marshal_lem = refl; unmarshal_lem = refl }

initiate_rings_example :
    (let (answer, db', _) = initiate redis json env empty good in
      ((res : InitiateResult) × (answer ≡ ok res)
        × (res.call_id ≡ "c1")
        × (res.visitor_token ≡ "visitor"))
      × (get_session redis json db' "c1" ≡ some (some ringing))
      × (busy redis json answers db' "a1" ≡ some "c1"))
initiate_rings_example =
    initiate_rings redis json answers env empty good property "visitor" refl refl refl encoded apart
      refl

abbrev rung : String → Option String
rung = (initiate redis json env empty good).1

initiate_excludes_example :
    (let (answer, db'', effects) = initiate redis json mute rung good in
      (answer ≡ err busy_error) × (effects ≡ []) × ((key : String) → db'' key ≡ rung key))
unfolding initiate create
initiate_excludes_example =
    initiate_excludes redis json answers env mute empty good good property property
      (record {
        call_id = "c1";
        room = "c1";
        live_kit_url = "wss://media";
        visitor_token = "visitor";
        device_status = "online";
      })
      (refl, refl) (refl, refl) refl encoded apart refl

end_call_frees_example :
    (let (answer, db', _) = end_call redis json rung "c1" in
      (answer ≡ none)
      × (busy redis json answers db' "a1" ≡ none)
      × (get_session redis json db' "c1" ≡ some none))
    × (let (answer, db', _) = cancel redis json rung "c1" in
        (answer ≡ none)
        × (busy redis json answers db' "a1" ≡ none)
        × (get_session redis json db' "c1" ≡ some none))
unfolding initiate get_session create
end_call_frees_example = end_call_frees redis json answers rung "c1" ringing refl

abbrev resident : Access.Env
resident = record {
  lookup = λ id. none;
  allow_apartment = λ id. str_eq id "a1";
  is_online = λ d. some true;
  publish_open_relay = λ _ _. true;
  resolve_granted_point = λ u p. some none;
  list_granted_points = λ u. some [];
  new_request_id = "r1";
  now_formatted = "2026-01-01T00:00:00Z";
}

abbrev requests : List Request
requests = initiate_at env good ∷ accept_as env "c1" ∷ []

cons_nil : {A : Type 0} {x : A} {xs : List A} → x ∷ xs ≡ [] → ⊥
cons_nil h = ground arith

opens : ¬ (
    published (open_door (with_sessions redis json resident (run redis json requests empty)) "c1").1
    ≡ [])
unfolding run step initiate create accept open_door lookup get_session update
opens h = cons_nil h

door_needs_accept_example :
    (sess : Session) × (get_session redis json (run redis json requests empty) "c1"
      ≡ some (some sess))
    × (resident.allow_apartment sess.apartment_id ≡ true)
    × AcceptedIn redis json requests empty "c1" sess.apartment_id
door_needs_accept_example =
    door_needs_accept redis json answers json-RoundTrips requests empty resident "c1" (refl, tt)
      (λ key. refl) opens
