-- ===== src/Backend/Calls/History.antt =====
-- Histories of the calls of backend/internal/calls.
pub mod Kept
pub mod Teardown
pub mod Requests
use text.Mathlib.TextLemmas.{append_cancel_left}
use mathlib.Core.Path.{subst}
use qr_domofon.Base.{
  ℕ, String, ◌≡◌, refl, sym, ap, ◌∙◌, Bool, true, false, Option, none, some, List, [], ◌∷◌, ◌⊎◌,
  inl, inr, arith, str_eq, eq_iff, Bool-cases, Option-cases,
}
use qr_domofon.Backend.Httpx.{ok}
use qr_domofon.Backend.Redis.{Redis, Answers, held_by, remove}
use qr_domofon.Backend.Calls.Sessions.{
  Session, Codec, create, store_new, get_session, update, delete, call_key, apartment_busy_key,
  call_ttl,
}
use qr_domofon.Backend.Calls.{
  AcceptResult, Env, Property, ValidateInput, initiate, ring, start_call, accept, accept_session,
  mark_accepted, cancel, end_call, teardown, remove_session, new_session, found, not_found, failed,
}

-- One request, by its user's answers, or the expiry of keys.
pub data Request : Type 0 where
  initiate_at : Env → ValidateInput → Request
  accept_as : Env → String → Request
  cancel_of end_of : String → Request
  expire : List String → Request

-- A session comes back from its JSON.
abbrev pub RoundTrips : Codec → Type 0
RoundTrips json =
    (s : Session) (body : String) → json.marshal s ≡ some body → json.unmarshal body ≡ some s

-- The ids that the server makes are not the JSON of a session.
abbrev pub FreshIds : Codec → List Request → Type 0
FreshIds json [] = Unit
FreshIds json (initiate_at e _ ∷ qs) = (json.unmarshal e.new_call_id ≡ none) × FreshIds json qs
FreshIds json (_ ∷ qs) = FreshIds json qs

module _ (r : Redis) (json : Codec) where
  open r use {Db}

  unfoldable pub step : Request → Db → Db
  step (initiate_at e input) db = (initiate r json e db input).1
  step (accept_as e call_id) db = (accept r json e db call_id).1
  step (cancel_of call_id) db = (cancel r json db call_id).1
  step (end_of call_id) db = (end_call r json db call_id).1
  step (expire ks) db = (r.del db ks).1

  unfoldable pub run : List Request → Db → Db
  run [] db = db
  run (q ∷ qs) db = run qs (step q db)

  -- A request that finds the call in Redis, with a session of the apartment, whose user is a member
  -- there, and that is answered with success.
  abbrev pub Accepts : Request → Db → String → String → Type 0
  Accepts (accept_as e c) db call_id apartment_id =
      (c ≡ call_id)
      × (e.allow_apartment apartment_id ≡ true)
      × ((sess : Session) × (get_session r json db call_id ≡ some (some sess))
          × (sess.apartment_id ≡ apartment_id))
      × ((res : AcceptResult) × ((accept r json e db call_id).0 ≡ ok res))
  Accepts _ db call_id apartment_id = ⊥

  -- A cancellation or an end of the call that succeeds.
  abbrev pub Removes : Request → Db → String → Type 0
  Removes (cancel_of c) db call_id = (c ≡ call_id) × ((cancel r json db c).0 ≡ none)
  Removes (end_of c) db call_id = (c ≡ call_id) × ((end_call r json db c).0 ≡ none)
  Removes _ db call_id = ⊥

  -- No request of a history removes the call.
  abbrev pub Stands : List Request → Db → String → Type 0
  Stands [] db call_id = Unit
  Stands (q ∷ qs) db call_id = ¬ Removes q db call_id × Stands qs (step q db) call_id

  -- Some request of a history accepted the call, and none after it removed the call.
  abbrev pub AcceptedIn : List Request → Db → String → String → Type 0
  AcceptedIn [] db call_id apartment_id = ⊥
  AcceptedIn (q ∷ qs) db call_id apartment_id =
      (Accepts q db call_id apartment_id × Stands qs (step q db) call_id)
      ⊎ AcceptedIn qs (step q db) call_id apartment_id
