-- ===== src/Backend/Calls.antt =====
-- backend/internal/calls/service.go: the calls. The sessions are in Redis (Calls/Sessions); the services
-- around this one are a record of answers, `Env`, and what it does to them is the list of its calls
-- that have an effect, in their order.
pub mod Sessions
pub mod History
pub mod Life
pub mod Door
use Prim.Native.String.{◌++◌}
use qr_domofon.Base.{
  ℕ, String, Bool, true, false, not, Option, none, some, List, [], ◌∷◌, if◌then◌else◌,
}
use qr_domofon.Backend.Httpx.{
  ApiError, new_error, internal, invalid_qr, call_not_found, forbidden, call_in_progress, Result,
  ok, err,
}
use qr_domofon.Backend.Audit.{Event, Value, text, no_event}
use qr_domofon.Backend.Access.{internal_error, online_or_offline}
use qr_domofon.Backend.Redis.{Redis}
use Sessions.{Session, Codec, create, get_session, update, delete}

pub record Property : Type 0 where
  pub access_point_id : String
  pub access_point_label : String
  pub apartment_id : String
  pub device_id : String
  pub management_company_id : String

pub data Resolved : Type 0 where
  found : Property → Resolved
  not_found failed : Resolved

pub record ValidateInput : Type 0 where
  pub aid : String
  pub v : String
  pub kid : String
  pub sig : String

pub record InitiateResult : Type 0 where
  pub call_id : String
  pub room : String
  pub live_kit_url : String
  pub visitor_token : String
  pub device_status : String

pub record AcceptResult : Type 0 where
  pub room : String
  pub live_kit_url : String
  pub resident_token : String

pub record CallIncomingPayload : Type 0 where
  pub call_id : String
  pub access_point_label : String
  pub apartment_id : String

-- The calls to the media server, the notifier and the recorder; a failure of them is only logged.
pub data Effect : Type 0 where
  create_room close_room : String → Effect
  call_incoming : String → CallIncomingPayload → Effect
  call_accepted call_cancelled : String → String → Effect
  record_event : Event → Effect

-- The answers of the services around this one, for the user of one request, and its fresh id.
pub record Env : Type 0 where
  pub verify_qr : ValidateInput → Bool
  pub resolve_by_public_id : String → Resolved
  pub is_online : String → Option Bool
  pub mint_visitor : String → String → Option String
  pub mint_resident : String → String → Option String
  pub url : String
  pub allow_apartment : String → Bool
  pub new_call_id : String

abbrev status_string : Bool → String
status_string true = "online"
status_string false = "offline"

abbrev session_event : String → String → Session → List (String × Value) → Event
session_event event_type call_id sess metadata = record no_event {
  event_type = event_type;
  apartment_id = sess.apartment_id;
  access_point_id = sess.access_point_id;
  device_id = sess.device_id;
  call_id = call_id;
  management_company_id = sess.management_company_id;
  metadata = metadata;
}

abbrev pub new_session : String → Property → Session
new_session call_id prop = record {
  call_id = call_id;
  apartment_id = prop.apartment_id;
  access_point_id = prop.access_point_id;
  access_point_label = prop.access_point_label;
  device_id = prop.device_id;
  management_company_id = prop.management_company_id;
  state = "ringing";
}

module _ (r : Redis) (json : Codec) where
  open r use {Db}

  -- Initiate, once the session is stored.
  start_call : Env → Db → Session → Result InitiateResult × Db × List Effect
  start_call e db sess = elim (e.mint_visitor sess.call_id ("visitor:" ++ sess.apartment_id)) [
    | none ↦ (err internal_error, (delete r json db sess).1, create_room sess.call_id ∷ [])
    | some token ↦
        let status = status_string (online_or_offline (e.is_online sess.device_id)) in
        (
          ok (record {
            call_id = sess.call_id;
            room = sess.call_id;
            live_kit_url = e.url;
            visitor_token = token;
            device_status = status;
          }),
          db,
          create_room sess.call_id
              ∷ call_incoming sess.apartment_id (record {
                call_id = sess.call_id;
                access_point_label = sess.access_point_label;
                apartment_id = sess.apartment_id;
              })
              ∷ record_event (
                  session_event "call_initiated" sess.call_id sess
                    (("device_status", text status) ∷ []))
              ∷ [],
        )
  ]

  -- Initiate at an access point.
  ring : Env → Db → Property → Result InitiateResult × Db × List Effect
  unfolding start_call
  ring e db prop =
      let sess = new_session e.new_call_id prop in
      let (created, db') = create r json db sess in
      elim created [
        | none ↦ (err internal_error, db', [])
        | some false ↦
            (err (new_error call_in_progress "Apartment is busy with another call"), db', [])
        | some true ↦ start_call e db' sess
      ]

  -- Initiate, from the access point of the QR code on.
  call_point : Env → Db → Resolved → Result InitiateResult × Db × List Effect
  unfolding ring
  call_point e db not_found = (err (new_error invalid_qr "QR is invalid"), db, [])
  call_point e db failed = (err internal_error, db, [])
  call_point e db (found prop) = ring e db prop

  unfoldable pub initiate : Env → Db → ValidateInput → Result InitiateResult × Db × List Effect
  unfolding call_point
  initiate e db input =
      if not (e.verify_qr input)
      then (err (new_error invalid_qr "QR is invalid"), db, [])
      else call_point e db (e.resolve_by_public_id input.aid)

  -- Accept, once the session is found and the resident's token is made.
  mark_accepted : Env → Db → String → Session → String → Result AcceptResult × Db × List Effect
  mark_accepted e db call_id sess token =
      let sess' : Session = record sess { state = "accepted" } in
      let (updated, db') = update r json db sess' in
      if not updated then (err internal_error, db', []) else (
        ok (record { room = call_id; live_kit_url = e.url; resident_token = token }),
        db',
        call_accepted sess'.apartment_id call_id
            ∷ record_event (record (session_event "call_accepted" call_id sess' []) {
              actor = "resident:" ++ sess'.apartment_id;
            })
            ∷ [],
      )

  accept_session : Env → Db → String → Session → Result AcceptResult × Db × List Effect
  unfolding mark_accepted
  accept_session e db call_id sess =
      if not (e.allow_apartment sess.apartment_id)
      then (err (new_error forbidden "You are not a member of this apartment"), db, [])
      else elim (e.mint_resident call_id ("resident:" ++ sess.apartment_id)) [
        | none ↦ (err internal_error, db, [])
        | some token ↦ mark_accepted e db call_id sess token
      ]

  unfoldable pub accept : Env → Db → String → Result AcceptResult × Db × List Effect
  unfolding accept_session
  accept e db call_id = elim (get_session r json db call_id) [
    | none ↦ (err internal_error, db, [])
    | some none ↦ (err (new_error call_not_found "Call not found or expired"), db, [])
    | some (some sess) ↦ accept_session e db call_id sess
  ]

  -- The part of `teardown` after the session was found; a failed deletion is only logged.
  remove_session : Db → String → String → Bool → Session → Db × List Effect
  remove_session db call_id event_type notify_cancelled sess =
      let rest =
        close_room call_id ∷ record_event (session_event event_type call_id sess []) ∷ [] in
      (
        (delete r json db sess).1,
        if notify_cancelled then call_cancelled sess.apartment_id call_id ∷ rest else rest,
      )

  pub teardown : Db → String → String → Bool → Option ApiError × Db × List Effect
  unfolding remove_session
  teardown db call_id event_type notify_cancelled = elim (get_session r json db call_id) [
    | none ↦ (some internal_error, db, [])
    | some none ↦ (some (new_error call_not_found "Call not found or expired"), db, [])
    | some (some sess) ↦
        let (db', effects) = remove_session db call_id event_type notify_cancelled sess in
        (none, db', effects)
  ]

  unfoldable pub cancel : Db → String → Option ApiError × Db × List Effect
  unfolding teardown
  cancel db call_id = teardown db call_id "call_cancelled" true

  unfoldable pub end_call : Db → String → Option ApiError × Db × List Effect
  unfolding teardown
  end_call db call_id = teardown db call_id "call_ended" false
