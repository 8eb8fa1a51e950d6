-- ===== src/Backend/Devices.antt =====
-- backend/internal/devices: the presence of devices and the contexts of commands in Redis (presence.go,
-- commands.go), and what the server makes of a message of a device (status_consumer.go). The bodies of
-- messages are read by encoding/json; a message whose body is not of its kind is `none`.
pub mod Correlation
use Prim.Native.Char.{Char, code}
use Prim.Native.String.{◌++◌}
use qr_domofon.Base.{
  ℕ, ◌*◌, String, Bool, true, false, not, Option, none, some, List, [], ◌∷◌, str_eq, ◌==◌,
  if◌then◌else◌,
}
use Prim.Native.String as S
use qr_domofon.Base.Time.{second}
use qr_domofon.Backend.Access.{OpenRelayCommand}
use qr_domofon.Backend.Audit.{Event, Value, no_event, text, flag, put}
use qr_domofon.Backend.Redis.{Redis}

abbrev pub presence_ttl : ℕ
presence_ttl = 90 * second

abbrev pub command_context_ttl : ℕ
command_context_ttl = 120 * second

abbrev pub presence_key : String → String
presence_key device_id = "device:online:" ++ device_id

abbrev pub command_context_key : String → String
command_context_key request_id = "cmd:" ++ request_id

abbrev pub command_topic : String → String
command_topic device_id = "devices/" ++ device_id ++ "/commands"

pub record OpenRelayPayload : Type 0 where
  pub cmd : String
  pub command : OpenRelayCommand

-- Commander.PublishOpenRelay: the topic and the payload that it publishes.
unfoldable pub publish_open_relay : String → OpenRelayCommand → String × OpenRelayPayload
publish_open_relay device_id p =
    (command_topic device_id, record { cmd = "open_relay"; command = p })

pub record AckMessage : Type 0 where
  pub request_id : String
  pub result : String
  pub reason : String
  pub duplicate : Bool

pub record EventMessage : Type 0 where
  pub event : String
  pub timestamp : String

pub record DeviceContext : Type 0 where
  pub access_point_id : String
  pub apartment_id : String
  pub management_company_id : String

-- The readings of JSON, contexts to and from JSON, and the answer of the registry. Whether the registry
-- takes an update of last_seen_at is logged only.
pub record Env : Type 0 where
  pub message_type : String → Option String
  pub read_ack : String → Option AckMessage
  pub read_event : String → Option EventMessage
  pub context_of : String → Option (Option DeviceContext)
  pub encode_context : List (String × String) → String
  pub decode_context : String → Option (List (String × String))

pub data Effect : Type 0 where
  update_last_seen : String → Effect
  record_event : Event → Effect

-- `meta[key]`, with "" for a missing key.
abbrev pub value_of : List (String × String) → String → String
value_of [] key = ""
value_of ((k, v) ∷ rest) key = if str_eq k key then v else value_of rest key

-- `strings.Split(topic, "/")`.
unfoldable pub split_slash : String → List String
split_slash S.[] = "" ∷ []
split_slash (S.◌∷◌ c s) =
    let parts = split_slash s in
    if code c == b'/'
    then "" ∷ parts
    else elim parts [ [] ↦ (S.◌∷◌ c "") ∷ [] | p ∷ ps ↦ (S.◌∷◌ c p) ∷ ps ]

-- The device of the parts of a topic, or "".
abbrev device_of_parts : List String → String
device_of_parts (root ∷ device ∷ kind ∷ _) =
    if not (str_eq root "devices") then "" else if str_eq kind "status" then device else ""
device_of_parts _ = ""

unfoldable pub device_id_from_topic : String → String
unfolding split_slash
device_id_from_topic topic = device_of_parts (split_slash topic)

-- The event of an acknowledgement, before its context.
abbrev pub ack_event : String → AckMessage → Event
ack_event device_id ack =
    let meta = ("result", text ack.result) ∷ ("duplicate", flag ack.duplicate) ∷ [] in
    record no_event {
      event_type = if str_eq ack.result "rejected" then "command_rejected" else "command_ack";
      actor = "device:" ++ device_id;
      device_id = device_id;
      request_id = ack.request_id;
      metadata = if str_eq ack.reason "" then meta else put meta "reason" (text ack.reason);
    }

-- The event, with the context of the command.
abbrev pub with_context : Event → List (String × String) → Event
with_context ev meta = record ev {
  call_id = value_of meta "call_id";
  apartment_id = value_of meta "apartment_id";
  access_point_id = value_of meta "access_point_id";
  device_id =
      if str_eq (value_of meta "device_id") "" then ev.device_id else value_of meta "device_id";
  management_company_id = value_of meta "management_company_id";
}

-- The event of a device, with what the registry knows of it.
abbrev device_event : Env → String → EventMessage → Event
device_event e device_id evt =
    let ev : Event = record no_event {
      event_type = evt.event;
      actor = "device:" ++ device_id;
      device_id = device_id;
      metadata = ("timestamp", text evt.timestamp) ∷ [];
    } in
    elim (e.context_of device_id) [
      | none ↦ ev
      | some none ↦ ev
      | some (some dc) ↦ record ev {
        access_point_id = dc.access_point_id;
        apartment_id = dc.apartment_id;
        management_company_id = dc.management_company_id;
      }
    ]

unfoldable pub handle_event : Env → String → String → List Effect
handle_event e device_id payload = elim (e.read_event payload) [
  | none ↦ []
  | some evt ↦ if str_eq evt.event "" then [] else record_event (device_event e device_id evt) ∷ []
]

module _ (r : Redis) where
  open r use {Db, set, get, exists}

  unfoldable pub mark : Db → String → Bool × Db
  mark db device_id = set db (presence_key device_id) "1" presence_ttl

  unfoldable pub is_online : Db → String → Option Bool
  is_online db device_id = exists db (presence_key device_id)

  unfoldable pub save_context : Env → Db → String → List (String × String) → Bool × Db
  save_context e db request_id meta =
      set db (command_context_key request_id) (e.encode_context meta) command_context_ttl

  -- A body that is no context is an error.
  unfoldable pub get_context : Env → Db → String → Option (Option (List (String × String)))
  get_context e db request_id = elim (get db (command_context_key request_id)) [
    | none ↦ none
    | some none ↦ some none
    | some (some body) ↦ elim (e.decode_context body) [ none ↦ none | some meta ↦ some (some meta) ]
  ]

  unfoldable pub handle_heartbeat : Db → String → Db × List Effect
  unfolding mark
  handle_heartbeat db device_id = ((mark db device_id).1, update_last_seen device_id ∷ [])

  unfoldable pub handle_ack : Env → Db → String → String → List Effect
  unfolding get_context
  handle_ack e db device_id payload = elim (e.read_ack payload) [
    | none ↦ []
    | some ack ↦ elim (get_context e db ack.request_id) [
      | none ↦ record_event (ack_event device_id ack) ∷ []
      | some none ↦ record_event (ack_event device_id ack) ∷ []
      | some (some meta) ↦ record_event (with_context (ack_event device_id ack) meta) ∷ []
    ]
  ]

  -- Handle, for a device and the type of its message.
  unfoldable pub dispatch : Env → Db → String → String → String → Db × List Effect
  unfolding handle_heartbeat handle_ack handle_event
  dispatch e db device_id type payload =
      if str_eq type ""
      then handle_heartbeat db device_id
      else if str_eq type "heartbeat"
      then handle_heartbeat db device_id
      else if str_eq type "command_ack"
      then (db, handle_ack e db device_id payload)
      else if str_eq type "event"
      then (db, handle_event e device_id payload)
      else (db, [])

  unfoldable pub handle : Env → Db → String → String → Db × List Effect
  unfolding dispatch device_id_from_topic
  handle e db topic payload =
      let device_id = device_id_from_topic topic in
      if str_eq device_id "" then (db, []) else elim (e.message_type payload) [
        | none ↦ (db, [])
        | some type ↦ dispatch e db device_id type payload
      ]
