-- ===== src/Backend/Devices/Correlation.antt =====
-- What a device's acknowledgement is recorded with, commands.go and status_consumer.go of
-- backend/internal/devices, and when a device is online, presence.go.
use qr_domofon.Base.{
  String, ◌≡◌, ◌≢◌, refl, Bool, true, false, Option, some, List, [], ◌∷◌, ◌∙◌, arith, str_eq,
  eq_iff, if◌then◌else◌, Bool-cases, Option-cases, inl, inr, ◌⊎◌, sym, ap,
}
use Prim.Native.Char.{code}
use Prim.Native.String.{◌++◌}
use text.Mathlib.TextLemmas.{append_cancel_left, cons-append, head-eq_of_cons-eq}
use mathlib.Core.Path.{subst}
use mathlib.Core.Bool.{false≢true}
use qr_domofon.Backend.Redis.{Redis, Answers, held_by}
use qr_domofon.Backend.Audit.{Event, text as text_value, flag, put}
use qr_domofon.Backend.Devices.{
  value_of, Env, AckMessage, record_event, ack_event, with_context, presence_key,
  command_context_key, command_context_ttl, mark, is_online, save_context, get_context,
  handle_heartbeat, handle_ack, dispatch, handle, device_id_from_topic,
}

-- What a context has under a key: the value of its first entry there, or nothing.
abbrev pub Finds : List (String × String) → String → String → Type 0
Finds [] key value = value ≡ ""
Finds ((k, v) ∷ rest) key value = ((k ≡ key) × (value ≡ v)) ⊎ ((k ≢ key) × Finds rest key value)

value_of-Finds : (meta : List (String × String)) (key : String) → Finds meta key (value_of meta key)
value_of-Finds [] key = refl
value_of-Finds ((k, v) ∷ rest) key = elim (Bool-cases (str_eq k key)) [
  | inl same ↦ inl ((eq_iff k key).0 same, rw same refl)
  | inr other ↦
      inr ((λ h. false≢true (sym other ∙ (eq_iff k key).1 h)), rw other (value_of-Finds rest key))
]

-- What an acknowledgement of a device is recorded as, with the context of its command.
pub record Correlates (device_id : String) (ack : AckMessage) (meta : List (String × String))
    (ev : Event) : Type 0 where
  pub rejected : ack.result ≡ "rejected" → ev.event_type ≡ "command_rejected"
  pub acknowledged : ack.result ≢ "rejected" → ev.event_type ≡ "command_ack"
  pub actor : ev.actor ≡ "device:" ++ device_id
  pub request_id : ev.request_id ≡ ack.request_id
  pub call_id : Finds meta "call_id" ev.call_id
  pub apartment_id : Finds meta "apartment_id" ev.apartment_id
  pub access_point_id : Finds meta "access_point_id" ev.access_point_id
  pub management_company_id : Finds meta "management_company_id" ev.management_company_id
  pub device :
      (Finds meta "device_id" "" × (ev.device_id ≡ device_id))
      ⊎ ((ev.device_id ≢ "") × Finds meta "device_id" ev.device_id)
  pub plain :
      ack.reason ≡ ""
      → ev.metadata ≡ ("result", text_value ack.result) ∷ ("duplicate", flag ack.duplicate) ∷ []
  pub explained :
      ack.reason ≢ ""
      → ev.metadata
        ≡ ("result", text_value ack.result)
          ∷ ("duplicate", flag ack.duplicate)
          ∷ ("reason", text_value ack.reason)
          ∷ []

if-same : {A : Type 0} (a b : String) (x y : A) → a ≡ b → (if str_eq a b then x else y) ≡ x
if-same a b x y h = rw ((eq_iff a b).1 h) refl

if-other : {A : Type 0} (a b : String) (x y : A) → a ≢ b → (if str_eq a b then x else y) ≡ y
if-other a b x y h = elim (Bool-cases (str_eq a b)) [
  | inl same ↦ absurd (h ((eq_iff a b).0 same))
  | inr other ↦ rw other refl
]

device_lem :
    (meta : List (String × String)) (device_id : String)
    → (let id =
          if str_eq (value_of meta "device_id") "" then device_id else value_of meta "device_id" in
        (Finds meta "device_id" "" × (id ≡ device_id)) ⊎ ((id ≢ "") × Finds meta "device_id" id))
device_lem meta device_id =
    let found = value_of-Finds meta "device_id" in
    elim (Bool-cases (str_eq (value_of meta "device_id") "")) [
      | inl empty ↦ inl (
        subst (Finds meta "device_id") ((eq_iff _ _).0 empty) found,
        if-same (value_of meta "device_id") "" _ _ ((eq_iff _ _).0 empty),
      )
      | inr named ↦
          let full : value_of meta "device_id" ≢ "" =
            λ h. false≢true (sym named ∙ (eq_iff _ _).1 h) in
          rw named (inr (full, found))
    ]

with_context-Correlates :
    (device_id : String) (ack : AckMessage) (meta : List (String × String))
    → Correlates device_id ack meta (with_context (ack_event device_id ack) meta)
unfolding put
with_context-Correlates device_id ack meta = record {
  rejected = λ h. if-same ack.result "rejected" _ _ h;
  acknowledged = λ h. if-other ack.result "rejected" _ _ h;
  actor = refl;
  request_id = refl;
  call_id = value_of-Finds meta "call_id";
  apartment_id = value_of-Finds meta "apartment_id";
  access_point_id = value_of-Finds meta "access_point_id";
  management_company_id = value_of-Finds meta "management_company_id";
  device = device_lem meta device_id;
  plain = λ h. if-same ack.reason "" _ _ h;
  explained = λ h. if-other ack.reason "" _ _ h;
}

-- The database after the messages of some topics, one after the other.
unfoldable pub handle_all : (r : Redis) → Env → r.Db → List (String × String) → r.Db
handle_all r e db [] = db
handle_all r e db ((topic, payload) ∷ rest) = handle_all r e (handle r e db topic payload).0 rest

keys_differ : (d id : String) → presence_key d ≡ command_context_key id → ⊥
keys_differ d id same =
    let heads =
      head-eq_of_cons-eq
        (sym (cons-append "d" "evice:online:" d) ∙ same ∙ cons-append "c" "md:" id) in
    let codes = ap code heads in ground arith

presence_key-eq : (a b : String) → str_eq (presence_key a) (presence_key b) ≡ str_eq a b
presence_key-eq a b = elim (Bool-cases (str_eq a b)) [
  | inl same ↦ rw same ((eq_iff _ _).1 (ap presence_key ((eq_iff a b).0 same)))
  | inr other ↦ elim (Bool-cases (str_eq (presence_key a) (presence_key b))) [
    | inl keys ↦
        let equal = append_cancel_left "device:online:" a b ((eq_iff _ _).0 keys) in
        absurd (false≢true (sym other ∙ (eq_iff a b).1 equal))
    | inr keys ↦ keys ∙ sym other
  ]
]

held_by-if :
    (b : Bool) (v : String) (o : Option String)
    → some (held_by (if b then some v else o)) ≡ (if b then some true else some (held_by o))
held_by-if true v o = refl
held_by-if false v o = refl

module _ (r : Redis) (a : Answers r) where
  open r use {Db}

  keys_apart : (d id : String) → str_eq (presence_key d) (command_context_key id) ≡ false
  keys_apart d id = elim (Bool-cases (str_eq (presence_key d) (command_context_key id))) [
    | inl same ↦ absurd (keys_differ d id ((eq_iff _ _).0 same))
    | inr other ↦ other
  ]

  mark-keeps :
      (db : Db) (d id : String)
      → a.held (mark r db d).1 (command_context_key id) ≡ a.held db (command_context_key id)
  unfolding mark
  mark-keeps db d id = rw (a.held-set, keys_apart d id) refl

  dispatch-keeps :
      (e : Env) (db : Db) (d type payload id : String)
      → a.held (dispatch r e db d type payload).0 (command_context_key id)
        ≡ a.held db (command_context_key id)
  unfolding dispatch handle_heartbeat
  dispatch-keeps e db d type payload id =
      let kept = mark-keeps db d id in
      elim (Bool-cases (str_eq type "")) [
        | inl is_it ↦ rw is_it kept
        | inr other_one ↦ elim (Bool-cases (str_eq type "heartbeat")) [
          | inl is_it ↦ rw (other_one, is_it) kept
          | inr not_heartbeat ↦ elim (Bool-cases (str_eq type "command_ack")) [
            | inl is_it ↦ rw (other_one, not_heartbeat, is_it) refl
            | inr not_ack ↦ elim (Bool-cases (str_eq type "event")) [
              | inl is_it ↦ rw (other_one, not_heartbeat, not_ack, is_it) refl
              | inr other ↦ rw (other_one, not_heartbeat, not_ack, other) refl
            ]
          ]
        ]
      ]

  handle-keeps :
      (e : Env) (db : Db) (topic payload id : String)
      → a.held (handle r e db topic payload).0 (command_context_key id)
        ≡ a.held db (command_context_key id)
  unfolding handle
  handle-keeps e db topic payload id = elim (Bool-cases (str_eq (device_id_from_topic topic) "")) [
    | inl is_it ↦ rw is_it refl
    | inr other_one ↦ elim (Option-cases (e.message_type payload)) [
      | inl unread ↦ rw (other_one, unread) refl
      | inr (type, read) ↦
          rw (other_one, read) (dispatch-keeps e db (device_id_from_topic topic) type payload id)
    ]
  ]

  handle_all-keeps :
      (e : Env) (db : Db) (messages : List (String × String)) (id : String)
      → a.held (handle_all r e db messages) (command_context_key id)
        ≡ a.held db (command_context_key id)
  unfolding handle_all
  handle_all-keeps e db [] id = refl
  handle_all-keeps e db ((topic, payload) ∷ rest) id =
      handle_all-keeps e (handle r e db topic payload).0 rest id
      ∙ handle-keeps e db topic payload id

  handle_ack_lem :
      (e : Env) (db : Db) (meta : List (String × String)) (messages : List (String × String))
      (device_id payload : String) (ack : AckMessage)
      → e.decode_context (e.encode_context meta) ≡ some meta
      → e.read_ack payload ≡ some ack
      → handle_ack r e
          (handle_all r e (save_context r e db ack.request_id meta).1 messages)
          device_id
          payload
        ≡ record_event (with_context (ack_event device_id ack) meta) ∷ []
  unfolding handle_ack get_context save_context
  handle_ack_lem e db meta messages device_id payload ack decoded read =
      let key = command_context_key ack.request_id in
      let saved = (save_context r e db ack.request_id meta).1 in
      let there = a.get_lem (handle_all r e saved messages) key in
      let kept = handle_all-keeps e saved messages ack.request_id in
      let written = a.held-set db key (e.encode_context meta) key command_context_ttl in
      let same = (eq_iff key key).1 refl in
      let body : a.held saved key ≡ some (e.encode_context meta) = written ∙ rw same refl in
      let got = there ∙ ap some (kept ∙ body) in
      rw (handle_ack, read, got, get_context, decoded) refl

  -- Over a Redis that answers: once the context of a command is saved under the id of its
  -- request, and whatever messages of devices are handled in between, an acknowledgement with
  -- that id is recorded as one event, when the context is read back from what was written. The
  -- event says whether the command was rejected, and with which reason; it is of the device of
  -- the topic and has the request's id; and it has the call, apartment, point and company of the
  -- context, and its device where it has one.
  pub save_context-handle_ack :
      (e : Env) (db : Db) (meta : List (String × String)) (messages : List (String × String))
      (device_id payload : String) (ack : AckMessage)
      → e.decode_context (e.encode_context meta) ≡ some meta
      → e.read_ack payload ≡ some ack
      → (ev : Event) × (handle_ack r e
            (handle_all r e (save_context r e db ack.request_id meta).1 messages)
            device_id
            payload
          ≡ record_event ev ∷ [])
        × Correlates device_id ack meta ev
  save_context-handle_ack e db meta messages device_id payload ack decoded read = (
    with_context (ack_event device_id ack) meta,
    handle_ack_lem e db meta messages device_id payload ack decoded read,
    with_context-Correlates device_id ack meta,
  )

  -- Over a Redis that answers: after a heartbeat of a device it is online, and whether another device is
  -- online is as before.
  pub heartbeat-online :
      (db : Db) (device_id other : String)
      → is_online r (handle_heartbeat r db device_id).0 other
        ≡ (if str_eq device_id other then some true else is_online r db other)
  unfolding is_online handle_heartbeat mark
  heartbeat-online db device_id other =
      rw (a.exists_lem, a.exists_lem, a.held-set, presence_key-eq device_id other)
        (held_by-if (str_eq device_id other) "1" (a.held db (presence_key other)))
