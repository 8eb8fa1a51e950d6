-- ===== src/Backend/Calls/Life.antt =====
-- One apartment's calls in backend/internal/calls: at most one at a time, and the next one after its end.
use Prim.Native.String.{◌++◌}
use qr_domofon.Base.{
  String, ◌≡◌, ◌≢◌, refl, sym, ap, ◌∙◌, Bool, true, false, not, Option, none, some, [], inl, inr,
  arith, str_eq, eq_iff, Bool-cases, Option-cases,
}
use qr_domofon.Backend.Httpx.{ok, err, call_in_progress, new_error, ApiError}
use mathlib.Core.Path.{subst}
use qr_domofon.Backend.Access.{internal_error}
use qr_domofon.Backend.Redis.{Redis, Answers, held_by}
use qr_domofon.Backend.Calls.Sessions.{
  Session, Codec, create, store_new, get_session, delete, call_key, apartment_busy_key, call_ttl,
}
use qr_domofon.Backend.Calls.{
  Env, Property, ValidateInput, InitiateResult, initiate, ring, call_point, start_call, cancel,
  end_call, teardown, remove_session, new_session, found,
}

-- A session has a JSON, from which it comes back.
pub record Encoded (json : Codec) (s : Session) : Type 0 where
  pub body : String
  pub marshal_lem : json.marshal s ≡ some body
  pub unmarshal_lem : json.unmarshal body ≡ some s

abbrev pub busy_error : ApiError
busy_error = new_error call_in_progress "Apartment is busy with another call"

ok≢err : {A : Type 0} (x : A) (y : ApiError) → ok x ≡ err y → ⊥
ok≢err x y h = ground arith

abbrev same_key : (k : String) → str_eq k k ≡ true
same_key k = (eq_iff k k).1 refl

other_key : (k j : String) → k ≢ j → str_eq k j ≡ false
other_key k j apart = elim (Bool-cases (str_eq k j)) [
  | inl same ↦ absurd (apart ((eq_iff k j).0 same))
  | inr other ↦ other
]

module _ (r : Redis) (json : Codec) (a : Answers r) where
  open r use {Db}
  open a use {held}

  -- The call that an apartment is busy with.
  abbrev pub busy : Db → String → Option String
  busy db apartment_id = held db (apartment_busy_key apartment_id)

  create-busy :
      (db : Db) (s : Session) (c : String)
      → busy db s.apartment_id ≡ some c
      → ((create r json db s).0 ≡ some false)
        × ((key : String) → held (create r json db s).1 key ≡ held db key)
  unfolding create
  create-busy db s c h =
      let taken =
        a.set_nx_lem db (apartment_busy_key s.apartment_id) s.call_id call_ttl
        ∙ ap (λ o. some (not (held_by o))) h in
      (rw (taken, create) refl, λ key. rw (taken, create, a.held-set_nx, h) refl)

  -- The database after a successful creation.
  create_free :
      (db : Db) (s : Session)
      → Encoded json s
      → busy db s.apartment_id ≡ none
      → call_key s.call_id ≢ apartment_busy_key s.apartment_id
      → ((create r json db s).0 ≡ some true)
        × (busy (create r json db s).1 s.apartment_id ≡ some s.call_id)
        × (get_session r json (create r json db s).1 s.call_id ≡ some (some s))
  unfolding create store_new get_session
  create_free db s enc h apart =
      let body = enc.body in
      let e = enc.marshal_lem in
      let back = enc.unmarshal_lem in
      let taken : (r.set_nx db (apartment_busy_key s.apartment_id) s.call_id call_ttl).0
          ≡ some true =
        a.set_nx_lem db (apartment_busy_key s.apartment_id) s.call_id call_ttl
        ∙ ap (λ o. some (not (held_by o))) h in
      let created : create r json db s ≡ (
        some true,
        (r.set (r.set_nx db (apartment_busy_key s.apartment_id) s.call_id call_ttl).1
            (call_key s.call_id) body call_ttl).1,
      ) =
        rw (taken, create, e, store_new, a.set_lem) refl in
      rw created (
        refl,
        rw
            (
              a.held-set,
              other_key _ _ apart,
              a.held-set_nx,
              h,
              same_key (apartment_busy_key s.apartment_id),
            )
            refl,
        rw (a.get_lem, get_session, a.held-set, same_key (call_key s.call_id), back) refl,
      )

  -- A call that is refused because its apartment is busy changes nothing.
  ring-busy :
      (e : Env) (db : Db) (prop : Property) (c : String)
      → busy db prop.apartment_id ≡ some c
      → (let (answer, db', effects) = ring r json e db prop in
          (answer ≡ err busy_error)
          × (effects ≡ [])
          × ((key : String) → held db' key ≡ held db key))
  unfolding ring
  ring-busy e db prop c h =
      let (refused, same) = create-busy db (new_session e.new_call_id prop) c h in
      (rw (refused, ring) refl, rw (refused, ring) refl, λ key. rw (refused, ring) (same key))

  delete_lem :
      (db : Db) (s : Session)
      → (busy (delete r json db s).1 s.apartment_id ≡ none)
        × (get_session r json (delete r json db s).1 s.call_id ≡ some none)
  unfolding delete get_session
  delete_lem db s = (
    elim (Bool-cases (str_eq (call_key s.call_id) (apartment_busy_key s.apartment_id))) [
      | inl same ↦ rw (a.held-del, same) refl
      | inr other ↦ rw (a.held-del, other, same_key (apartment_busy_key s.apartment_id)) refl
    ],
    rw (a.get_lem, get_session, a.held-del, same_key (call_key s.call_id)) refl,
  )

  -- The parts of an Initiate that reaches the access point.
  initiate-ring :
      (e : Env) (db : Db) (input : ValidateInput) (prop : Property)
      → e.verify_qr input ≡ true
      → e.resolve_by_public_id input.aid ≡ found prop
      → initiate r json e db input ≡ ring r json e db prop
  unfolding initiate call_point
  initiate-ring e db input prop valid point = rw (valid, point, initiate) refl

  ring_rings :
      (e : Env) (db : Db) (prop : Property) (token : String)
      → busy db prop.apartment_id ≡ none
      → Encoded json (new_session e.new_call_id prop)
      → call_key e.new_call_id ≢ apartment_busy_key prop.apartment_id
      → e.mint_visitor e.new_call_id ("visitor:" ++ prop.apartment_id) ≡ some token
      → (let (answer, db', _) = ring r json e db prop in
          ((res : InitiateResult) × (answer ≡ ok res)
            × (res.call_id ≡ e.new_call_id)
            × (res.visitor_token ≡ token))
          × (get_session r json db' e.new_call_id ≡ some (some (new_session e.new_call_id prop)))
          × (busy db' prop.apartment_id ≡ some e.new_call_id))
  unfolding ring start_call
  ring_rings e db prop token free enc apart minted =
      let (made, taken, there) = create_free db (new_session e.new_call_id prop) enc free apart in
      rw (made, ring, minted, start_call) ((_, refl, refl, refl), there, taken)

  ring_releases :
      (e : Env) (db : Db) (prop : Property)
      → busy db prop.apartment_id ≡ none
      → Encoded json (new_session e.new_call_id prop)
      → call_key e.new_call_id ≢ apartment_busy_key prop.apartment_id
      → e.mint_visitor e.new_call_id ("visitor:" ++ prop.apartment_id) ≡ none
      → (let (answer, db', _) = ring r json e db prop in
          (answer ≡ err internal_error)
          × (get_session r json db' e.new_call_id ≡ some none)
          × (busy db' prop.apartment_id ≡ none))
  unfolding ring start_call
  ring_releases e db prop free enc apart minted =
      let s = new_session e.new_call_id prop in
      let (made, _, _) = create_free db s enc free apart in
      let (released, gone) = delete_lem (create r json db s).1 s in
      rw (made, ring, minted, start_call) (refl, gone, released)

  ring_ok :
      (e : Env) (db : Db) (prop : Property) (res : InitiateResult)
      → Encoded json (new_session e.new_call_id prop)
      → call_key e.new_call_id ≢ apartment_busy_key prop.apartment_id
      → (ring r json e db prop).0 ≡ ok res
      → busy (ring r json e db prop).1 prop.apartment_id ≡ some e.new_call_id
  ring_ok e db prop res enc apart h = elim (Option-cases (busy db prop.apartment_id)) [
    | inr (c, other) ↦ absurd (ok≢err res busy_error (sym h ∙ (ring-busy e db prop c other).0))
    | inl free ↦
        elim (Option-cases (e.mint_visitor e.new_call_id ("visitor:" ++ prop.apartment_id))) [
          | inl none_made ↦ absurd (
              ok≢err res internal_error
                (sym h ∙ (ring_releases e db prop free enc apart none_made).0))
          | inr (token, minted) ↦ (ring_rings e db prop token free enc apart minted).2
        ]
  ]

  -- Over a database that answers, a successful Initiate keeps every other one at its apartment
  -- out: the next, with a valid QR code of a point of the same apartment, is answered
  -- CALL_IN_PROGRESS, does nothing, and leaves Redis as it is. The session has a JSON from which
  -- it comes back, and the new call's key is not the apartment's.
  pub initiate_excludes :
      (e e' : Env) (db : Db) (input input' : ValidateInput) (prop prop' : Property)
      (res : InitiateResult)
      → (e.verify_qr input ≡ true) × (e'.verify_qr input' ≡ true)
      → (e.resolve_by_public_id input.aid ≡ found prop)
        × (e'.resolve_by_public_id input'.aid ≡ found prop')
      → prop.apartment_id ≡ prop'.apartment_id
      → Encoded json (new_session e.new_call_id prop)
      → call_key e.new_call_id ≢ apartment_busy_key prop.apartment_id
      → (initiate r json e db input).0 ≡ ok res
      → (let db' = (initiate r json e db input).1 in
          let (answer, db'', effects) = initiate r json e' db' input' in
          (answer ≡ err busy_error)
          × (effects ≡ [])
          × ((key : String) → held db'' key ≡ held db' key))
  initiate_excludes e e' db input input' prop prop' res (valid, valid') (point, point') same enc
        apart h =
      let first = initiate-ring e db input prop valid point in
      let taken : busy (initiate r json e db input).1 prop'.apartment_id ≡ some e.new_call_id =
        subst (λ ap. busy (initiate r json e db input).1 ap ≡ some e.new_call_id) same
          (rw first (ring_ok e db prop res enc apart (ap (λ t. t.0) (sym first) ∙ h))) in
      rw (initiate-ring e' (initiate r json e db input).1 input' prop' valid' point')
        (ring-busy e' (initiate r json e db input).1 prop' e.new_call_id taken)

  -- Over a database that answers, Initiate with a valid QR code at a free apartment, for which
  -- the visitor's token is made, succeeds with the new id and the token; then the session rings
  -- and the apartment is busy with it. The session has a JSON from which it comes back, and the
  -- new call's key is not the apartment's.
  pub initiate_rings :
      (e : Env) (db : Db) (input : ValidateInput) (prop : Property) (token : String)
      → e.verify_qr input ≡ true
      → e.resolve_by_public_id input.aid ≡ found prop
      → busy db prop.apartment_id ≡ none
      → Encoded json (new_session e.new_call_id prop)
      → call_key e.new_call_id ≢ apartment_busy_key prop.apartment_id
      → e.mint_visitor e.new_call_id ("visitor:" ++ prop.apartment_id) ≡ some token
      → (let (answer, db', _) = initiate r json e db input in
          ((res : InitiateResult) × (answer ≡ ok res)
            × (res.call_id ≡ e.new_call_id)
            × (res.visitor_token ≡ token))
          × (get_session r json db' e.new_call_id ≡ some (some (new_session e.new_call_id prop)))
          × (busy db' prop.apartment_id ≡ some e.new_call_id))
  initiate_rings e db input prop token valid point free enc apart minted =
      rw (initiate-ring e db input prop valid point)
        (ring_rings e db prop token free enc apart minted)

  -- Over a database that answers, Initiate with a valid QR code at a free apartment, for which
  -- the visitor's token cannot be made, answers INTERNAL, and then the apartment is free and
  -- there is no session. The session has a JSON from which it comes back, and the new call's key
  -- is not the apartment's.
  pub initiate_releases :
      (e : Env) (db : Db) (input : ValidateInput) (prop : Property)
      → e.verify_qr input ≡ true
      → e.resolve_by_public_id input.aid ≡ found prop
      → busy db prop.apartment_id ≡ none
      → Encoded json (new_session e.new_call_id prop)
      → call_key e.new_call_id ≢ apartment_busy_key prop.apartment_id
      → e.mint_visitor e.new_call_id ("visitor:" ++ prop.apartment_id) ≡ none
      → (let (answer, db', _) = initiate r json e db input in
          (answer ≡ err internal_error)
          × (get_session r json db' e.new_call_id ≡ some none)
          × (busy db' prop.apartment_id ≡ none))
  initiate_releases e db input prop valid point free enc apart minted =
      rw (initiate-ring e db input prop valid point) (ring_releases e db prop free enc apart minted)

  teardown_frees :
      (db : Db) (call_id event_type : String) (notify : Bool) (s : Session)
      → get_session r json db call_id ≡ some (some s)
      → ((teardown r json db call_id event_type notify).0 ≡ none)
        × (busy (teardown r json db call_id event_type notify).1 s.apartment_id ≡ none)
        × (get_session r json (teardown r json db call_id event_type notify).1 s.call_id
            ≡ some none)
  unfolding teardown remove_session
  teardown_frees db call_id event_type notify s there =
      let (released, gone) = delete_lem db s in rw (there, teardown) (refl, released, gone)

  -- Over a database that answers, End and Cancel of a call with a session succeed, and then
  -- neither the session is there nor is its apartment busy.
  pub end_call_frees :
      (db : Db) (call_id : String) (s : Session)
      → get_session r json db call_id ≡ some (some s)
      → (let (answer, db', _) = end_call r json db call_id in
          (answer ≡ none)
          × (busy db' s.apartment_id ≡ none)
          × (get_session r json db' s.call_id ≡ some none))
        × (let (answer, db', _) = cancel r json db call_id in
            (answer ≡ none)
            × (busy db' s.apartment_id ≡ none)
            × (get_session r json db' s.call_id ≡ some none))
  unfolding end_call cancel
  end_call_frees db call_id s there = (
    teardown_frees db call_id "call_ended" false s there,
    teardown_frees db call_id "call_cancelled" true s there,
  )
