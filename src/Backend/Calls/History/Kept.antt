-- ===== src/Backend/Calls/History/Kept.antt =====
-- What Redis keeps for the calls of backend/internal/calls, over all histories.
use mathlib.Core.Path.{subst}
use mathlib.Core.Option.{some-injective}
use qr_domofon.Base.{
  ℕ, String, ◌≡◌, refl, sym, ◌∙◌, true, false, Option, none, some, List, [], ◌∷◌, inl, inr, arith,
  str_eq, eq_iff, Bool-cases, Option-cases,
}
use qr_domofon.Backend.Redis.{Redis, Answers, held_by, remove}
use qr_domofon.Backend.Calls.Sessions.{
  Session, Codec, create, store_new, get_session, update, delete, decode, call_key,
  apartment_busy_key, call_ttl,
}
use qr_domofon.Backend.Calls.History.{RoundTrips}

module _ (r : Redis) (json : Codec) (a : Answers r) (trips : RoundTrips json)
    (Ev : String → String → Type 0) where
  open r use {Db}
  open a use {held}

  -- A value that is a session stands under the session's own key; one in the state "accepted" has
  -- evidence for it.
  pub record Kept (key : String) (sess : Session) : Type 0 where
    pub own_key : key ≡ call_key sess.call_id
    pub plain_id : json.unmarshal sess.call_id ≡ none
    pub evidence : sess.state ≡ "accepted" → Ev sess.call_id sess.apartment_id

  abbrev pub KeptValue : String → String → Type 0
  KeptValue key v = (s : Session) → json.unmarshal v ≡ some s → Kept key s

  abbrev pub KeptOption : String → Option String → Type 0
  KeptOption key none = Unit
  KeptOption key (some v) = KeptValue key v

  abbrev pub AllKept : Db → Type 0
  AllKept db = (key : String) → KeptOption key (held db key)

  set_keeps :
      (db : Db) (k v : String) (ttl : ℕ) → KeptValue k v → AllKept db → AllKept (r.set db k v ttl).1
  set_keeps db k v ttl new all key = elim (Bool-cases (str_eq k key)) [
    | inl same ↦ rw (a.held-set, same) (subst (λ j. KeptValue j v) ((eq_iff k key).0 same) new)
    | inr other ↦ rw (a.held-set, other) (all key)
  ]

  plain_keeps : {key : String} (v : String) → json.unmarshal v ≡ none → KeptValue key v
  plain_keeps v plain s e = absurd (ground arith)

  set_nx_keeps :
      (db : Db) (k v : String) (ttl : ℕ)
      → json.unmarshal v ≡ none
      → AllKept db
      → AllKept (r.set_nx db k v ttl).1
  set_nx_keeps db k v ttl plain all key = elim (Bool-cases (held_by (held db k))) [
    | inl taken ↦ rw (a.held-set_nx, taken) (all key)
    | inr free ↦ elim (Bool-cases (str_eq k key)) [
      | inl same ↦ rw (a.held-set_nx, free, same) (plain_keeps v plain)
      | inr other ↦ rw (a.held-set_nx, free, other) (all key)
    ]
  ]

  KeptOption-remove :
      (f : String → Option String) (ks : List String) (key : String)
      → KeptOption key (f key)
      → KeptOption key (remove f ks key)
  KeptOption-remove f [] key h = h
  KeptOption-remove f (j ∷ js) key h = elim (Bool-cases (str_eq j key)) [
    | inl same ↦ rw same tt
    | inr other ↦ rw other (KeptOption-remove f js key h)
  ]

  pub del_keeps : (db : Db) (ks : List String) → AllKept db → AllKept (r.del db ks).1
  del_keeps db ks all key = rw a.held-del (KeptOption-remove (held db) ks key (all key))

  -- A session may be kept under its own key.
  session_keeps :
      (s : Session) (body : String)
      → json.marshal s ≡ some body
      → json.unmarshal s.call_id ≡ none
      → (s.state ≡ "accepted" → Ev s.call_id s.apartment_id)
      → KeptValue (call_key s.call_id) body
  session_keeps s body e plain ev s' e' =
      subst (λ t. Kept (call_key s.call_id) t) (some-injective s s' (sym (trips s body e) ∙ e'))
        (record { own_key = refl; plain_id = plain; evidence = ev })

  store_new_keeps :
      (db : Db) (s : Session)
      → json.unmarshal s.call_id ≡ none
      → (s.state ≡ "accepted" → Ev s.call_id s.apartment_id)
      → AllKept db
      → AllKept (store_new r json db s).1
  unfolding store_new
  store_new_keeps db s plain ev all = elim (Option-cases (json.marshal s)) [
    | inl lost ↦ rw (lost, store_new) (del_keeps db (apartment_busy_key s.apartment_id ∷ []) all)
    | inr (body, e) ↦
        let kept : AllKept (r.set db (call_key s.call_id) body call_ttl).1 =
          set_keeps db (call_key s.call_id) body call_ttl (session_keeps s body e plain ev) all in
        rw (e, a.set_lem, store_new) kept
  ]

  -- What Create stores is not accepted yet.
  pub create_keeps :
      (db : Db) (s : Session)
      → json.unmarshal s.call_id ≡ none
      → (s.state ≡ "accepted" → Ev s.call_id s.apartment_id)
      → AllKept db
      → AllKept (create r json db s).1
  unfolding create store_new
  create_keeps db s plain ev all =
      elim (Option-cases (r.set_nx db (apartment_busy_key s.apartment_id) s.call_id call_ttl).0) [
        | inl lost ↦ rw (lost, create) kept
        | inr (false, busy) ↦ rw (busy, create) kept
        | inr (true, taken) ↦ rw (taken, create) (store_new_keeps _ s plain ev kept)
      ]
    where
      kept : AllKept (r.set_nx db (apartment_busy_key s.apartment_id) s.call_id call_ttl).1
      kept = set_nx_keeps db (apartment_busy_key s.apartment_id) s.call_id call_ttl plain all

  pub update_keeps :
      (db : Db) (s : Session)
      → json.unmarshal s.call_id ≡ none
      → (s.state ≡ "accepted" → Ev s.call_id s.apartment_id)
      → AllKept db
      → AllKept (update r json db s).1
  unfolding update
  update_keeps db s plain ev all = elim (Option-cases (json.marshal s)) [
    | inl lost ↦ rw (lost, update) all
    | inr (body, e) ↦
        let kept : AllKept (r.set db (call_key s.call_id) body call_ttl).1 =
          set_keeps db (call_key s.call_id) body call_ttl (session_keeps s body e plain ev) all in
        rw (e, a.set_lem, update)
          (set_keeps _ (apartment_busy_key s.apartment_id) s.call_id call_ttl
            (plain_keeps s.call_id plain) kept)
  ]

  pub delete_keeps : (db : Db) (s : Session) → AllKept db → AllKept (delete r json db s).1
  unfolding delete
  delete_keeps db s all = del_keeps db _ all

  get_session_lem :
      (db : Db) (call_id : String)
      → get_session r json db call_id ≡ decode r json (held db (call_key call_id))
  unfolding get_session
  get_session_lem db call_id = rw (a.get_lem, get_session) refl

  decode-Kept :
      (key : String) (v : Option String) (s : Session)
      → KeptOption key v
      → decode r json v ≡ some (some s)
      → Kept key s
  decode-Kept key none s kept h = absurd (ground arith)
  decode-Kept key (some body) s kept h = kept s (ground arith)

  -- A session that Get finds is kept.
  pub get_session-Kept :
      (db : Db) (call_id : String) (s : Session)
      → AllKept db
      → get_session r json db call_id ≡ some (some s)
      → Kept (call_key call_id) s
  get_session-Kept db call_id s all h =
      decode-Kept (call_key call_id) (held db (call_key call_id)) s (all (call_key call_id))
        (sym (get_session_lem db call_id) ∙ h)
