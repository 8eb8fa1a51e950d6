-- ===== src/Backend/Calls/History/Teardown.antt =====
-- The removal of a call, and the evidence that Redis keeps for the others.
use text.Mathlib.TextLemmas.{append_cancel_left}
use mathlib.Core.Bool.{false≢true}
use qr_domofon.Base.{
  ◌≢◌, eq_iff, String, ◌≡◌, sym, ◌∙◌, Bool, none, some, [], ◌∷◌, inl, inr, Bool-cases, Option-cases,
  Option, ap, str_eq, arith,
}
use qr_domofon.Backend.Httpx.{ApiError}
use qr_domofon.Backend.Redis.{Redis, Answers, remove}
use qr_domofon.Backend.Calls.Sessions.{Codec, get_session, delete, call_key, apartment_busy_key}
use qr_domofon.Backend.Calls.{teardown, remove_session}
use qr_domofon.Backend.Calls.History.{RoundTrips}
use qr_domofon.Backend.Calls.History.Kept.{get_session-Kept, AllKept, KeptOption}

-- Evidence may change, where it stays evidence for what is kept.
module _ (r : Redis) (json : Codec) (a : Answers r) (trips : RoundTrips json)
    (P Ev : String → String → Type 0) where
  open r use {Db}
  open a use {held}

  KeptOption-imp :
      (key : String) (v : Option String)
      → ((c apartment_id : String) → key ≡ call_key c → P c apartment_id → Ev c apartment_id)
      → KeptOption r json a trips P key v
      → KeptOption r json a trips Ev key v
  KeptOption-imp key none imp kept = tt
  KeptOption-imp key (some v) imp kept = λ s e.
      let k = kept s e in
      record {
        own_key = k.own_key;
        plain_id = k.plain_id;
        evidence = λ accepted. imp s.call_id s.apartment_id k.own_key (k.evidence accepted);
      }

  pub AllKept-imp :
      (db : Db)
      → ((c apartment_id : String) → P c apartment_id → Ev c apartment_id)
      → AllKept r json a trips P db
      → AllKept r json a trips Ev db
  AllKept-imp db imp all key = KeptOption-imp key (held db key) (λ c ap _ p. imp c ap p) (all key)

  -- The deletion of a call's session: evidence is needed for the other calls only.
  removed_keeps :
      (f : String → Option String) (call_id busy key : String)
      → ((c apartment_id : String) → c ≢ call_id → P c apartment_id → Ev c apartment_id)
      → KeptOption r json a trips P key (f key)
      → KeptOption r json a trips Ev key (remove f (call_key call_id ∷ busy ∷ []) key)
  removed_keeps f call_id busy key imp kept = elim (Bool-cases (str_eq (call_key call_id) key)) [
    | inl same ↦ rw same tt
    | inr other ↦
        let imp' : (c apartment_id : String)
            → key ≡ call_key c
            → P c apartment_id
            → Ev c apartment_id =
          λ c flat own p.
            imp c flat
              (λ h. false≢true (sym other ∙ (eq_iff _ _).1 (ap call_key (sym h) ∙ sym own))) p in
        elim (Bool-cases (str_eq busy key)) [
          | inl gone ↦ rw (other, gone) tt
          | inr left ↦ rw (other, left) (KeptOption-imp key (f key) imp' kept)
        ]
  ]

  pub teardown_keeps :
      (db : Db) (call_id event_type : String) (notify : Bool)
      → ((c apartment_id : String)
          → ¬ ((call_id ≡ c) × ((teardown r json db call_id event_type notify).0 ≡ none))
          → P c apartment_id
          → Ev c apartment_id)
      → AllKept r json a trips P db
      → AllKept r json a trips Ev (teardown r json db call_id event_type notify).1
  unfolding teardown remove_session delete
  teardown_keeps db call_id event_type notify imp all =
      elim (Option-cases (get_session r json db call_id)) [
        | inl lost ↦
            let failed : (teardown r json db call_id event_type notify).0 ≢ none =
              λ h. some≢none (rw (lost, teardown) at h) in
            rw (lost, teardown) (AllKept-imp db (λ c ap p. imp c ap (λ k. failed k.1) p) all)
        | inr (none, out) ↦
            let failed : (teardown r json db call_id event_type notify).0 ≢ none =
              λ h. some≢none (rw (out, teardown) at h) in
            rw (out, teardown) (AllKept-imp db (λ c ap p. imp c ap (λ k. failed k.1) p) all)
        | inr (some sess, there) ↦
            let k = get_session-Kept r json a trips P db call_id sess all there in
            let same = append_cancel_left "call:" call_id sess.call_id k.own_key in
            rw (there, teardown, remove_session, delete)
              (λ key. rw a.held-del (
                removed_keeps (held db) sess.call_id (apartment_busy_key sess.apartment_id) key
                  (λ c ap other p. imp c ap (λ q. other (sym q.0 ∙ same)) p) (all key)))
      ]
    where
      some≢none : {e : ApiError} → some e ≡ none → ⊥
      some≢none h = ground arith
