-- ===== src/Backend/Calls/History/Requests.antt =====
-- The requests of a history keep what Redis keeps for the calls.
use text.Mathlib.TextLemmas.{append_cancel_left}
use Prim.Native.String.{◌++◌}
use mathlib.Core.Bool.{false≢true}
use qr_domofon.Base.{
  ◌≢◌, eq_iff, String, ◌≡◌, refl, sym, ◌∙◌, true, false, none, some, List, [], ◌∷◌, inl, inr,
  Bool-cases, Option-cases, ◌⊎◌, ap,
}
use mathlib.Core.Path.{subst}
use qr_domofon.Backend.Httpx.{ok}
use qr_domofon.Backend.Redis.{Redis, Answers}
use qr_domofon.Backend.Calls.Sessions.{Session, Codec, create, get_session, update}
use qr_domofon.Backend.Calls.{
  AcceptResult, Env, Property, ValidateInput, initiate, ring, start_call, accept, accept_session,
  mark_accepted, cancel, end_call, new_session, Resolved, call_point, found, not_found, failed,
}
use qr_domofon.Backend.Calls.History.{
  Request, initiate_at, accept_as, cancel_of, end_of, expire, RoundTrips, FreshIds, AcceptedIn,
  Accepts, Removes, Stands, step, run,
}
use qr_domofon.Backend.Calls.History.Teardown.{AllKept-imp, teardown_keeps}
use qr_domofon.Backend.Calls.History.Kept.{
  create_keeps, update_keeps, delete_keeps, del_keeps, get_session-Kept, AllKept,
}

ringing≢accepted : ◌≢◌ {A = String} "ringing" "accepted"
ringing≢accepted h = false≢true ((eq_iff "ringing" "accepted").1 h)

module _ (r : Redis) (json : Codec) (a : Answers r) (trips : RoundTrips json)
    (Ev : String → String → Type 0) where
  open r use {Db}

  ring_keeps :
      (e : Env) (db : Db) (prop : Property)
      → json.unmarshal e.new_call_id ≡ none
      → AllKept r json a trips Ev db
      → AllKept r json a trips Ev (ring r json e db prop).1
  unfolding ring start_call
  ring_keeps e db prop fresh all = elim (Option-cases (create r json db sess).0) [
    | inl lost ↦ rw (lost, ring) created
    | inr (false, busy) ↦ rw (busy, ring) created
    | inr (true, ok_) ↦
        elim (Option-cases (e.mint_visitor e.new_call_id ("visitor:" ++ prop.apartment_id))) [
          | inl no_token ↦
              rw (ok_, ring, no_token, start_call) (delete_keeps r json a trips Ev _ sess created)
          | inr (token, minted) ↦ rw (ok_, ring, minted, start_call) created
        ]
  ]
    where
      sess : Session
      sess = new_session e.new_call_id prop

      created : AllKept r json a trips Ev (create r json db sess).1
      created = create_keeps r json a trips Ev db sess fresh (λ h. absurd (ringing≢accepted h)) all

  initiate_keeps :
      (e : Env) (db : Db) (input : ValidateInput)
      → json.unmarshal e.new_call_id ≡ none
      → AllKept r json a trips Ev db
      → AllKept r json a trips Ev (initiate r json e db input).1
  unfolding initiate
  initiate_keeps e db input fresh all = elim (Bool-cases (e.verify_qr input)) [
    | inr bad ↦ rw (bad, initiate) all
    | inl good ↦ rw (good, initiate) (resolved (e.resolve_by_public_id input.aid))
  ]
    where
      resolved : (p : Resolved) → AllKept r json a trips Ev (call_point r json e db p).1
      resolved not_found = all
      resolved failed = all
      resolved (found prop) = ring_keeps e db prop fresh all

  -- Over a Redis that answers, an update that fails has changed nothing.
  update-lost :
      (db : Db) (s : Session) → (update r json db s).0 ≡ false → (update r json db s).1 ≡ db
  unfolding update
  update-lost db s h = elim (Option-cases (json.marshal s)) [
    | inl none_there ↦ rw (none_there, update) refl
    | inr (body, e) ↦ absurd (false≢true (sym h ∙ rw (e, a.set_lem, update, a.set_lem) refl))
  ]

  accept_keeps :
      (e : Env) (db : Db) (call_id : String)
      → ((c apartment_id : String)
          → Accepts r json (accept_as e call_id) db c apartment_id
          → Ev c apartment_id)
      → AllKept r json a trips Ev db
      → AllKept r json a trips Ev (accept r json e db call_id).1
  unfolding accept accept_session mark_accepted
  accept_keeps e db call_id ev all = elim (Option-cases (get_session r json db call_id)) [
    | inl lost ↦ rw (lost, accept) all
    | inr (none, out) ↦ rw (out, accept) all
    | inr (some sess, there) ↦
        rw (there, accept)
          (elim (Bool-cases (e.allow_apartment sess.apartment_id)) [
            | inr other ↦ rw (other, accept_session) all
            | inl member ↦
                elim (Option-cases (e.mint_resident call_id ("resident:" ++ sess.apartment_id))) [
                  | inl no_token ↦ rw (member, no_token, accept_session) all
                  | inr (token, minted) ↦
                      let k = get_session-Kept r json a trips Ev db call_id sess all there in
                      let same = append_cancel_left "call:" call_id sess.call_id k.own_key in
                      rw (member, minted, accept_session)
                        (marked sess token k.plain_id (λ res answered.
                          let success : (accept r json e db call_id).0 ≡ ok res =
                            rw (there, accept, member, minted, accept_session) answered in
                          ev sess.call_id sess.apartment_id (
                            same,
                            member,
                            (
                              sess,
                              subst (λ c. get_session r json db c ≡ some (some sess)) same there,
                              refl,
                            ),
                            (res, subst (λ c. (accept r json e db c).0 ≡ ok res) same success),
                          )))
                ]
          ])
  ]
    where
      marked :
          (sess : Session) (token : String)
          → json.unmarshal sess.call_id ≡ none
          → ((res : AcceptResult)
              → (mark_accepted r json e db call_id sess token).0 ≡ ok res
              → Ev sess.call_id sess.apartment_id)
          → AllKept r json a trips Ev (mark_accepted r json e db call_id sess token).1
      marked sess token plain ev' =
          let sess' : Session = record sess { state = "accepted" } in
          elim (Bool-cases (update r json db sess').0) [
            | inl stored ↦
                rw (stored, mark_accepted)
                  (update_keeps r json a trips Ev db sess' plain
                    (λ _.
                      ev' (record { room = call_id; live_kit_url = e.url; resident_token = token })
                        (rw (stored, mark_accepted) refl))
                    all)
            | inr lost ↦
                let unchanged = update-lost db sess' lost in rw (lost, mark_accepted, unchanged) all
          ]

module _ (r : Redis) (json : Codec) (a : Answers r) (trips : RoundTrips json) where
  open r use {Db}

  -- What is known of a call after one more request.
  abbrev Next : Request → Db → (String → String → Type 0) → String → String → Type 0
  Next q db P c ap = Accepts r json q db c ap ⊎ (P c ap × ¬ Removes r json q db c)

  step_keeps :
      (P : String → String → Type 0) (q : Request) (qs : List Request) (db : Db)
      → FreshIds json (q ∷ qs)
      → AllKept r json a trips P db
      → AllKept r json a trips (Next q db P) (step r json q db)
  unfolding step cancel end_call
  step_keeps P (initiate_at e input) qs db (new, _) all =
      initiate_keeps r json a trips (Next (initiate_at e input) db P) e db input new (
        AllKept-imp r json a trips P (Next (initiate_at e input) db P) db
          (λ c ap p. inr (p, λ x. x)) all)
  step_keeps P (accept_as e c) qs db _ all =
      accept_keeps r json a trips (Next (accept_as e c) db P) e db c (λ d ap h. inl h)
        (AllKept-imp r json a trips P (Next (accept_as e c) db P) db (λ c ap p. inr (p, λ x. x))
          all)
  step_keeps P (cancel_of c) qs db _ all =
      teardown_keeps r json a trips P (Next (cancel_of c) db P) db c "call_cancelled" true
        (λ d ap safe p. inr (p, safe)) all
  step_keeps P (end_of c) qs db _ all =
      teardown_keeps r json a trips P (Next (end_of c) db P) db c "call_ended" false
        (λ d ap safe p. inr (p, safe)) all
  step_keeps P (expire ks) qs db _ all =
      del_keeps r json a trips (Next (expire ks) db P) db ks
        (AllKept-imp r json a trips P (Next (expire ks) db P) db (λ c ap p. inr (p, λ x. x)) all)

  fresh_rest : (q : Request) (qs : List Request) → FreshIds json (q ∷ qs) → FreshIds json qs
  fresh_rest (initiate_at e input) qs (_, fresh) = fresh
  fresh_rest (accept_as e c) qs fresh = fresh
  fresh_rest (cancel_of c) qs fresh = fresh
  fresh_rest (end_of c) qs fresh = fresh
  fresh_rest (expire ks) qs fresh = fresh

  -- What is known at the beginning holds on while the call stands, or the call was accepted since.
  abbrev Known : (String → String → Type 0) → List Request → Db → String → String → Type 0
  Known P qs db c ap = (P c ap × Stands r json qs db c) ⊎ AcceptedIn r json qs db c ap

  Next-Known :
      (P : String → String → Type 0) (q : Request) (qs : List Request) (db : Db) (c ap : String)
      → Known (Next q db P) qs (step r json q db) c ap
      → Known P (q ∷ qs) db c ap
  Next-Known P q qs db c ap (inl (inl accepts, stands)) = inr (inl (accepts, stands))
  Next-Known P q qs db c ap (inl (inr (p, safe), stands)) = inl (p, (safe, stands))
  Next-Known P q qs db c ap (inr later) = inr (inr later)

  -- Redis keeps only accepted sessions that have been accepted and not been removed since, over any
  -- history.
  pub run_keeps :
      (P Ev : String → String → Type 0) (qs : List Request) (db : Db)
      → FreshIds json qs
      → ((c apartment_id : String) → Known P qs db c apartment_id → Ev c apartment_id)
      → AllKept r json a trips P db
      → AllKept r json a trips Ev (run r json qs db)
  unfolding run
  run_keeps P Ev [] db fresh ev all =
      AllKept-imp r json a trips P Ev db (λ c ap p. ev c ap (inl (p, tt))) all
  run_keeps P Ev (q ∷ qs) db fresh ev all =
      run_keeps (Next q db P) Ev qs (step r json q db) (fresh_rest q qs fresh)
        (λ c ap k. ev c ap (Next-Known P q qs db c ap k)) (step_keeps P q qs db fresh all)
