-- ===== src/Backend/Calls/Sessions.antt =====
-- backend/internal/calls/session.go: the sessions of calls in Redis. The encoding of a session as JSON
-- is a parameter, `Codec`; an operation that fails answers `none` or `false`.
use Prim.Native.String.{◌++◌}
use qr_domofon.Base.{
  ℕ, ◌*◌, String, Bool, true, false, not, Option, none, some, [], ◌∷◌, if◌then◌else◌,
}
use qr_domofon.Base.Time.{second}
use qr_domofon.Backend.Redis.{Redis}

abbrev pub call_ttl : ℕ
call_ttl = 120 * second

pub record Session : Type 0 where
  pub call_id : String
  pub apartment_id : String
  pub access_point_id : String
  pub access_point_label : String
  pub device_id : String
  pub management_company_id : String
  pub state : String

-- json.Marshal and json.Unmarshal at this type.
pub record Codec : Type 0 where
  pub marshal : Session → Option String
  pub unmarshal : String → Option Session

abbrev pub apartment_busy_key : String → String
apartment_busy_key apartment_id = "call:apartment:" ++ apartment_id

abbrev pub call_key : String → String
call_key call_id = "call:" ++ call_id

module _ (r : Redis) (json : Codec) where
  open r use {Db, set_nx, set, get, del}
  open json use {marshal, unmarshal}

  -- The release of a busy apartment, of which the error is dropped.
  abbrev pub release : Db → Session → Db
  release db sess = (del db (apartment_busy_key sess.apartment_id ∷ [])).1

  -- Create, once the apartment is taken.
  unfoldable pub store_new : Db → Session → Option Bool × Db
  store_new db sess = elim (marshal sess) [
    | none ↦ (none, release db sess)
    | some body ↦
        let (stored, db') = set db (call_key sess.call_id) body call_ttl in
        if not stored then (none, release db' sess) else (some true, db')
  ]

  unfoldable pub create : Db → Session → Option Bool × Db
  unfolding store_new
  create db sess =
      let (taken, db') = set_nx db (apartment_busy_key sess.apartment_id) sess.call_id call_ttl in
      elim taken [
        | none ↦ (none, db')
        | some false ↦ (some false, db')
        | some true ↦ store_new db' sess
      ]

  -- A body that is no session is an error.
  abbrev pub decode : Option String → Option (Option Session)
  decode none = some none
  decode (some body) = elim (unmarshal body) [ none ↦ none | some sess ↦ some (some sess) ]

  unfoldable pub get_session : Db → String → Option (Option Session)
  get_session db call_id = elim (get db (call_key call_id)) [
    | none ↦ none
    | some found ↦ decode found
  ]

  unfoldable pub update : Db → Session → Bool × Db
  update db sess = elim (marshal sess) [
    | none ↦ (false, db)
    | some body ↦
        let (stored, db') = set db (call_key sess.call_id) body call_ttl in
        if not stored
        then (false, db')
        else set db' (apartment_busy_key sess.apartment_id) sess.call_id call_ttl
  ]

  unfoldable pub delete : Db → Session → Bool × Db
  delete db sess = del db (call_key sess.call_id ∷ apartment_busy_key sess.apartment_id ∷ [])
