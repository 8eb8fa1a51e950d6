-- ===== src/Backend/Redis.antt =====
-- The commands of Redis that the server uses (github.com/redis/go-redis, an external package): the
-- operations, and what its documentation says of them. A command that fails is `none` or `false`. The
-- expiry of keys is a step of the database of its own, which no command here takes.
use qr_domofon.Base.{
  ℕ, String, ◌≡◌, Bool, true, false, not, Option, none, some, List, [], ◌∷◌, str_eq, if◌then◌else◌,
}

pub record Redis : Type 1 where
  pub Db : Type 0
  pub set_nx : Db → String → String → ℕ → Option Bool × Db
  pub set : Db → String → String → ℕ → Bool × Db
  pub get : Db → String → Option (Option String)
  pub del : Db → List String → Bool × Db
  pub exists : Db → String → Option Bool

-- Whether a key is set.
abbrev pub held_by {ℓ} : {A : Type ℓ} → Option A → Bool
held_by none = false
held_by (some _) = true

abbrev pub remove : (String → Option String) → List String → String → Option String
remove f [] k = f k
remove f (j ∷ js) k = if str_eq j k then none else remove f js k

module _ (r : Redis) where
  open r use {Db, set_nx, set, get, del, exists}

  -- A database that answers every command.
  pub record Answers : Type 0 where
    pub held : Db → String → Option String
    pub get_lem : (db : Db) (k : String) → get db k ≡ some (held db k)
    pub set_lem : (db : Db) (k v : String) (ttl : ℕ) → (set db k v ttl).0 ≡ true
    pub held-set :
        (db : Db) (k v j : String) (ttl : ℕ)
        → held (set db k v ttl).1 j ≡ (if str_eq k j then some v else held db j)
    pub set_nx_lem :
        (db : Db) (k v : String) (ttl : ℕ)
        → (set_nx db k v ttl).0 ≡ some (not (held_by (held db k)))
    pub held-set_nx :
        (db : Db) (k v j : String) (ttl : ℕ)
        → held (set_nx db k v ttl).1 j
          ≡ (if held_by (held db k) then held db j else if str_eq k j then some v else held db j)
    pub del_lem : (db : Db) (ks : List String) → (del db ks).0 ≡ true
    pub held-del :
        (db : Db) (ks : List String) (j : String) → held (del db ks).1 j ≡ remove (held db) ks j
    pub exists_lem : (db : Db) (k : String) → exists db k ≡ some (held_by (held db k))
