-- ===== src/Backend/Auth/Refresh/Store.antt =====
-- The interface refreshKV of backend/internal/auth/refresh_store.go, and what its users rely on.
use qr_domofon.Base.{ℕ, String, ◌≡◌, Bool, true, Option, none, some, str_eq, if◌then◌else◌}

pub record RefreshKv : Type 1 where
  pub Kv : Type 0
  pub set : Kv → String → String → ℕ → Bool × Kv
  pub get : Kv → String → Option (Option String)
  pub del : Kv → String → Bool × Kv

module _ (o : RefreshKv) where
  open o use {Kv, set, get, del}

  -- A store that answers every call and in which no entry expires while it is watched: a key is read
  -- as it was last written.
  pub record Answers : Type 0 where
    pub held : Kv → String → Option String
    pub get_lem : (kv : Kv) (k : String) → get kv k ≡ some (held kv k)
    pub set_lem : (kv : Kv) (k v : String) (ttl : ℕ) → (set kv k v ttl).0 ≡ true
    pub del_lem : (kv : Kv) (k : String) → (del kv k).0 ≡ true
    pub held-set :
        (kv : Kv) (k v j : String) (ttl : ℕ)
        → held (set kv k v ttl).1 j ≡ (if str_eq k j then some v else held kv j)
    pub held-del :
        (kv : Kv) (k j : String) → held (del kv k).1 j ≡ (if str_eq k j then none else held kv j)
