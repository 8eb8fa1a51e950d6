-- ===== src/Backend/Auth/Refresh.antt =====
-- backend/internal/auth/refresh_store.go: the whitelist of refresh tokens over the interface
-- refreshKV. A call of the interface may fail, which is `none` or `false` here.
pub mod Store
pub mod Sequential
pub mod Race
use Prim.Native.String.{◌++◌}
use qr_domofon.Base.{ℕ, String, Bool, true, false, not, Option, none, some, if◌then◌else◌}
use Store.{RefreshKv}

abbrev pub refresh_key : String → String
refresh_key jti = "auth:refresh:" ++ jti

pub data RotateError : Type 0 where
  fault not_in_whitelist : RotateError

module _ (o : RefreshKv) where
  open o use {Kv, set, get, del}

  unfoldable pub issue : Kv → String → String → ℕ → Bool × Kv
  issue kv jti user_id ttl = set kv (refresh_key jti) user_id ttl

  unfoldable pub validate : Kv → String → Option (Option String)
  validate kv jti = get kv (refresh_key jti)

  -- After the old token was found: its deletion, and the entry of the new one.
  replace : Kv → String → String → String → ℕ → Option RotateError × Kv
  replace kv old_jti new_jti user_id ttl =
      let (deleted, kv₁) = del kv (refresh_key old_jti) in
      if not deleted
      then (some fault, kv₁)
      else let (stored, kv₂) = set kv₁ (refresh_key new_jti) user_id ttl in
        (if stored then none else some fault, kv₂)

  unfoldable pub rotate : Kv → String → String → String → ℕ → Option RotateError × Kv
  unfolding replace
  rotate kv old_jti new_jti user_id ttl = elim (get kv (refresh_key old_jti)) [
    | none ↦ (some fault, kv)
    | some none ↦ (some not_in_whitelist, kv)
    | some (some _) ↦ replace kv old_jti new_jti user_id ttl
  ]

  unfoldable pub revoke : Kv → String → Bool × Kv
  revoke kv jti = del kv (refresh_key jti)
