-- ===== src/Backend/Auth/Stores.antt =====
-- backend/internal/auth/redis_store.go: RedisRefreshKV, the whitelist's store in Redis.
use qr_domofon.Base.{[], ◌∷◌}
use qr_domofon.Backend.Redis as Commands
use qr_domofon.Backend.Redis.{Redis, remove}
use qr_domofon.Backend.Auth.Refresh.Store.{RefreshKv, Answers}

unfoldable pub redis_refresh_kv : Redis → RefreshKv
redis_refresh_kv r = record {
  Kv = r.Db;
  set = r.set;
  get = r.get;
  del = λ db key. r.del db (key ∷ []);
}

-- RedisRefreshKV meets what the whitelist relies on, over a Redis that answers every command and
-- in which no key expires meanwhile.
pub redis_refresh_kv-Answers : (r : Redis) → Commands.Answers r → Answers (redis_refresh_kv r)
unfolding redis_refresh_kv
redis_refresh_kv-Answers r a = record {
  held = a.held;
  get_lem = a.get_lem;
  set_lem = a.set_lem;
  del_lem = λ db key. a.del_lem db (key ∷ []);
  held-set = λ db key v j ttl. a.held-set db key v j ttl;
  held-del = λ db key j. a.held-del db (key ∷ []) j;
}
