-- ===== src/Backend/Auth/Refresh/Race.antt =====
-- Two requests that rotate one refresh token of backend/internal/auth/refresh_store.go at the same
-- time. Rotate is three calls of the store; the calls of two requests may be mixed in any order.
use qr_domofon.Base.{
  ℕ, String, ◌≡◌, refl, sym, ap, ◌∙◌, ◌≢◌, Bool, true, false, Option, none, some, List, [], ◌∷◌,
  arith, str_eq, eq_iff, if◌then◌else◌,
}
use qr_domofon.Backend.Auth.Refresh.Store.{RefreshKv, Answers}
use qr_domofon.Backend.Auth.Refresh.{
  RotateError, fault, not_in_whitelist, refresh_key, rotate, replace,
}
use qr_domofon.Backend.Auth.Refresh.Sequential.{holder, refresh_key-eq}

-- The call that a request makes next, or what Rotate returned.
pub data Phase : Type 0 where
  checking deleting setting : Phase
  returned : Option RotateError → Phase

pub record Request : Type 0 where
  pub old_jti : String
  pub new_jti : String
  pub user_id : String
  pub ttl : ℕ
  pub phase : Phase

module _ (o : RefreshKv) where
  open o use {Kv, set, get, del}

  abbrev checked : Request → Option (Option String) → Request
  checked r none = record r { phase = returned (some fault) }
  checked r (some none) = record r { phase = returned (some not_in_whitelist) }
  checked r (some (some _)) = record r { phase = deleting }

  advance_at : Phase → Kv → Request → Request × Kv
  advance_at checking kv r = (checked r (get kv (refresh_key r.old_jti)), kv)
  advance_at deleting kv r =
      let (deleted, kv') = del kv (refresh_key r.old_jti) in
      (record r { phase = if deleted then setting else returned (some fault) }, kv')
  advance_at setting kv r =
      let (stored, kv') = set kv (refresh_key r.new_jti) r.user_id r.ttl in
      (record r { phase = returned (if stored then none else some fault) }, kv')
  advance_at (returned e) kv r = (r, kv)

  -- One call of the store.
  pub advance : Kv → Request → Request × Kv
  unfolding advance_at
  advance kv r = advance_at r.phase kv r

  -- The requests a and b; `true` in the schedule lets a make its next call, `false` b.
  pub interleave : List Bool → Kv → Request → Request → Request × Request × Kv
  interleave [] kv a b = (a, b, kv)
  interleave (true ∷ bs) kv a b = let (a', kv') = advance kv a in interleave bs kv' a' b
  interleave (false ∷ bs) kv a b = let (b', kv') = advance kv b in interleave bs kv' a b'

  abbrev pub start : String → String → String → ℕ → Request
  start old new user ttl = record {
    old_jti = old;
    new_jti = new;
    user_id = user;
    ttl = ttl;
    phase = checking;
  }

  -- Three calls with nothing in between are Rotate.
  advance-rotate :
      (kv : Kv) (old new user : String) (ttl : ℕ) (b : Request)
      → let (a', b', kv') = interleave (true ∷ true ∷ true ∷ []) kv (start old new user ttl) b in
        (a'.phase ≡ returned (rotate o kv old new user ttl).0)
        × (kv' ≡ (rotate o kv old new user ttl).1)
        × (b' ≡ b)
  unfolding interleave advance rotate replace
  advance-rotate kv old new user ttl b = ground arith

  -- Both requests check, then both delete, then both set.
  abbrev lockstep : List Bool
  lockstep = true ∷ false ∷ true ∷ false ∷ true ∷ false ∷ []

  module _ (a : Answers o) where
    holder-set :
        (kv : Kv) (jti user j : String) (ttl : ℕ)
        → holder o a (set kv (refresh_key jti) user ttl).1 j
          ≡ (if str_eq jti j then some user else holder o a kv j)
    holder-set kv jti user j ttl = rw (a.held-set, refresh_key-eq jti j)

    lockstep_lem :
        (kv : Kv) (old new₁ new₂ user₁ user₂ : String) (ttl : ℕ) {u : String}
        → holder o a kv old ≡ some u
        → let (r₁, r₂, kv') =
            interleave lockstep kv (start old new₁ user₁ ttl) (start old new₂ user₂ ttl) in
          (r₁.phase ≡ returned none)
          × (r₂.phase ≡ returned none)
          × (kv'
              ≡ (set
                  (set
                    (del (del kv (refresh_key old)).1 (refresh_key old)).1
                    (refresh_key new₁)
                    user₁
                    ttl).1
                  (refresh_key new₂)
                  user₂
                  ttl).1)
    unfolding interleave advance
    lockstep_lem kv old new₁ new₂ user₁ user₂ ttl {u} h =
        let k = refresh_key old in
        let kv₁ = (del kv k).1 in
        let kv₂ = (del kv₁ k).1 in
        let kv₃ = (set kv₂ (refresh_key new₁) user₁ ttl).1 in
        let found : get kv k ≡ some (some u) = a.get_lem kv k ∙ ap (λ r. some r) h in
        rw
          (
            found,
            a.del_lem kv k,
            a.del_lem kv₁ k,
            a.set_lem kv₂ (refresh_key new₁) user₁ ttl,
            a.set_lem kv₃ (refresh_key new₂) user₂ ttl,
          )
          (refl, refl, refl)

    -- Rotate is not atomic: from every whitelist that holds a token, over a store that answers,
    -- there is an order of the store calls of two requests that rotate it to different tokens in
    -- which both succeed, and then both new tokens are in the whitelist.
    pub race_rotates_twice :
        (kv : Kv) (old new₁ new₂ user₁ user₂ : String) (ttl : ℕ) {u : String}
        → holder o a kv old ≡ some u
        → new₁ ≢ new₂
        → (schedule : List Bool) × (let (r₁, r₂, kv') =
              interleave schedule kv (start old new₁ user₁ ttl) (start old new₂ user₂ ttl) in
            (r₁.phase ≡ returned none)
            × (r₂.phase ≡ returned none)
            × (holder o a kv' new₁ ≡ some user₁)
            × (holder o a kv' new₂ ≡ some user₂))
    race_rotates_twice kv old new₁ new₂ user₁ user₂ ttl h ne =
        let (d₁, d₂, e) = lockstep_lem kv old new₁ new₂ user₁ user₂ ttl h in
        let other : str_eq new₂ new₁ ≡ false =
          ground (arith, eq_iff new₂ new₁, λ (p : new₂ ≡ new₁). ne (sym p)) in
        let kv₂ = (del (del kv (refresh_key old)).1 (refresh_key old)).1 in
        let kv₃ = (set kv₂ (refresh_key new₁) user₁ ttl).1 in
        (
          lockstep,
          (
            d₁,
            d₂,
            rw (
              e,
              holder-set kv₃ new₂ user₂ new₁ ttl,
              other,
              holder-set kv₂ new₁ user₁ new₁ ttl,
              (eq_iff new₁ new₁).1 refl,
            ),
            rw (e, holder-set kv₃ new₂ user₂ new₂ ttl, (eq_iff new₂ new₂).1 refl),
          ),
        )
