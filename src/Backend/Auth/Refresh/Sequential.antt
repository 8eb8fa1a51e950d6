-- ===== src/Backend/Auth/Refresh/Sequential.antt =====
-- The life of a refresh token in backend/internal/auth/refresh_store.go, one call after another.
use text.Mathlib.TextLemmas.{append_cancel_left}
use mathlib.Core.Bool.{false≢true}
use qr_domofon.Base.{
  ℕ, String, ◌≡◌, refl, sym, ap, ◌∙◌, ◌≢◌, false, Option, none, some, arith, str_eq, eq_iff,
  if◌then◌else◌, Option-cases, inl, inr, Bool-cases,
}
use qr_domofon.Backend.Auth.Refresh.Store.{RefreshKv, Answers}
use qr_domofon.Backend.Auth.Refresh.{refresh_key, not_in_whitelist, rotate, replace}

pub refresh_key-injective : (a b : String) → refresh_key a ≡ refresh_key b → a ≡ b
refresh_key-injective a b h = append_cancel_left "auth:refresh:" a b h

-- The keys are equal exactly when the tokens are.
pub refresh_key-eq : (a b : String) → str_eq (refresh_key a) (refresh_key b) ≡ str_eq a b
refresh_key-eq a b = elim (Bool-cases (str_eq a b)) [
  | inl same ↦ rw same ((eq_iff _ _).1 (ap refresh_key ((eq_iff a b).0 same)))
  | inr other ↦ elim (Bool-cases (str_eq (refresh_key a) (refresh_key b))) [
    | inl keys ↦
        absurd (
          false≢true (sym other ∙ (eq_iff a b).1 (refresh_key-injective a b ((eq_iff _ _).0 keys))))
    | inr keys ↦ keys ∙ sym other
  ]
]

module _ (o : RefreshKv) (a : Answers o) where
  open o use {Kv}
  open a use {held}

  -- The user of a token in the whitelist.
  abbrev pub holder : Kv → String → Option String
  holder kv jti = held kv (refresh_key jti)

  replace_lem :
      (kv : Kv) (old new user : String) (ttl : ℕ)
      → ((replace o kv old new user ttl).0 ≡ none)
        × ((j : String)
            → holder (replace o kv old new user ttl).1 j
              ≡ (if str_eq new j then some user else if str_eq old j then none else holder kv j))
  unfolding replace
  replace_lem kv old new user ttl = (
    rw (a.del_lem, replace, a.set_lem),
    λ j.
        rw (a.del_lem, replace, a.held-set, a.held-del, refresh_key-eq new j, refresh_key-eq old j),
  )

  -- Over a store that answers, Rotate of a token that is not in the whitelist is refused and
  -- changes nothing; of one that is in it, it succeeds, and then the new token stands for the
  -- user, the old one is out, and all others are as they were.
  pub rotate_lem :
      (kv : Kv) (old new user : String) (ttl : ℕ)
      → ((holder kv old ≡ none) → rotate o kv old new user ttl ≡ (some not_in_whitelist, kv))
        × ((holder kv old ≢ none)
            → ((rotate o kv old new user ttl).0 ≡ none)
              × ((j : String)
                  → holder (rotate o kv old new user ttl).1 j ≡ (
                      if str_eq new j
                      then some user
                      else if str_eq old j
                      then none
                      else holder kv j)))
  unfolding rotate
  rotate_lem kv old new user ttl = (
    λ out. ground (arith, a.get_lem kv (refresh_key old)),
    λ present. elim (Option-cases (holder kv old)) [
      | inl out ↦ absurd (present out)
      | inr (u, e) ↦
          let found : o.get kv (refresh_key old) ≡ some (some u) =
            a.get_lem kv (refresh_key old) ∙ ap (λ r. some r) e in
          rw (found, rotate) (replace_lem kv old new user ttl)
    ],
  )

  -- Over a store that answers, after a successful Rotate of a token to a different one, Rotate of
  -- the old token is refused, whatever new token it asks for.
  pub rotate_twice :
      (kv : Kv) (old new new' user user' : String) (ttl ttl' : ℕ)
      → old ≢ new
      → (rotate o kv old new user ttl).0 ≡ none
      → (rotate o (rotate o kv old new user ttl).1 old new' user' ttl').0 ≡ some not_in_whitelist
  rotate_twice kv old new new' user user' ttl ttl' ne done =
      let present : holder kv old ≢ none =
        λ out. cc ((rotate_lem kv old new user ttl).0 out, done) in
      let (_, after) = (rotate_lem kv old new user ttl).1 present in
      let other : str_eq new old ≡ false =
        ground (arith, eq_iff new old, λ (e : new ≡ old). ne (sym e)) in
      let out : holder (rotate o kv old new user ttl).1 old ≡ none =
        after old ∙ rw (other, (eq_iff old old).1 refl) in
      rw ((rotate_lem (rotate o kv old new user ttl).1 old new' user' ttl').0 out)
