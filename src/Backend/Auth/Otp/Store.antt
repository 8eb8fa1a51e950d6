-- ===== src/Backend/Auth/Otp/Store.antt =====
-- The interface OtpStore of backend/internal/auth/otp.go, and what its comments promise.
use qr_domofon.Base.{
  ℕ, String, ◌≡◌, Bool, true, Option, none, some, List, str_eq, ltb, if◌then◌else◌,
}

pub record OtpRecord : Type 0 where
  pub code : List ℕ
  pub attempts : ℕ
  pub expires_at : ℕ

pub record OtpStore : Type 1 where
  pub Store : Type 0
  pub incr_requests : Store → String → ℕ → ℕ → Option ℕ × Store
  pub get_otp : Store → String → ℕ → Option (Option OtpRecord)
  pub set_otp : Store → String → OtpRecord → Bool × Store
  pub del_otp : Store → String → Bool × Store
  pub is_blocked : Store → String → ℕ → Option Bool
  pub block : Store → String → ℕ → Bool × Store

-- A record that has not expired.
abbrev pub active : ℕ → Option OtpRecord → Option OtpRecord
active now none = none
active now (some rec) = if ltb now rec.expires_at then some rec else none

module _ (o : OtpStore) where
  open o use {Store, incr_requests, get_otp, set_otp, del_otp, is_blocked, block}

  -- A store that answers every call, as the comments of the interface say: what it holds for a phone
  -- is a record, which it shows until it expires, and a time up to which the phone is blocked.
  pub record Answers : Type 0 where
    pub held : Store → String → Option OtpRecord
    pub blocked_until : Store → String → ℕ
    pub get_otp_lem :
        (s : Store) (p : String) (now : ℕ) → get_otp s p now ≡ some (active now (held s p))
    pub is_blocked_lem :
        (s : Store) (p : String) (now : ℕ) → is_blocked s p now ≡ some (ltb now (blocked_until s p))
    pub held-set_otp :
        (s : Store) (p q : String) (rec : OtpRecord)
        → held (set_otp s p rec).1 q ≡ (if str_eq p q then some rec else held s q)
    pub blocked_until-set_otp :
        (s : Store) (p q : String) (rec : OtpRecord)
        → blocked_until (set_otp s p rec).1 q ≡ blocked_until s q
    pub held-del_otp :
        (s : Store) (p q : String)
        → held (del_otp s p).1 q ≡ (if str_eq p q then none else held s q)
    pub blocked_until-del_otp :
        (s : Store) (p q : String) → blocked_until (del_otp s p).1 q ≡ blocked_until s q
    pub held-block : (s : Store) (p q : String) (t : ℕ) → held (block s p t).1 q ≡ held s q
    pub blocked_until-block :
        (s : Store) (p q : String) (t : ℕ)
        → blocked_until (block s p t).1 q ≡ (if str_eq p q then t else blocked_until s q)
    pub del_otp_lem : (s : Store) (p : String) → (del_otp s p).0 ≡ true
    pub held-incr_requests :
        (s : Store) (p q : String) (window now : ℕ)
        → held (incr_requests s p window now).1 q ≡ held s q
    pub blocked_until-incr_requests :
        (s : Store) (p q : String) (window now : ℕ)
        → blocked_until (incr_requests s p window now).1 q ≡ blocked_until s q
