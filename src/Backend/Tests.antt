-- ===== src/Backend/Tests.antt =====
-- Runs of the server's authentication, backend/internal/auth, over stores that are functions.
mod Doors
mod Calls
mod Guests
mod Onboarding
mod Composite
mod Tables
mod Invites
mod Grants
mod Links
mod Schedules
mod Sessions
mod Codes
use qr_domofon.Base.{
  ℕ, ◌+◌, ◌*◌, ◌<◌, String, ◌≡◌, refl, ◌≢◌, ◌↔◌, Bool, true, false, Option, none, some, List, [],
  ◌∷◌, map, arith, str_eq, eq_iff, ltb, if◌then◌else◌, All,
}
use qr_domofon.Base.Time.{minute}
use qr_domofon.Backend.Httpx.{err}
use qr_domofon.Backend.Auth.Otp.{
  verify, send, bytes_eq, digit, otp_ttl, otp_block_ttl, wrong_code, too_many,
}
use qr_domofon.Backend.Auth.Otp.Store
use qr_domofon.Backend.Auth.Otp.Store.{OtpRecord, OtpStore, active}
use qr_domofon.Backend.Auth.Otp.Lockout.{wrong_codes_block, run_verify, last_time}
use qr_domofon.Backend.Auth.Otp.Once.{verify_iff, verify_once, send-verify}
use qr_domofon.Backend.Auth.Refresh.{not_in_whitelist, rotate, refresh_key}
use qr_domofon.Backend.Auth.Refresh.Store.{RefreshKv, Answers}
use qr_domofon.Backend.Auth.Refresh.Sequential.{holder, rotate_lem, rotate_twice}
use qr_domofon.Backend.Auth.Refresh.Race.{interleave, returned, start, race_rotates_twice}

-- Two functions of the phone, and a count of requests.
record Phones : Type 0 where
  records : String → Option OtpRecord
  blocks : String → ℕ
  requests : ℕ

abbrev update {ℓ} : {A : Type ℓ} → (String → A) → String → A → String → A
update f k v j = if str_eq k j then v else f j

abbrev otp_store : OtpStore
otp_store = record {
  Store = Phones;
  incr_requests = λ s _ _ _. (some (s.requests + 1), record s { requests = s.requests + 1 });
  get_otp = λ s p now. some (active now (s.records p));
  set_otp = λ s p r. (true, record s { records = update s.records p (some r) });
  del_otp = λ s p. (true, record s { records = update s.records p none });
  is_blocked = λ s p now. some (ltb now (s.blocks p));
  block = λ s p t. (true, record s { blocks = update s.blocks p t });
}

abbrev otp_answers : Store.Answers otp_store
otp_answers = record {
  held = λ s. s.records;
  blocked_until = λ s. s.blocks;
  get_otp_lem = λ s p now. refl;
  is_blocked_lem = λ s p now. refl;
  held-set_otp = λ s p q r. refl;
  blocked_until-set_otp = λ s p q r. refl;
  held-del_otp = λ s p q. refl;
  blocked_until-del_otp = λ s p q. refl;
  held-block = λ s p q t. refl;
  blocked_until-block = λ s p q t. refl;
  del_otp_lem = λ s p. refl;
  held-incr_requests = λ s p q w now. refl;
  blocked_until-incr_requests = λ s p q w now. refl;
}

abbrev issued : OtpRecord
issued = record { code = 1 ∷ []; attempts = 3; expires_at = 5 * minute }

abbrev phones : Phones
phones = record { records = λ _. some issued; blocks = λ _. 0; requests = 0 }

abbrev guesses : List (List ℕ × ℕ)
guesses = (2 ∷ [], 10) ∷ (3 ∷ [], 20) ∷ []

wrong_codes_block_example :
    All (λ r. r ≡ some wrong_code) (run_verify otp_store phones "+7" guesses).0
    × ((code : List ℕ) (now : ℕ) (random : ℕ → Option (List ℕ))
          (sender : String → List ℕ → Option (List ℕ))
        → now < last_time 0 guesses + otp_block_ttl
        → ((verify otp_store (run_verify otp_store phones "+7" guesses).1 "+7" code now).0
            ≡ some too_many)
          × ((send otp_store random sender (run_verify otp_store phones "+7" guesses).1 "+7" now).0
              ≡ err too_many))
unfolding bytes_eq
wrong_codes_block_example =
    wrong_codes_block otp_store otp_answers phones "+7" issued 0 guesses refl (omega arith)
      (omega arith) ((refl, omega arith, omega arith), ((refl, omega arith, omega arith), tt)) refl

abbrev random : ℕ → Option (List ℕ)
random n = some (1 ∷ 2 ∷ 3 ∷ 4 ∷ 5 ∷ 255 ∷ [])

abbrev sender : String → List ℕ → Option (List ℕ)
sender phone code = some code

send-verify_example :
    ((verify otp_store
        (send otp_store random sender phones "+7" 10).1
        "+7"
        (map digit (1 ∷ 2 ∷ 3 ∷ 4 ∷ 5 ∷ 255 ∷ []))
        20).0
      ≡ none)
    ↔ (20 < 10 + otp_ttl)
unfolding send
send-verify_example =
    send-verify otp_store otp_answers random sender phones "+7" 10 20 (1 ∷ 2 ∷ 3 ∷ 4 ∷ 5 ∷ 255 ∷ [])
      (record { sent = true; dev_code = map digit (1 ∷ 2 ∷ 3 ∷ 4 ∷ 5 ∷ 255 ∷ []) }) refl refl
      (omega arith)

abbrev kv_store : RefreshKv
kv_store = record {
  Kv = String → Option String;
  set = λ kv k v _. (true, update kv k (some v));
  get = λ kv k. some (kv k);
  del = λ kv k. (true, update kv k none);
}

abbrev kv_answers : Answers kv_store
kv_answers = record {
  held = λ kv k. kv k;
  get_lem = λ kv k. refl;
  set_lem = λ kv k v t. refl;
  del_lem = λ kv k. refl;
  held-set = λ kv k v j t. refl;
  held-del = λ kv k j. refl;
}

abbrev tokens : String → Option String
tokens k = if str_eq k (refresh_key "j1") then some "u1" else none

race_rotates_twice_example :
    (schedule : List Bool) × (let (r₁, r₂, kv') =
        interleave kv_store schedule tokens
          (start kv_store "j1" "j2" "u1" 9)
          (start kv_store "j1" "j3" "u1" 9) in
      (r₁.phase ≡ returned none)
      × (r₂.phase ≡ returned none)
      × (holder kv_store kv_answers kv' "j2" ≡ some "u1")
      × (holder kv_store kv_answers kv' "j3" ≡ some "u1"))
race_rotates_twice_example =
    race_rotates_twice kv_store kv_answers tokens "j1" "j2" "j3" "u1" "u1" 9 refl
      (λ e. ground (arith, eq_iff "j2" "j3"))
