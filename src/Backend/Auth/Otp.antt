-- ===== src/Backend/Auth/Otp.antt =====
-- backend/internal/auth/otp.go: one-time codes for a phone. The store and the sender are interfaces
-- of that file; their calls may fail, which is `none` or `false` here. A code is the list of its
-- bytes.
pub mod Store
pub mod Lockout
pub mod Once
use qr_domofon.Base.{
  ℕ, suc, ◌+◌, ◌*◌, ◌%◌, String, Bool, true, false, not, ◌&&◌, Option, none, some, List, [], ◌∷◌,
  map, ltb, leb, ◌==◌, if◌then◌else◌,
}
use qr_domofon.Base.Time.{minute}
use qr_domofon.Backend.Httpx.{
  ApiError, new_error, internal, rate_limit, unauthorized, Result, ok, err,
}
use Store.{OtpRecord, OtpStore}

abbrev pub otp_ttl : ℕ
otp_ttl = 5 * minute

abbrev pub otp_request_window : ℕ
otp_request_window = 10 * minute

abbrev pub otp_max_requests : ℕ
otp_max_requests = 3

abbrev pub otp_max_attempts : ℕ
otp_max_attempts = 5

abbrev pub otp_block_ttl : ℕ
otp_block_ttl = 30 * minute

abbrev pub otp_code_len : ℕ
otp_code_len = 6

-- `otpDigits[int(buf[i])%len(otpDigits)]`.
abbrev pub digit : ℕ → ℕ
digit byte = b'0' + byte % 10

-- `rand.Read` fills a buffer of the given length, or fails.
unfoldable pub generate_otp_code : (ℕ → Option (List ℕ)) → ℕ → Option (List ℕ)
generate_otp_code random n = elim (random n) [ none ↦ none | some buf ↦ some (map digit buf) ]

pub record SendResult : Type 0 where
  pub sent : Bool
  pub dev_code : List ℕ

-- `subtle.ConstantTimeCompare` of two byte slices.
unfoldable pub bytes_eq : List ℕ → List ℕ → Bool
bytes_eq [] [] = true
bytes_eq (a ∷ as') (b ∷ bs) = a == b && bytes_eq as' bs
bytes_eq _ _ = false

abbrev store_error : ApiError
store_error = new_error internal "otp store error"

abbrev pub too_many : ApiError
too_many = new_error rate_limit "too many requests"

abbrev pub wrong_code : ApiError
wrong_code = new_error unauthorized "invalid or expired code"

module _ (o : OtpStore) where
  open o use {Store, incr_requests, get_otp, set_otp, del_otp, is_blocked, block}

  -- From the generated code on.
  send_code :
      (String → List ℕ → Option (List ℕ)) → Store → String → ℕ → List ℕ → Result SendResult × Store
  send_code sender s phone now code =
      let (stored, s') =
        set_otp s phone (record { code = code; attempts = 0; expires_at = now + otp_ttl }) in
      if not stored then (err store_error, s') else elim (sender phone code) [
        | none ↦ (err (new_error internal "otp send failed"), s')
        | some dev_code ↦ (ok (record { sent = true; dev_code = dev_code }), s')
      ]

  -- From the count of requests on.
  send_counted :
      (ℕ → Option (List ℕ))
      → (String → List ℕ → Option (List ℕ))
      → Store
      → String
      → ℕ
      → ℕ
      → Result SendResult × Store
  unfolding send_code generate_otp_code
  send_counted random sender s phone now count =
      if ltb otp_max_requests count
      then (err too_many, s)
      else elim (generate_otp_code random otp_code_len) [
        | none ↦ (err (new_error internal "otp generation failed"), s)
        | some code ↦ send_code sender s phone now code
      ]

  unfoldable pub send :
      (ℕ → Option (List ℕ))
      → (String → List ℕ → Option (List ℕ))
      → Store
      → String
      → ℕ
      → Result SendResult × Store
  unfolding send_counted
  send random sender s phone now = elim (is_blocked s phone now) [
    | none ↦ (err store_error, s)
    | some true ↦ (err too_many, s)
    | some false ↦
        let (count, s') = incr_requests s phone otp_request_window now in
        elim count [
          | none ↦ (err store_error, s')
          | some n ↦ send_counted random sender s' phone now n
        ]
  ]

  -- The count of a wrong attempt on an active record; a failure of the store is dropped.
  count_attempt : Store → String → ℕ → OtpRecord → Store
  count_attempt s phone now rec =
      let rec' : OtpRecord = record rec { attempts = rec.attempts + 1 } in
      if leb otp_max_attempts rec'.attempts
      then (block s phone (now + otp_block_ttl)).1
      else (set_otp s phone rec').1

  check_code : Store → String → List ℕ → ℕ → Option OtpRecord → Option ApiError × Store
  unfolding count_attempt
  check_code s phone code now none = (some wrong_code, s)
  check_code s phone code now (some rec) =
      if not (bytes_eq rec.code code)
      then (some wrong_code, count_attempt s phone now rec)
      else let (deleted, s') = del_otp s phone in
        if not deleted then (some store_error, s') else (none, s')

  unfoldable pub verify : Store → String → List ℕ → ℕ → Option ApiError × Store
  unfolding check_code
  verify s phone code now = elim (is_blocked s phone now) [
    | none ↦ (some store_error, s)
    | some true ↦ (some too_many, s)
    | some false ↦ elim (get_otp s phone now) [
      | none ↦ (some store_error, s)
      | some found ↦ check_code s phone code now found
    ]
  ]
