-- ===== src/Backend/Auth/Otp/Lockout.antt =====
-- The block of backend/internal/auth/otp.go after wrong codes.
use qr_domofon.Base.{
  ℕ, ◌+◌, ◌≤◌, ◌<◌, String, ◌≡◌, refl, ap, ◌∙◌, true, false, Option, some, List, [], ◌∷◌, arith,
  length, leb, le→leb, All, eq_iff,
}
use qr_domofon.Backend.Httpx.{ApiError, err}
use qr_domofon.Backend.Auth.Otp.Store.{OtpRecord, OtpStore, Answers}
use qr_domofon.Backend.Auth.Otp.{
  otp_max_attempts, otp_block_ttl, bytes_eq, verify, too_many, wrong_code, count_attempt, send,
}

-- Wrong codes at times that do not fall, while the record is active; and the time of the last.
abbrev pub WrongGuesses : OtpRecord → ℕ → List (List ℕ × ℕ) → Type 0
WrongGuesses rec t [] = Unit
WrongGuesses rec t ((code, u) ∷ gs) =
    ((bytes_eq rec.code code ≡ false) × (t ≤ u) × (u < rec.expires_at)) × WrongGuesses rec u gs

abbrev pub last_time : ℕ → List (List ℕ × ℕ) → ℕ
last_time t [] = t
last_time t ((_, u) ∷ gs) = last_time u gs

module _ (o : OtpStore) where
  open o use {Store}

  unfoldable pub run_verify : Store → String → List (List ℕ × ℕ) → List (Option ApiError) × Store
  run_verify s phone [] = ([], s)
  run_verify s phone ((code, u) ∷ gs) =
      let (r, s') = verify o s phone code u in
      let (rs, s'') = run_verify s' phone gs in (r ∷ rs, s'')

module _ (o : OtpStore) (a : Answers o) where
  open o use {Store}
  open a use {held, blocked_until}

  -- The phone is not blocked at `t`, and has a record that is active then.
  record Holds (s : Store) (phone : String) (rec : OtpRecord) (t : ℕ) : Type 0 where
    record_held : held s phone ≡ some rec
    alive : t < rec.expires_at
    unblocked : blocked_until s phone ≤ t

  verify_wrong :
      (s : Store) (phone : String) (rec : OtpRecord) (code : List ℕ) (t : ℕ)
      → Holds s phone rec t
      → bytes_eq rec.code code ≡ false
      → verify o s phone code t ≡ (some wrong_code, count_attempt o s phone t rec)
  unfolding verify
  verify_wrong s phone rec code t h wrong =
      let open_now : o.is_blocked s phone t ≡ some false =
        a.is_blocked_lem s phone t ∙ ap (λ b. some b) (ground (arith, h.unblocked)) in
      let shown : o.get_otp s phone t ≡ some (some rec) =
        a.get_otp_lem s phone t ∙ ap (λ r. some r) (rw h.record_held (ground (arith, h.alive))) in
      rw (open_now, verify, shown, wrong)

  abbrev bumped : OtpRecord → OtpRecord
  bumped rec = record rec { attempts = rec.attempts + 1 }

  -- A wrong attempt that is not yet the fifth is counted in the record.
  count_attempt_early :
      (s : Store) (phone : String) (t : ℕ) (rec : OtpRecord)
      → rec.attempts + 1 < otp_max_attempts
      → (held (count_attempt o s phone t rec) phone ≡ some (bumped rec))
        × (blocked_until (count_attempt o s phone t rec) phone ≡ blocked_until s phone)
  unfolding count_attempt
  count_attempt_early s phone t rec few =
      let early : leb otp_max_attempts (rec.attempts + 1) ≡ false = ground arith in
      (
        rw (early, count_attempt, a.held-set_otp, (eq_iff phone phone).1 refl),
        rw (early, count_attempt, a.blocked_until-set_otp),
      )

  -- The fifth blocks the phone.
  count_attempt_last :
      (s : Store) (phone : String) (t : ℕ) (rec : OtpRecord)
      → otp_max_attempts ≤ rec.attempts + 1
      → blocked_until (count_attempt o s phone t rec) phone ≡ t + otp_block_ttl
  unfolding count_attempt
  count_attempt_last s phone t rec many =
      rw (le→leb _ _ many, count_attempt, a.blocked_until-block, (eq_iff phone phone).1 refl)

  run_verify_wrong :
      (gs : List (List ℕ × ℕ)) (s : Store) (phone : String) (rec : OtpRecord) (t : ℕ)
      → held s phone ≡ some rec
      → blocked_until s phone ≤ t
      → WrongGuesses rec t gs
      → rec.attempts < otp_max_attempts
      → rec.attempts + length gs ≡ otp_max_attempts
      → (blocked_until (run_verify o s phone gs).1 phone ≡ last_time t gs + otp_block_ttl)
        × All (λ r. r ≡ some wrong_code) (run_verify o s phone gs).0
  unfolding run_verify
  run_verify_wrong [] s phone rec t h b w low n = absurd (omega arith)
  run_verify_wrong ((code, u) ∷ []) s phone rec t h b ((wrong, le, alive), _) low n =
      let e =
        verify_wrong s phone rec code u
          (record { record_held = h; alive = alive; unblocked = omega arith }) wrong in
      (rw e (count_attempt_last s phone u rec (omega arith)), (rw e refl, tt))
  run_verify_wrong ((code, u) ∷ (code', u') ∷ gs) s phone rec t h b ((wrong, le, alive), w) low n =
      let e =
        verify_wrong s phone rec code u
          (record { record_held = h; alive = alive; unblocked = omega arith }) wrong in
      let (h', b') = count_attempt_early s phone u rec (omega arith) in
      let (blocked, rest) =
        run_verify_wrong ((code', u') ∷ gs) (count_attempt o s phone u rec) phone (bumped rec) u h'
          (omega (arith, b')) w (omega arith) (omega arith) in
      (rw e blocked, (rw e refl, rw e rest))

  blocked_refuses :
      (s : Store) (phone : String) (code : List ℕ) (now : ℕ) (random : ℕ → Option (List ℕ))
      (sender : String → List ℕ → Option (List ℕ))
      → now < blocked_until s phone
      → ((verify o s phone code now).0 ≡ some too_many)
        × ((send o random sender s phone now).0 ≡ err too_many)
  unfolding verify send
  blocked_refuses s phone code now random sender h =
      let shut : o.is_blocked s phone now ≡ some true =
        a.is_blocked_lem s phone now ∙ ap (λ b. some b) (ground arith) in
      (rw (shut, verify), rw (shut, send))

  -- Over a store that answers, for a phone that is not blocked and has an active record, the
  -- wrong codes that make five attempts are each answered UNAUTHORIZED; then, until 30 minutes
  -- after the last of them, Verify refuses every code and Send every request with RATE_LIMIT.
  pub wrong_codes_block :
      (s : Store) (phone : String) (rec : OtpRecord) (t : ℕ) (gs : List (List ℕ × ℕ))
      → held s phone ≡ some rec
      → blocked_until s phone ≤ t
      → rec.attempts < otp_max_attempts
      → WrongGuesses rec t gs
      → rec.attempts + length gs ≡ otp_max_attempts
      → All (λ r. r ≡ some wrong_code) (run_verify o s phone gs).0
        × ((code : List ℕ) (now : ℕ) (random : ℕ → Option (List ℕ))
              (sender : String → List ℕ → Option (List ℕ))
            → now < last_time t gs + otp_block_ttl
            → ((verify o (run_verify o s phone gs).1 phone code now).0 ≡ some too_many)
              × ((send o random sender (run_verify o s phone gs).1 phone now).0 ≡ err too_many))
  wrong_codes_block s phone rec t gs h b low w n =
      let (until, all) = run_verify_wrong gs s phone rec t h b w low n in
      (
        all,
        λ code now random sender early.
            blocked_refuses _ phone code now random sender (rw until early),
      )
