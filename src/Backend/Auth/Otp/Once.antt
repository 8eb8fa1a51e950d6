-- ===== src/Backend/Auth/Otp/Once.antt =====
-- What a code of backend/internal/auth/otp.go is good for.
use qr_domofon.Base.{
  ℕ, ◌+◌, ◌≤◌, ◌<◌, String, ◌≡◌, refl, ap, ◌∙◌, ◌≢◌, ◌↔◌, true, false, Option, none, some, List, [],
  ◌∷◌, arith, eq_iff, Option-cases, inl, inr, map,
}
use qr_domofon.Backend.Httpx.{ok}
use qr_domofon.Backend.Auth.Otp.Store.{OtpRecord, OtpStore, Answers, active}
use qr_domofon.Backend.Auth.Otp.{
  otp_code_len, otp_ttl, digit, bytes_eq, SendResult, verify, send, otp_request_window,
}

bytes_eq_iff : (xs ys : List ℕ) → (bytes_eq xs ys ≡ true) ↔ (xs ≡ ys)
unfolding bytes_eq
bytes_eq_iff [] [] = (λ _. refl, λ _. refl)
bytes_eq_iff [] (y ∷ ys) = (λ e. cc, λ e. cc)
bytes_eq_iff (x ∷ xs) [] = (λ e. cc, λ e. cc)
bytes_eq_iff (x ∷ xs) (y ∷ ys) =
    (λ e. ground (arith, bytes_eq_iff xs ys), λ e. ground (arith, bytes_eq_iff xs ys))

module _ (o : OtpStore) where
  open o use {Store}

  -- Verify accepts a code exactly when the store says that the phone is not blocked, shows an
  -- active record with that code, and deletes it; so for every store, one that fails too, a
  -- failure lets no code through.
  pub verify_iff :
      (s : Store) (phone : String) (code : List ℕ) (now : ℕ)
      → ((verify o s phone code now).0 ≡ none) ↔ (
          (o.is_blocked s phone now ≡ some false)
          × ((rec : OtpRecord) × (o.get_otp s phone now ≡ some (some rec)) × (rec.code ≡ code))
          × ((o.del_otp s phone).0 ≡ true))
  unfolding verify
  verify_iff s phone code now = (
    λ e. (
      ground arith,
      elim (Option-cases (o.get_otp s phone now)) [
        | inl faulty ↦ absurd (ground arith)
        | inr (found, shown) ↦ elim (Option-cases found) [
          | inl missing ↦ absurd (ground arith)
          | inr (rec, is_rec) ↦
              (rec, shown ∙ ap (λ r. some r) is_rec, (bytes_eq_iff rec.code code).0 (ground arith))
        ]
      ],
      ground arith,
    ),
    λ (unblocked, (rec, shown, same), deleted).
        rw (unblocked, verify, shown, (bytes_eq_iff rec.code code).1 same, deleted),
  )

  module _ (a : Answers o) where
    open a use {held, blocked_until}

    held-set_self :
        (s : Store) (p : String) (rec : OtpRecord) → held (o.set_otp s p rec).1 p ≡ some rec
    held-set_self s p rec = rw (a.held-set_otp, (eq_iff p p).1 refl)

    held-del_self : (s : Store) (p : String) → held (o.del_otp s p).1 p ≡ none
    held-del_self s p = rw (a.held-del_otp, (eq_iff p p).1 refl)

    active_alive :
        (now : ℕ) (rec rec' : OtpRecord) → active now (some rec) ≡ some rec' → now < rec.expires_at
    active_alive now rec rec' h = ground arith

    -- Over a store that answers, once a code was accepted for a phone, the next Verify for it
    -- accepts no code.
    pub verify_once :
        (s : Store) (phone : String) (code code' : List ℕ) (t now : ℕ)
        → (verify o s phone code t).0 ≡ none
        → (verify o (verify o s phone code t).1 phone code' now).0 ≢ none
    unfolding verify
    verify_once s phone code code' t now accepted again =
        let (unblocked, (rec, shown, same), deleted) = (verify_iff s phone code t).0 accepted in
        let after : (verify o s phone code t).1 ≡ (o.del_otp s phone).1 =
          rw (unblocked, verify, shown, (bytes_eq_iff rec.code code).1 same, deleted) in
        let (_, (rec', shown', _), _) =
          (verify_iff (verify o s phone code t).1 phone code' now).0 again in
        let gone : o.get_otp (o.del_otp s phone).1 phone now ≡ some none =
          rw (a.get_otp_lem, held-del_self s phone) in
        let shown_gone : o.get_otp (o.del_otp s phone).1 phone now ≡ some (some rec') =
          rw after at shown' in
        cc (gone, shown_gone)

    abbrev sent_record : List ℕ → ℕ → OtpRecord
    sent_record buf t = record { code = map digit buf; attempts = 0; expires_at = t + otp_ttl }

    send_ok :
        (random : ℕ → Option (List ℕ)) (sender : String → List ℕ → Option (List ℕ)) (s : Store)
        (phone : String) (t : ℕ) (buf : List ℕ) (r : SendResult)
        → random otp_code_len ≡ some buf
        → (send o random sender s phone t).0 ≡ ok r
        → (blocked_until s phone ≤ t)
          × ((send o random sender s phone t).1
              ≡ (o.set_otp
                  (o.incr_requests s phone otp_request_window t).1
                  phone
                  (sent_record buf t)).1)
    unfolding send
    send_ok random sender s phone t buf r filled sent =
        (ground (arith, a.is_blocked_lem s phone t), ground arith)

    -- Over a store that answers, the code that Send has sent is accepted by the next Verify at a
    -- later time exactly when 5 minutes have not yet passed.
    pub send-verify :
        (random : ℕ → Option (List ℕ)) (sender : String → List ℕ → Option (List ℕ)) (s : Store)
        (phone : String) (t now : ℕ) (buf : List ℕ) (r : SendResult)
        → random otp_code_len ≡ some buf
        → (send o random sender s phone t).0 ≡ ok r
        → t ≤ now
        → ((verify o (send o random sender s phone t).1 phone (map digit buf) now).0 ≡ none)
          ↔ (now < t + otp_ttl)
    send-verify random sender s phone t now buf r filled sent later =
        let s₁ = (o.incr_requests s phone otp_request_window t).1 in
        let s₂ = (o.set_otp s₁ phone (sent_record buf t)).1 in
        let (unblocked, after) = send_ok random sender s phone t buf r filled sent in
        let shut : blocked_until s₂ phone ≤ now = omega (
          arith,
          a.blocked_until-set_otp s₁ phone phone (sent_record buf t),
          a.blocked_until-incr_requests s phone phone otp_request_window t,
        ) in
        let open_now : o.is_blocked s₂ phone now ≡ some false =
          a.is_blocked_lem s₂ phone now ∙ ap (λ b. some b) (ground arith) in
        let shown : o.get_otp s₂ phone now ≡ some (active now (some (sent_record buf t))) =
          rw (a.get_otp_lem, held-set_self s₁ phone (sent_record buf t)) in
        rw after (
          λ accepted.
              let (_, (rec, shown', _), _) = (verify_iff s₂ phone (map digit buf) now).0 accepted in
              active_alive now (sent_record buf t) rec (cc (shown, shown')),
          λ early.
              (verify_iff s₂ phone (map digit buf) now).1
                (open_now, (sent_record buf t, shown ∙ ground arith, refl), a.del_otp_lem s₂ phone),
        )
