-- ===== src/Firmware/Device/Staleness.antt =====
-- When a command is stale, IsStale of firmware/emulator/commands.go.
use mathlib.Core.Path.{subst}
use qr_domofon.Base.{
  ℕ, ◌+◌, ◌-◌, ◌^◌, ◌≤◌, ◌<◌, ◌≡◌, ◌↔◌, ◌⊎◌, inl, inr, refl, false, suc, arith, Bool-cases, leb,
  ltb,
}
use qr_domofon.Base.Int.{negsuc, neg_64_lem}
use qr_domofon.Base.Time.{sub}
use qr_domofon.Firmware.Device.{stale_threshold, is_stale}

-- The times at which a command is not stale: up to 30 seconds before and after its own time, and
-- 2 ^ 63 nanoseconds before it and earlier, where the difference is the least int64.
abbrev pub IsFresh : ℕ → ℕ → Type 0
IsFresh issued_at now =
    (now ≤ issued_at + stale_threshold)
    × ((issued_at ≤ now + stale_threshold) ⊎ (now + 2 ^ 63 ≤ issued_at))

fresh_past :
    (issued_at now : ℕ)
    → issued_at ≤ now
    → (is_stale issued_at now ≡ false) ↔ (now ≤ issued_at + stale_threshold)
unfolding is_stale sub
fresh_past issued_at now h = (λ k. ground arith, λ k. ground arith)

sub_behind : (t n : ℕ) → suc n < 2 ^ 63 → sub t (t + suc n) ≡ negsuc n
unfolding sub
sub_behind t n h = ground arith

sub_far : (t u : ℕ) → t + 2 ^ 63 ≤ u → sub t u ≡ negsuc (2 ^ 63 - 1)
unfolding sub
sub_far t u h = ground arith

fresh_near :
    (n now : ℕ) → suc n < 2 ^ 63 → (is_stale (now + suc n) now ≡ false) ↔ (suc n ≤ stale_threshold)
unfolding is_stale
fresh_near n now near =
    rw (sub_behind now n near, is_stale, (neg_64_lem n).0 near)
      (λ k. ground arith, λ k. ground arith)

fresh_far : (issued_at now : ℕ) → now + 2 ^ 63 ≤ issued_at → is_stale issued_at now ≡ false
unfolding is_stale
fresh_far issued_at now far =
    rw (sub_far now issued_at far, is_stale, (neg_64_lem (2 ^ 63 - 1)).1 refl) refl

ahead_by :
    (issued_at now : ℕ) → leb issued_at now ≡ false → now + suc (issued_at - now - 1) ≡ issued_at
ahead_by issued_at now h = ground arith

pub is_stale-IsFresh :
    (issued_at now : ℕ) → (is_stale issued_at now ≡ false) ↔ IsFresh issued_at now
is_stale-IsFresh issued_at now = elim (Bool-cases (leb issued_at now)) [
  | inl past ↦
      let before : issued_at ≤ now = ground arith in
      let bound = fresh_past issued_at now before in
      (λ h. (bound.0 h, inl (omega (arith, before))), λ (late, _). bound.1 late)
  | inr ahead ↦
      let n = issued_at - now - 1 in
      let same = ahead_by issued_at now ahead in
      elim (Bool-cases (ltb (suc n) (2 ^ 63))) [
        | inl small ↦
            let near : suc n < 2 ^ 63 = ground arith in
            let bound : (is_stale issued_at now ≡ false) ↔ (suc n ≤ stale_threshold) =
              subst (λ i. (is_stale i now ≡ false) ↔ (suc n ≤ stale_threshold)) same
                (fresh_near n now near) in
            (
              λ h. let k = bound.0 h in (omega (arith, same), inl (omega (arith, same, k))),
              λ (_, soon). bound.1 (within n soon same near),
            )
        | inr large ↦
            let big : 2 ^ 63 ≤ suc n = ground arith in
            let far : now + 2 ^ 63 ≤ issued_at = omega (arith, same, big) in
            (λ _. (omega (arith, same), inr far), λ _. fresh_far issued_at now far)
      ]
]
  where
    within :
        (n : ℕ)
        → (issued_at ≤ now + stale_threshold) ⊎ (now + 2 ^ 63 ≤ issued_at)
        → now + suc n ≡ issued_at
        → suc n < 2 ^ 63
        → suc n ≤ stale_threshold
    within n (inl soon) same near = omega (arith, soon, same)
    within n (inr far) same near = absurd (omega (arith, far, same, near))
