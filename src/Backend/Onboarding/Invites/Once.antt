-- ===== src/Backend/Onboarding/Invites/Once.antt =====
-- An invitation is used once, AcceptInviteTx of backend/internal/onboarding/repo.go.
use qr_domofon.Base.{
  ℕ, String, ◌≡◌, ◌≢◌, refl, sym, ap, ◌∙◌, Option, none, some, List, arith, update_rows,
  first-update_rows, eq_iff,
}
use qr_domofon.Backend.Httpx.{ok}
use qr_domofon.Backend.Database.{InviteRow, Database}
use qr_domofon.Backend.Onboarding.Invitations.{Env, find_invite, has_hash, validate_invite}
use qr_domofon.Backend.Onboarding.Invites.{Accepted, is_unused, mark_invite, accept_invite_tx}
use qr_domofon.Backend.Onboarding.Invites.Accept.{accept-Trace}
use qr_domofon.Backend.Onboarding.Invites.Attachment.{attach-Attachment}

abbrev used : ℕ → String → InviteRow → InviteRow
used now user_id i = record i { used_at = some now; used_by = some user_id }

find_invite-update_rows :
    (invites : List InviteRow) (token_hash user_id : String) (now : ℕ) (inv : InviteRow)
    → find_invite invites token_hash ≡ some inv
    → inv.used_at ≡ none
    → find_invite (update_rows (is_unused inv.id) (used now user_id) invites) token_hash
      ≡ some (used now user_id inv)
find_invite-update_rows invites token_hash user_id now inv found unused =
    first-update_rows (has_hash token_hash) (is_unused inv.id) (used now user_id) invites inv
      (λ i. refl) found (rw ((eq_iff inv.id inv.id).1 refl, unused) refl)

mark_invite-ok :
    (invites after : List InviteRow) (id user_id : String) (now : ℕ)
    → mark_invite invites id user_id now ≡ ok after
    → after ≡ update_rows (is_unused id) (used now user_id) invites
unfolding mark_invite
mark_invite-ok invites after id user_id now h = ground arith

used_at-valid : (inv : InviteRow) (now : ℕ) → validate_invite inv now ≡ none → inv.used_at ≡ none
unfolding validate_invite
used_at-valid inv now h = ground arith

-- The invitation of an acceptance, afterwards.
some-injective : (a b : InviteRow) (o : Option InviteRow) → o ≡ some a → o ≡ some b → a ≡ b
some-injective a b o h k = ground arith

find-accepted :
    (e : Env) (db : Database) (token_hash : String) (now : ℕ) (acc : Accepted)
    → (accept_invite_tx e db token_hash now).0 ≡ ok acc
    → (inv : InviteRow) × (find_invite (accept_invite_tx e db token_hash now).1.invites token_hash
        ≡ some inv)
      × (inv.used_at ≡ some now)
find-accepted e db token_hash now acc h =
    let t = accept-Trace e db token_hash now acc h in
    let kept = attach-Attachment e _ t.inv t.placed.user_id t.attached t.attach_lem in
    let marked =
      mark_invite-ok t.attached.db.invites t.invites t.inv.id t.placed.user_id now t.marked in
    (
      used now t.placed.user_id t.inv,
      rw (← ap (λ (d : Database). d.invites) t.result, marked, kept.invites)
          (find_invite-update_rows db.invites token_hash t.placed.user_id now t.inv t.found
            (used_at-valid t.inv now t.valid)),
      refl,
    )

-- An invitation that was accepted is not accepted again from the database that its acceptance
-- left, whoever tries and whatever fails.
pub accept_once :
    (e later : Env) (db : Database) (token_hash : String) (now at : ℕ) (acc again : Accepted)
    → (accept_invite_tx e db token_hash now).0 ≡ ok acc
    → (accept_invite_tx later (accept_invite_tx e db token_hash now).1 token_hash at).0 ≢ ok again
accept_once e later db token_hash now at acc again h k =
    let (inv, found, spent) = find-accepted e db token_hash now acc h in
    let t = accept-Trace later (accept_invite_tx e db token_hash now).1 token_hash at again k in
    let same = some-injective _ _ _ found t.found in
    none≢some (sym (used_at-valid t.inv at t.valid) ∙ rw (← same) spent)
  where
    none≢some : none ≡ some now → ⊥
    none≢some c = ground arith
