-- ===== src/Backend/Onboarding/Invites/Accept.antt =====
-- The acceptance of an invitation as a whole, AcceptInviteTx of backend/internal/onboarding/repo.go.
use qr_domofon.Base.{ℕ, String, ◌≡◌, refl, ◌∙◌, Option, none, some, List, inl, inr, arith}
use qr_domofon.Backend.Httpx.{ApiError, attempt, ◌>>◌, Result, ok, bind-ok, then-ok, Result-cases}
use qr_domofon.Backend.Database.{User, InviteRow, Database}
use qr_domofon.Backend.Onboarding.Invitations.{
  Env, find_invite, validate_invite, target_phone, or_not_found, unless_refused, begin,
  select_invite,
}
use qr_domofon.Backend.Onboarding.Recipients.{Placed, place_user, fill_name}
use qr_domofon.Backend.Onboarding.Invites.{
  Attached, Accepted, accepted, mark_invite, attach, accept_found, accept_steps, accept_invite_tx,
}

-- The steps of an acceptance that succeeded.
pub record Trace (e : Env) (db : Database) (token_hash : String) (now : ℕ) (acc : Accepted)
    (after : Database) : Type 0 where
  pub inv : InviteRow
  pub found : find_invite db.invites token_hash ≡ some inv
  pub valid : validate_invite inv now ≡ none
  pub phone : String
  pub target : target_phone inv.phone ≡ ok phone
  pub placed : Placed
  pub place : place_user e db.users inv.target_kind phone ≡ ok placed
  pub users : List User
  pub named : fill_name e placed.users inv.full_name placed.user_id ≡ ok users
  pub attached : Attached
  pub attach_lem : attach e (record db { users = users }) inv placed.user_id ≡ ok attached
  pub invites : List InviteRow
  pub marked : mark_invite attached.db.invites inv.id placed.user_id now ≡ ok invites
  pub account : accepted inv placed attached.granted_points ≡ acc
  pub result : record attached.db { invites = invites } ≡ after

pair-ok :
    (a c : Accepted) (b d : Database)
    → ◌≡◌ {A = Result (Accepted × Database)} (ok (a, b)) (ok (c, d))
    → (a ≡ c) × (b ≡ d)
pair-ok a c b d h = (ground arith, ground arith)

found-Trace :
    (e : Env) (db : Database) (token_hash : String) (now : ℕ) (acc : Accepted) (after : Database)
    (inv : InviteRow) (phone : String)
    → find_invite db.invites token_hash ≡ some inv
    → validate_invite inv now ≡ none
    → target_phone inv.phone ≡ ok phone
    → accept_found e db inv now phone ≡ ok (acc, after)
    → Trace e db token_hash now acc after
unfolding accept_found
found-Trace e db token_hash now acc after inv phone found valid target h =
    let (placed, place, h1) = bind-ok _ _ _ h in
    let (users, named, h2) = bind-ok _ _ _ h1 in
    let (attached, attach_lem, h3) = bind-ok _ _ _ h2 in
    let h4 = then-ok _ _ _ h3 in
    let (invites, marked, h5) = bind-ok _ _ _ h4 in
    let h6 = then-ok _ _ _ h5 in
    let (account, result) = pair-ok _ _ _ _ h6 in
    record {
      inv = inv;
      found = found;
      valid = valid;
      phone = phone;
      target = target;
      placed = placed;
      place = place;
      users = users;
      named = named;
      attached = attached;
      attach_lem = attach_lem;
      invites = invites;
      marked = marked;
      account = account;
      result = result;
    }

found_lem : (o : Option InviteRow) (inv : InviteRow) → or_not_found o ≡ ok inv → o ≡ some inv
found_lem none inv h = absurd (ground arith)
found_lem (some i) inv h = ground arith

valid_lem :
    (o : Option ApiError) (r : Result (Accepted × Database)) (a : Accepted × Database)
    → (unless_refused o >> r) ≡ ok a
    → o ≡ none
valid_lem none r a h = refl
valid_lem (some refused) r a h = absurd (ground arith)

steps-Trace :
    (e : Env) (db : Database) (token_hash : String) (now : ℕ) (acc : Accepted) (after : Database)
    → accept_steps e db token_hash now ≡ ok (acc, after)
    → Trace e db token_hash now acc after
unfolding accept_steps
steps-Trace e db token_hash now acc after h =
    let h1 = then-ok (attempt (e.fails begin)) _ _ h in
    let h2 = then-ok (attempt (e.fails select_invite)) _ _ h1 in
    let (inv, found, h3) = bind-ok (or_not_found (find_invite db.invites token_hash)) _ _ h2 in
    let h4 = then-ok (unless_refused (validate_invite inv now)) _ _ h3 in
    let (phone, target, h5) = bind-ok (target_phone inv.phone) _ _ h4 in
    found-Trace e db token_hash now acc after inv phone
      (found_lem (find_invite db.invites token_hash) inv found)
      (valid_lem (validate_invite inv now) _ _ h3) target h5

pub accept-Trace :
    (e : Env) (db : Database) (token_hash : String) (now : ℕ) (acc : Accepted)
    → (accept_invite_tx e db token_hash now).0 ≡ ok acc
    → Trace e db token_hash now acc (accept_invite_tx e db token_hash now).1
unfolding accept_invite_tx
accept-Trace e db token_hash now acc h = elim (Result-cases (accept_steps e db token_hash now)) [
  | inl (refused, stopped) ↦ absurd (ground arith)
  | inr ((acc', after), done) ↦
      rw (done, accept_invite_tx)
        (steps-Trace e db token_hash now acc after (done ∙ same acc' after (ground arith)))
]
  where
    same :
        (acc' : Accepted) (after : Database)
        → ok acc' ≡ ok acc
        → ◌≡◌ {A = Result (Accepted × Database)} (ok (acc', after)) (ok (acc, after))
    same acc' after k = ground arith
