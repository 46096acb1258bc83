-- ===== src/Auth/Tokens.antt =====
-- src/auth/auth.service.ts: invitations, password resets, and the links that carry their tokens.
pub mod Laws
pub mod Outcome
use safeer_api.Common.{
  ℕ, ◌+◌, ◌*◌, String, Option, none, some, List, [], ◌∷◌, ◌++◌, Bool, true, false, ◌&&◌, not, ltb,
  ◌==◌, str_eq, if◌then◌else◌, find, any, update_where, Exec, pure, gets, modify, require,
  refuse_if, transaction, ◌>>=◌, ◌>>◌, validation_failed,
}
use safeer_api.Accounts.{
  User, UserRole, UserStatus, active, invited, is_active, is_invited, AccountDb, AuthToken, Purpose,
  invite as invitation, reset, same_purpose, is_null, sql_now, hours, minutes, has_id, PublicUser,
  to_public_user, delete_unused_tokens, revoke_sessions, SentMail, MailKey, user_invite,
  password_reset,
}
use safeer_api.Users.{create_invited_user, find_by_email}
use safeer_api.Auth.{Platform}

abbrev pub invite_token_hours : ℕ
invite_token_hours = 48

abbrev pub reset_token_minutes : ℕ
reset_token_minutes = 60

abbrev pub with_token : AuthToken → AccountDb → AccountDb
with_token t db = record db { tokens = db.tokens ++ t ∷ []; next_id = db.next_id + 1 }

abbrev pub with_mail : SentMail → AccountDb → AccountDb
with_mail m db = record db { outbox = db.outbox ++ m ∷ [] }

abbrev pub mail_to : MailKey → User → String → SentMail
mail_to key u raw_token = record { key = key; to = u.email; raw_token = raw_token; user_id = u.id }

-- the columns that both completions clear
abbrev pub unlocked : User → User
unlocked u = record u { failed_logins = 0; locked_until = none; lock_count = 0 }

module _ (p : Platform) where
  abbrev pub fresh_token : ℕ → Purpose → ℕ → ℕ → String → AuthToken
  fresh_token i purpose user_id expires_at raw_token = record {
    id = i;
    user_id = user_id;
    purpose = purpose;
    token_hash = p.hash_token raw_token;
    expires_at = expires_at;
    used_at = none;
  }

  abbrev pub issue_token : Purpose → User → ℕ → String → MailKey → AccountDb → AccountDb
  issue_token purpose user expires_at raw_token key db =
      with_mail (mail_to key user raw_token)
        (with_token (fresh_token db.next_id purpose user.id expires_at raw_token) db)

  -- `raw_token` is the random value that the mail carries
  unfoldable pub invite : ℕ → String → String → UserRole → String → Exec AccountDb PublicUser
  unfolding create_invited_user
  invite now email name role raw_token = do
    user ← create_invited_user p.same_email email name role
    modify (issue_token invitation user (now + hours invite_token_hours) raw_token user_invite)
    pure (to_public_user now user)

  -- what `forgotPassword` starts in the background
  unfoldable pub send_password_reset : ℕ → String → String → AccountDb → AccountDb
  unfolding find_by_email
  send_password_reset now email raw_token db = elim (find_by_email p.same_email email db) [
    | none ↦ db
    | some user ↦
        if is_active user.status
        then issue_token reset user (now + minutes reset_token_minutes) raw_token password_reset db
        else db
  ]

  abbrev pub is_redeemable : ℕ → String → Purpose → AuthToken → Bool
  is_redeemable now raw_token purpose t =
      str_eq t.token_hash (p.hash_token raw_token)
      && same_purpose t.purpose purpose
      && is_null t.used_at
      && ltb (sql_now now) t.expires_at

  abbrev pub spend : ℕ → AuthToken → AccountDb → AccountDb
  spend now t db = record db {
    tokens = update_where (λ u. u.id == t.id) (λ _. record t { used_at = some now }) db.tokens;
  }

  -- `apply` is the account write, in the transaction that spends the token; `edit` its effect on the
  -- row in memory, which is what the answer shows
  unfoldable pub consume_token :
      ℕ
      → String
      → Purpose
      → (UserStatus → Bool)
      → (User → AccountDb → AccountDb)
      → (User → User)
      → Exec AccountDb PublicUser
  unfolding delete_unused_tokens
  consume_token now raw_token purpose allowed apply edit = transaction (do
    found ← gets (λ db. find (is_redeemable now raw_token purpose) db.tokens)
    token ← require 400 validation_failed found
    owner ← gets (λ db. find (has_id token.user_id) db.users)
    user ← require 400 validation_failed owner
    refuse_if (not (allowed user.status)) 400 validation_failed
    modify (spend now token)
    modify (delete_unused_tokens user.id)
    modify (apply user)
    pure (to_public_user now (edit user)))

  abbrev pub accepted : String → User → User
  accepted new_hash u = record (unlocked u) { password_hash = new_hash; status = active }

  abbrev pub set_user : (User → User) → User → AccountDb → AccountDb
  set_user f u db = record db { users = update_where (has_id u.id) f db.users }

  abbrev pub with_new_password : String → User → User
  with_new_password new_hash u = record (unlocked u) { password_hash = new_hash }

  -- `allowedStatuses`: which account the link of each kind is for
  abbrev pub link_allows : Purpose → UserStatus → Bool
  link_allows invitation = is_invited
  link_allows reset = is_active

  -- the account write: an invitation also activates, a reset also ends every session
  unfoldable pub link_apply : Purpose → ℕ → String → User → AccountDb → AccountDb
  unfolding revoke_sessions
  link_apply invitation now new_hash u db = set_user (accepted new_hash) u db
  link_apply reset now new_hash u db =
      revoke_sessions now u.id (set_user (with_new_password new_hash) u db)

  abbrev pub link_shows : Purpose → User → User
  link_shows invitation u = record (unlocked u) { status = active }
  link_shows reset u = unlocked u

  unfoldable pub use_link : Purpose → ℕ → String → String → Exec AccountDb PublicUser
  unfolding consume_token link_apply
  use_link kind now raw_token new_hash =
      consume_token now raw_token kind (link_allows kind) (link_apply kind now new_hash)
        (link_shows kind)

  abbrev pub accept_invite : ℕ → String → String → Exec AccountDb PublicUser
  accept_invite = use_link invitation

  abbrev pub reset_password : ℕ → String → String → Exec AccountDb PublicUser
  reset_password = use_link reset
