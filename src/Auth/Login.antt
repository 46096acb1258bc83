-- ===== src/Auth/Login.antt =====
-- src/auth/auth.service.ts: `login` and the counter of attempts per address.
pub mod Laws
pub mod Limit
use mathlib.Core.Option as Option
use safeer_api.Common.{
  ℕ, ◌+◌, ◌*◌, String, Option, none, some, List, [], ◌∷◌, ◌++◌, Bool, true, false, ◌&&◌, not, leb,
  ◌==◌, if◌then◌else◌, find, count_where, update_where, Exec, Result, pure, fail, gets, modify,
  refuse_if, ◌>>=◌, ◌>>◌, rate_limited, unauthenticated,
}
use safeer_api.Accounts.{
  User, Session, AccountDb, LoginAudit, LoginAction, login_failed, login as login_ok, PublicUser,
  to_public_user, is_active, is_brute_force_locked, has_id, days,
}
use safeer_api.Auth.{Platform, Lru, SessionSettings, AuthState}
use safeer_api.Auth.Lockout.{register_failed_attempt}

abbrev pub login_attempt_limit : ℕ
login_attempt_limit = 5

-- what `login` reads of the request
pub record Client : Type 0 where
  pub ip_hash : Option String
  pub user_agent : Option String

pub record LoginResult : Type 0 where
  pub token : String
  pub user : PublicUser
  pub csrf_token : String

abbrev pub audit_row : LoginAction → Option User → Client → LoginAudit
audit_row action user client = record {
  actor_id = Option.map (λ (u : User). u.id) user;
  action = action;
  entity_id = Option.map (λ (u : User). u.id) user;
  entity_label = Option.map (λ (u : User). u.name) user;
  ip_hash = client.ip_hash;
}

unfoldable pub write_audit : LoginAction → Option User → Client → AccountDb → AccountDb
write_audit action user client db = record db {
  audit = db.audit ++ audit_row action user client ∷ [];
}

-- an account that can sign in now
unfoldable pub is_usable : ℕ → User → Bool
is_usable now u = is_active u.status && not (is_brute_force_locked u now)

abbrev pub still_active : ℕ → User → Bool
still_active i u = (u.id == i) && is_active u.status

-- `SET failed_logins = 0, lock_count = 0, last_login_at = CURRENT_TIMESTAMP(3)`
abbrev pub signed_in : ℕ → User → User
signed_in now u = record u { failed_logins = 0; lock_count = 0; last_login_at = some now }

abbrev pub or_zero : Option ℕ → ℕ
or_zero none = 0
or_zero (some n) = n

module _ {C : Type 0} (p : Platform) (lru : Lru C) (settings : SessionSettings) where
  abbrev pub on_db : (AccountDb → AccountDb) → AuthState C → AuthState C
  on_db f s = record s { db = f s.db }

  -- `limit` is the counter of the address, read and raised before anything else
  unfoldable pub check_email_rate_limit : String → ℕ → Exec (AuthState C) Unit
  check_email_rate_limit email now s =
      let key = p.to_lower email in
      let (found, c) = lru.get key now s.attempts in
      if leb login_attempt_limit (or_zero found)
      then fail 429 rate_limited (record s { attempts = c })
      else (pure tt (record s { attempts = lru.set key (or_zero found + 1) now c }))

  abbrev pub reset_email_rate_limit : String → AuthState C → AuthState C
  reset_email_rate_limit email s = record s { attempts = lru.delete (p.to_lower email) s.attempts }

  abbrev pub find_account : String → AuthState C → Option User
  find_account email s = find (λ u. p.same_email u.email email) s.db.users

  -- every refusal looks the same from outside
  unfoldable pub refuse : Option User → Client → Exec (AuthState C) LoginResult
  unfolding write_audit
  refuse user client = do
    modify (on_db (write_audit login_failed user client))
    fail 401 unauthenticated

  abbrev pub new_session : ℕ → ℕ → ℕ → String → Client → Session
  new_session now i user_id raw_token client = record {
    id = i;
    user_id = user_id;
    token_hash = p.hash_token raw_token;
    expires_at = now + days settings.absolute_days;
    last_seen_at = now;
    revoked_at = none;
    user_agent = Option.map (p.slice 255) client.user_agent;
    ip_hash = client.ip_hash;
    created_at = now;
  }

  abbrev pub add_session : ℕ → ℕ → String → Client → AccountDb → AccountDb
  add_session now user_id raw_token client db = record db {
    sessions = db.sessions ++ new_session now db.next_id user_id raw_token client ∷ [];
    next_id = db.next_id + 1;
  }

  -- the writes of a sign-in that was not refused
  unfoldable pub open_session : String → String → ℕ → Client → User → Exec (AuthState C) LoginResult
  unfolding write_audit
  open_session email raw_token now client user = do
    modify (reset_email_rate_limit email)
    modify (on_db (add_session now user.id raw_token client))
    modify (on_db (write_audit login_ok (some user) client))
    pure (record {
      token = raw_token;
      user = to_public_user now (signed_in now user);
      csrf_token = p.csrf (p.hash_token raw_token);
    })

  -- the guarded UPDATE: nothing is written if the account is no longer active
  unfoldable pub finish_login : String → String → ℕ → Client → User → Exec (AuthState C) LoginResult
  unfolding open_session refuse
  finish_login email raw_token now client user = do
    affected ← gets (λ s. count_where (still_active user.id) s.db.users)
    modify (
        on_db (λ db. record db {
          users = update_where (still_active user.id) (signed_in now) db.users;
        }))
    (if affected == 0
        then refuse (some user) client
        else open_session email raw_token now client user)

  -- `user` is the row that was read, possibly stale by now
  unfoldable pub decide_login :
      String → String → String → ℕ → Client → Option User → Exec (AuthState C) LoginResult
  unfolding refuse is_usable finish_login
  decide_login email password raw_token now client none = refuse none client
  decide_login email password raw_token now client (some user) =
      if not (is_usable now user)
      then refuse (some user) client
      else if not (p.verify user.password_hash password)
      then (do modify (on_db (register_failed_attempt now user.id)); refuse (some user) client)
      else finish_login email raw_token now client user

  -- `others` is what other requests write between the SELECT and the UPDATE, while the password is
  -- verified.
  unfoldable pub login :
      (AuthState C → AuthState C)
      → String
      → String
      → String
      → ℕ
      → Client
      → Exec (AuthState C) LoginResult
  unfolding check_email_rate_limit decide_login
  login others email password raw_token now client = do
    check_email_rate_limit email now
    user ← gets (find_account email)
    modify others
    decide_login email password raw_token now client user
