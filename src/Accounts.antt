-- ===== src/Accounts.antt =====
-- The account tables (src/database/entities/user.entity.ts, session.entity.ts, auth-token.entity.ts,
-- audit-log.entity.ts) and the public view of a user (src/users/public-user.ts).
-- Row ids are the numbers that the code compares as decimal strings. A time is in milliseconds.
use safeer_api.Common.{
  ℕ, ◌*◌, ◌/◌, String, Option, none, some, List, Bool, true, false, ◌&&◌, ltb, ◌==◌, delete_where,
  update_where,
}

pub data UserStatus : Type 0 where
  active disabled invited : UserStatus

pub data UserRole : Type 0 where
  admin editor support : UserRole

pub data Purpose : Type 0 where
  invite reset : Purpose

abbrev pub is_active : UserStatus → Bool
is_active active = true
is_active _ = false

abbrev pub is_disabled : UserStatus → Bool
is_disabled disabled = true
is_disabled _ = false

abbrev pub is_invited : UserStatus → Bool
is_invited invited = true
is_invited _ = false

abbrev pub same_role : UserRole → UserRole → Bool
same_role admin admin = true
same_role editor editor = true
same_role support support = true
same_role _ _ = false

abbrev pub is_admin : UserRole → Bool
is_admin r = same_role r admin

abbrev pub same_purpose : Purpose → Purpose → Bool
same_purpose invite invite = true
same_purpose reset reset = true
same_purpose _ _ = false

-- `created_at` and `updated_at`, which the database writes by itself, are left out.
pub record User : Type 0 where
  pub id : ℕ
  pub name : String
  pub email : String
  pub password_hash : String
  pub role : UserRole
  pub status : UserStatus
  pub failed_logins : ℕ
  pub last_failed_login_at : Option ℕ
  pub locked_until : Option ℕ
  pub lock_count : ℕ
  pub last_login_at : Option ℕ

pub record Session : Type 0 where
  pub id : ℕ
  pub user_id : ℕ
  pub token_hash : String
  pub expires_at : ℕ
  pub last_seen_at : ℕ
  pub revoked_at : Option ℕ
  pub user_agent : Option String
  pub ip_hash : Option String
  pub created_at : ℕ

pub record AuthToken : Type 0 where
  pub id : ℕ
  pub user_id : ℕ
  pub purpose : Purpose
  pub token_hash : String
  pub expires_at : ℕ
  pub used_at : Option ℕ

pub data LoginAction : Type 0 where
  login login_failed : LoginAction

-- the audit rows that a sign-in writes; their entity is always a user
pub record LoginAudit : Type 0 where
  pub actor_id : Option ℕ
  pub action : LoginAction
  pub entity_id : Option ℕ
  pub entity_label : Option String
  pub ip_hash : Option String

pub data MailKey : Type 0 where
  user_invite password_reset : MailKey

-- a call of the mail service: the template, the address, the raw token of the link and the user
pub record SentMail : Type 0 where
  pub key : MailKey
  pub to : String
  pub raw_token : String
  pub user_id : ℕ

-- `next_id` is the next value of AUTO_INCREMENT: no row has it yet.
pub record AccountDb : Type 0 where
  pub users : List User
  pub sessions : List Session
  pub tokens : List AuthToken
  pub audit : List LoginAudit
  pub outbox : List SentMail
  pub next_id : ℕ

pub record PublicUser : Type 0 where
  pub id : ℕ
  pub name : String
  pub email : String
  pub role : UserRole
  pub status : UserStatus
  pub is_locked : Bool
  pub locked_until : Option ℕ
  pub failed_logins : ℕ
  pub last_login_at : Option ℕ

unfoldable pub is_brute_force_locked : User → ℕ → Bool
is_brute_force_locked u now = elim u.locked_until [ none ↦ false | some until ↦ ltb now until ]

unfoldable pub to_public_user : ℕ → User → PublicUser
to_public_user now u = record {
  id = u.id;
  name = u.name;
  email = u.email;
  role = u.role;
  status = u.status;
  is_locked = is_brute_force_locked u now;
  locked_until = u.locked_until;
  failed_logins = u.failed_logins;
  last_login_at = u.last_login_at;
}

abbrev pub minutes : ℕ → ℕ
minutes n = n * 60000

abbrev pub hours : ℕ → ℕ
hours n = n * 3600000

abbrev pub days : ℕ → ℕ
days n = n * 86400000

-- `NOW()` has no fraction of a second; `CURRENT_TIMESTAMP(3)` and a JS `Date` have milliseconds.
abbrev pub sql_now : ℕ → ℕ
sql_now now = now / 1000 * 1000

abbrev pub is_null : Option ℕ → Bool
is_null none = true
is_null (some _) = false

abbrev pub has_id : ℕ → User → Bool
has_id i u = u.id == i

-- `revoked_at IS NULL` for this user
abbrev pub is_open_session_of : ℕ → Session → Bool
is_open_session_of i s = (s.user_id == i) && is_null s.revoked_at

abbrev pub revoke : ℕ → Session → Session
revoke now s = record s { revoked_at = some now }

unfoldable pub revoke_sessions : ℕ → ℕ → AccountDb → AccountDb
revoke_sessions now i db = record db {
  sessions = update_where (is_open_session_of i) (revoke now) db.sessions;
}

-- `used_at IS NULL` for this user
abbrev pub is_unused_token_of : ℕ → AuthToken → Bool
is_unused_token_of i t = (t.user_id == i) && is_null t.used_at

unfoldable pub delete_unused_tokens : ℕ → AccountDb → AccountDb
delete_unused_tokens i db = record db { tokens = delete_where (is_unused_token_of i) db.tokens }

-- `save(user)`: an UPDATE of the row with its id
unfoldable pub save_user : User → AccountDb → AccountDb
save_user u db = record db { users = update_where (has_id u.id) (λ _. u) db.users }
