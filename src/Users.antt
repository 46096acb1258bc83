-- ===== src/Users.antt =====
-- src/users/users.service.ts: staff accounts.
pub mod Cover
pub mod Effects
pub mod Serve
mod Tests
use safeer_api.Common.{
  ℕ, ◌+◌, String, Option, none, some, [], ◌∷◌, ◌++◌, Bool, true, false, ◌&&◌, ◌||◌, not, ◌==◌,
  str_eq, if◌then◌else◌, find, count_where, delete_where, update_where, Exec, pure, gets, modify,
  transaction, require, refuse_if, ◌>>=◌, ◌>>◌, validation_failed, forbidden, not_found, last_admin,
}
use safeer_api.Accounts.{
  User, UserRole, active, disabled, invited, is_active, is_disabled, is_invited, is_admin,
  same_role, PublicUser, to_public_user, AccountDb, LoginAudit, has_id, save_user, revoke_sessions,
  delete_unused_tokens,
}

-- the marker of an account that has no password yet
abbrev pub unusable_password_hash : String
unusable_password_hash =
    "$argon2id$v=19$m=1,t=1,p=1$AAAAAAAAAAAAAAAAAA$AAAAAAAAAAAAAAAAAAAAAAAAAAAAAAAAAAAAAAAAAAA"

-- an absent field is `none`; `status` can be set to `active` or `disabled` alone
pub data NewStatus : Type 0 where
  to_active to_disabled : NewStatus

pub record UpdateUserInput : Type 0 where
  pub name : Option String
  pub email : Option String
  pub role : Option UserRole
  pub status : Option NewStatus
  pub unlock : Bool

unfoldable pub find_by_id : ℕ → Exec AccountDb User
find_by_id i = do user ← gets (λ db. find (has_id i) db.users); require 404 not_found user

-- an active admin other than `i`
abbrev pub is_other_usable_admin : ℕ → User → Bool
is_other_usable_admin i u = (is_admin u.role && is_active u.status) && not (u.id == i)

unfoldable pub usable_admins_besides : ℕ → AccountDb → ℕ
usable_admins_besides i db = count_where (is_other_usable_admin i) db.users

abbrev pub is_usable_admin : User → Bool
is_usable_admin u = is_admin u.role && is_active u.status

-- Without this account no usable admin would remain.
unfoldable pub is_last_cover : User → AccountDb → Bool
unfolding usable_admins_besides
is_last_cover target db = is_usable_admin target && (usable_admins_besides target.id db == 0)

abbrev pub invited_user : ℕ → String → String → UserRole → User
invited_user i email name role = record {
  id = i;
  name = name;
  email = email;
  password_hash = unusable_password_hash;
  role = role;
  status = invited;
  failed_logins = 0;
  last_failed_login_at = none;
  locked_until = none;
  lock_count = 0;
  last_login_at = none;
}

-- The database compares addresses by its collation.
module _ (same_email : String → String → Bool) where
  unfoldable pub find_by_email : String → AccountDb → Option User
  find_by_email email db = find (λ u. same_email u.email email) db.users

  unfoldable pub create_invited_user : String → String → UserRole → Exec AccountDb User
  unfolding find_by_email
  create_invited_user email name role = do
    existing ← gets (find_by_email email)
    refuse_if (elim existing [ none ↦ false | some _ ↦ true ]) 409 validation_failed
    i ← gets (λ db. db.next_id)
    let user : User = invited_user i email name role
    modify (λ db. record db { users = db.users ++ user ∷ []; next_id = i + 1 })
    pure user

-- An id in the address of a request is a text, which the code compares with other ids as a text, and
-- which MySQL reads as a number to find the row: `text` stands for the text as the code compares it, and
-- is the id of the row when it is written as the database writes it. For 07 it is a number that is no id.

-- the role block of `update`
unfoldable pub change_role : ℕ → ℕ → User → Option UserRole → Exec AccountDb User
unfolding is_last_cover
change_role actor text target none = pure target
change_role actor text target (some role) = if same_role role target.role then pure target else do
  refuse_if (text == actor) 403 forbidden
  db ← gets (λ db. db)
  refuse_if (is_last_cover target db) 409 last_admin
  pure (record target { role = role })

abbrev pub is_disabling : User → Option NewStatus → Bool
is_disabling target (some to_disabled) = not (is_disabled target.status)
is_disabling target _ = false

-- the status block; `before` is the row as it was read, `target` the row with the changes so far
unfoldable pub change_status : User → User → Option NewStatus → Exec AccountDb User
unfolding is_last_cover
change_status before target none = pure target
change_status before target (some to_active) = do
  refuse_if (is_invited target.status) 409 validation_failed
  pure (record target { status = active })
change_status before target (some to_disabled) = do
  db ← gets (λ db. db)
  refuse_if (not (is_disabled target.status) && is_last_cover before db) 409 last_admin
  pure (record target { status = disabled })

abbrev pub with_name : Option String → User → User
with_name none u = u
with_name (some name) u = record u { name = name }

abbrev pub with_email : Option String → User → User
with_email none u = u
with_email (some email) u = record u { email = email }

abbrev pub is_email_change : Option String → User → Bool
is_email_change none u = false
is_email_change (some email) u = not (str_eq email u.email)

-- `input.unlock` clears the lock and both counters
abbrev pub with_unlock : Bool → User → User
with_unlock false u = u
with_unlock true u = record u { locked_until = none; failed_logins = 0; lock_count = 0 }

abbrev pub when : Bool → (AccountDb → AccountDb) → AccountDb → AccountDb
when c f db = if c then f db else db

-- the changes of `update` up to the save
unfoldable pub edited : ℕ → ℕ → User → UpdateUserInput → Exec AccountDb User
unfolding change_role change_status
edited actor text before input = do
  target ← change_role actor text before input.role
  target ← change_status before (with_email input.email (with_name input.name target)) input.status
  pure (with_unlock input.unlock target)

-- the writes of `update`: the row, the sessions, the links that were mailed
unfoldable pub store_edit : ℕ → User → User → UpdateUserInput → AccountDb → AccountDb
unfolding save_user revoke_sessions delete_unused_tokens
store_edit now before after input db =
    let disabling = is_disabling before input.status in
    when (disabling || is_email_change input.email before) (delete_unused_tokens before.id)
      (when disabling (revoke_sessions now before.id) (save_user after db))

unfoldable pub update : ℕ → ℕ → ℕ → ℕ → UpdateUserInput → Exec AccountDb (PublicUser × PublicUser)
unfolding find_by_id edited store_edit
update now actor text i input = transaction (do
  before ← find_by_id i
  after ← edited actor text before input
  modify (store_edit now before after input)
  pure (to_public_user now before, to_public_user now after))

abbrev pub is_row_of : ℕ → LoginAudit → Bool
is_row_of i r = elim r.actor_id [ none ↦ false | some a ↦ a == i ]

-- the row goes, and its sessions and tokens with it (ON DELETE CASCADE); the audit rows keep no actor
unfoldable pub delete_user : ℕ → AccountDb → AccountDb
delete_user i db = record db {
  users = delete_where (has_id i) db.users;
  sessions = delete_where (λ s. s.user_id == i) db.sessions;
  tokens = delete_where (λ t. t.user_id == i) db.tokens;
  audit = update_where (is_row_of i) (λ r. record r { actor_id = none }) db.audit;
}

unfoldable pub remove : ℕ → ℕ → ℕ → ℕ → Exec AccountDb PublicUser
unfolding find_by_id is_last_cover delete_user
remove now actor text i = transaction (do
  target ← find_by_id i
  refuse_if (text == actor) 403 forbidden
  db ← gets (λ db. db)
  refuse_if (is_last_cover target db) 409 last_admin
  modify (delete_user i)
  pure (to_public_user now target))
