-- ===== src/Auth/Lockout.antt =====
-- The brute-force lock of an account: `registerFailedAttempt` of src/auth/auth.service.ts, whose
-- UPDATE runs its assignments from left to right.
pub mod Laws
use safeer_api.Common.{
  ℕ, suc, ◌+◌, ◌*◌, ◌^◌, ◌≤◌, ◌<◌, min, Option, none, some, Bool, false, leb, if◌then◌else◌,
  update_where,
}
use safeer_api.Accounts.{User, AccountDb, has_id, minutes, hours}

abbrev pub lock_threshold : ℕ
lock_threshold = 10

abbrev pub lock_base_minutes : ℕ
lock_base_minutes = 15

abbrev pub lock_max_minutes : ℕ
lock_max_minutes = 60

abbrev pub lock_decay_hours : ℕ
lock_decay_hours = 24

-- `column <= UTC_TIMESTAMP(3) - INTERVAL 24 HOUR`; a NULL column does not pass
abbrev pub has_decayed : ℕ → Option ℕ → Bool
has_decayed now none = false
has_decayed now (some t) = leb (t + hours lock_decay_hours) now

-- the first three assignments: decay, then count this failure
unfoldable pub count_failure : ℕ → User → User
count_failure now u = record u {
  lock_count = if has_decayed now u.locked_until then 0 else u.lock_count;
  failed_logins = (if has_decayed now u.last_failed_login_at then 0 else u.failed_logins) + 1;
  last_failed_login_at = some now;
}

unfoldable pub lock_minutes : ℕ → ℕ
lock_minutes count = min (lock_base_minutes * 2 ^ min count 6) lock_max_minutes

-- the last three assignments: at the threshold, lock and restart the count
unfoldable pub lock_at_threshold : ℕ → User → User
unfolding lock_minutes
lock_at_threshold now u =
    if leb lock_threshold u.failed_logins
    then record u {
      locked_until = some (now + minutes (lock_minutes u.lock_count));
      lock_count = u.lock_count + 1;
      failed_logins = 0;
    }
    else u

unfoldable pub register_failure : ℕ → User → User
unfolding count_failure lock_at_threshold
register_failure now u = lock_at_threshold now (count_failure now u)

unfoldable pub register_failed_attempt : ℕ → ℕ → AccountDb → AccountDb
register_failed_attempt now i db = record db {
  users = update_where (has_id i) (register_failure now) db.users;
}
