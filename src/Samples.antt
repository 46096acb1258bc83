-- ===== src/Samples.antt =====
-- Small data for the tests: a database with two admins and an editor, and concrete functions in the
-- place of the platform's.
use safeer_api.Common.{
  ℕ, ◌+◌, String, Option, none, some, List, [], ◌∷◌, Bool, not, ◌&&◌, leb, str_eq, find, select,
}
use safeer_api.Accounts.{
  User, UserRole, UserStatus, admin, editor, active, invited, Session, AuthToken, reset, AccountDb,
}
use safeer_api.Auth.{Platform, Lru, SessionSettings, AuthState}

abbrev pub user : ℕ → String → String → UserRole → UserStatus → User
user i email hash role status = record {
  id = i;
  name = email;
  email = email;
  password_hash = hash;
  role = role;
  status = status;
  failed_logins = 0;
  last_failed_login_at = none;
  locked_until = none;
  lock_count = 0;
  last_login_at = none;
}

abbrev pub ada : User
ada = user 1 "ada" "tide" admin active

abbrev pub bob : User
bob = user 2 "bob" "reef" admin active

abbrev pub eve : User
eve = user 3 "eve" "none" editor invited

abbrev pub session : ℕ → ℕ → String → Session
session i user_id token_hash = record {
  id = i;
  user_id = user_id;
  token_hash = token_hash;
  expires_at = 90000000;
  last_seen_at = 1000;
  revoked_at = none;
  user_agent = none;
  ip_hash = none;
  created_at = 1000;
}

abbrev pub reset_token : AuthToken
reset_token = record {
  id = 6;
  user_id = 2;
  purpose = reset;
  token_hash = "link";
  expires_at = 90000000;
  used_at = none;
}

abbrev pub accounts : AccountDb
accounts = record {
  users = ada ∷ bob ∷ eve ∷ [];
  sessions = session 4 1 "sun" ∷ session 5 2 "moon" ∷ [];
  tokens = reset_token ∷ [];
  audit = [];
  outbox = [];
  next_id = 7;
}

abbrev pub platform : Platform
platform = record {
  same_email = str_eq;
  to_lower = λ s. s;
  hash_token = λ s. s;
  verify = str_eq;
  csrf = λ s. s;
  slice = λ n s. s;
}

abbrev pub settings : SessionSettings
settings = record { idle_hours = 12; absolute_days = 7 }

-- the entries of the limiter: a key, its number and the time of its `set`
abbrev pub Entries : Type 0
Entries = List (String × ℕ × ℕ)

abbrev entry_value : Option (String × ℕ × ℕ) → Option ℕ
entry_value none = none
entry_value (some (k, n, t)) = some n

abbrev is_fresh_entry : String → ℕ → String × ℕ × ℕ → Bool
is_fresh_entry key now (k, n, t) = str_eq k key && leb now (t + 60000)

abbrev is_other_entry : String → String × ℕ × ℕ → Bool
is_other_entry key (k, n, t) = not (str_eq k key)

abbrev pub entries : Lru Entries
entries = record {
  get = λ key now c. (entry_value (find (is_fresh_entry key now) c), c);
  set = λ key n now c. (key, n, now) ∷ c;
  delete = λ key c. select (is_other_entry key) c;
}

abbrev pub state : AuthState Entries
state = record { db = accounts; attempts = [] }
