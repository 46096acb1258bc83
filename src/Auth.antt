-- ===== src/Auth.antt =====
-- src/auth/: what its modules share. The platform's functions are parameters: SHA-256, HMAC, Argon2
-- and the LRU cache are third-party code, and so is the collation of the database.
mod Tests
mod RequestTests
pub mod Lockout
pub mod Login
pub mod Sessions
pub mod Guards
pub mod Tokens
use safeer_api.Common.{ℕ, String, Bool, Option}
use safeer_api.Accounts.{AccountDb}

-- `hash_token` is the SHA-256 of src/auth/session-token.util.ts, `verify` is Argon2's test of a stored
-- hash, `csrf` the HMAC under the application's key (src/auth/csrf.util.ts), `slice n`
-- the first n units of a JS string.
pub record Platform : Type 0 where
  pub same_email : String → String → Bool
  pub to_lower : String → String
  pub hash_token : String → String
  pub verify : String → String → Bool
  pub csrf : String → String
  pub slice : ℕ → String → String

-- `lru-cache` with a TTL, as the login limiter uses it; the number is the time of the call.
pub record Lru (C : Type 0) : Type 0 where
  pub get : String → ℕ → C → Option ℕ × C
  pub set : String → ℕ → ℕ → C → C
  pub delete : String → C → C

-- src/config/env.ts: the settings that sign-in reads
pub record SessionSettings : Type 0 where
  pub idle_hours : ℕ
  pub absolute_days : ℕ

-- the database, and the memory of the process (the login limiter)
pub record AuthState (C : Type 0) : Type 0 where
  pub db : AccountDb
  pub attempts : C
