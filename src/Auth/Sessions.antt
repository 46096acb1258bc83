-- ===== src/Auth/Sessions.antt =====
-- src/auth/auth.service.ts: `logout`, the list of sessions, ending them, and `changePassword`.
pub mod Laws
use safeer_api.Common.{
  ℕ, ◌+◌, String, Option, none, some, List, [], ◌∷◌, Bool, true, false, ◌&&◌, ◌||◌, not, leb, ltb,
  ◌==◌, if◌then◌else◌, find, select, count_where, update_where, map, Exec, pure, gets, modify,
  require, refuse_if, ◌>>=◌, ◌>>◌, not_found, forbidden, unauthenticated,
}
use safeer_api.Accounts.{
  User, UserRole, Session, AccountDb, is_admin, is_null, revoke, has_id, sql_now, hours,
}
use safeer_api.Auth.{Platform, SessionSettings}

abbrev pub has_session_id : ℕ → Session → Bool
has_session_id i s = s.id == i

-- `revoked_at IS NULL AND expires_at > NOW() AND last_seen_at > NOW() - INTERVAL idle HOUR`
unfoldable pub is_live : SessionSettings → ℕ → Session → Bool
is_live settings now s =
    is_null s.revoked_at
    && ltb (sql_now now) s.expires_at
    && ltb (sql_now now) (s.last_seen_at + hours settings.idle_hours)

unfoldable pub logout : ℕ → ℕ → AccountDb → AccountDb
logout now session_id db = record db {
  sessions = update_where (has_session_id session_id) (revoke now) db.sessions;
}

pub record SessionSummary : Type 0 where
  pub id : ℕ
  pub user_agent : Option String
  pub created_at : ℕ
  pub last_seen_at : ℕ
  pub is_current : Bool

-- `ORDER BY last_seen_at DESC`; rows with one value may come in any order
unfoldable pub insert_newest : Session → List Session → List Session
insert_newest s [] = s ∷ []
insert_newest s (t ∷ ts) =
    let rest = insert_newest s ts in
    if leb t.last_seen_at s.last_seen_at then s ∷ t ∷ ts else t ∷ rest

unfoldable pub newest_first : List Session → List Session
unfolding insert_newest
newest_first [] = []
newest_first (s ∷ ss) = insert_newest s (newest_first ss)

abbrev pub summary : ℕ → Session → SessionSummary
summary current s = record {
  id = s.id;
  user_agent = s.user_agent;
  created_at = s.created_at;
  last_seen_at = s.last_seen_at;
  is_current = s.id == current;
}

abbrev pub is_live_of : SessionSettings → ℕ → ℕ → Session → Bool
is_live_of settings now user_id s = (s.user_id == user_id) && is_live settings now s

unfoldable pub list_sessions : SessionSettings → ℕ → ℕ → ℕ → AccountDb → List SessionSummary
unfolding newest_first
list_sessions settings now user_id current db =
    map (summary current) (newest_first (select (is_live_of settings now user_id) db.sessions))

-- the whole row is saved, with `revoked_at` set
unfoldable pub end_session : ℕ → ℕ → UserRole → ℕ → Exec AccountDb Unit
end_session now actor role target = do
  found ← gets (λ db. find (has_session_id target) db.sessions)
  session ← require 404 not_found found
  refuse_if (not (session.user_id == actor) && not (is_admin role)) 403 forbidden
  modify (λ db. record db {
    sessions = update_where (has_session_id session.id) (λ _. revoke now session) db.sessions;
  })

abbrev pub is_other_open : ℕ → ℕ → Session → Bool
is_other_open user_id current s =
    (s.user_id == user_id) && not (s.id == current) && is_null s.revoked_at

-- the number of sessions that were ended
unfoldable pub end_other_sessions : ℕ → ℕ → ℕ → Exec AccountDb ℕ
end_other_sessions now user_id current db =
    (pure (count_where (is_other_open user_id current) db.sessions) (record db {
      sessions = update_where (is_other_open user_id current) (revoke now) db.sessions;
    }))

-- `new_hash` is what Argon2 returned for the new password.
module _ (p : Platform) where
  unfoldable pub change_password : ℕ → ℕ → String → String → ℕ → Exec AccountDb Unit
  unfolding end_other_sessions
  change_password now user_id current_password new_hash current = do
    found ← gets (λ db. find (has_id user_id) db.users)
    user ← require 404 not_found found
    refuse_if (not (p.verify user.password_hash current_password)) 401 unauthenticated
    modify (λ db. record db {
      users = update_where (has_id user_id) (λ u. record u { password_hash = new_hash }) db.users;
    })
    ended ← end_other_sessions now user_id current
    pure tt
