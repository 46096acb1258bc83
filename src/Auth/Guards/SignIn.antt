-- ===== src/Auth/Guards/SignIn.antt =====
-- A sign-in opens a session that the guards accept.
use safeer_api.Common.{
  ℕ, ◌+◌, ◌<◌, String, ◌≡◌, ap, some, List, [], ◌∷◌, true, false, arith, str_eq, eq_refl, find, any,
  any-update_where, any_of_count_where, find_of_any, find-append, find_sound, All, ok, lt→ltb,
}
use safeer_api.Accounts.{User, Session, PublicUser, to_public_user, hours, days, sql_now}
use safeer_api.Auth.{Platform, Lru, SessionSettings, AuthState}
use safeer_api.Auth.Sessions.{is_live}
use safeer_api.Auth.Login.{Client, LoginResult, login, new_session, still_active, signed_in}
use safeer_api.Auth.Login.Laws.{login-SignedIn, decided_in}
use safeer_api.Auth.Guards.{
  is_active_account, is_session_of_token, resolve_staff_session, Actor, actor_of,
}

-- a session that was just opened is live for as long as both limits allow
fresh_is_live :
    {C : Type 0} (p : Platform) (lru : Lru C) (settings : SessionSettings) (now later i user_id : ℕ)
    (raw_token : String) (client : Client)
    → later < now + hours settings.idle_hours
    → later < now + days settings.absolute_days
    → is_live settings later (new_session p lru settings now i user_id raw_token client) ≡ true
unfolding is_live
fresh_is_live p lru settings now later i user_id raw_token client idle absolute = ground (
  arith,
  lt→ltb (sql_now later) (now + hours settings.idle_hours) (omega arith),
  lt→ltb (sql_now later) (now + days settings.absolute_days) (omega arith),
)

module _ {C : Type 0} (p : Platform) (lru : Lru C) (settings : SessionSettings) where
  -- rows with other token hashes are not the session of this token
  not_of_token :
      (now : ℕ) (hash : String) (users : List User) (ss : List Session)
      → All (λ s. str_eq s.token_hash hash ≡ false) ss
      → All (λ s. is_session_of_token p settings now hash users s ≡ false) ss
  not_of_token now hash users [] h = tt
  not_of_token now hash users (s ∷ ss) h = (ground (arith, h.0), not_of_token now hash users ss h.1)

  -- The cookie that a successful sign-in returns is accepted as a session of the signed-in account
  -- at every later moment inside the idle and the absolute limit, if nothing was written in between
  -- and no earlier session has the same token hash.
  pub resolve_staff_session-login :
      (others : AuthState C → AuthState C) (email password raw_token : String) (now later : ℕ)
      (client : Client) (s : AuthState C) (r : LoginResult)
      → (login p lru settings others email password raw_token now client s).0 ≡ ok r
      → All
          (λ t. str_eq t.token_hash (p.hash_token raw_token) ≡ false)
          (decided_in p lru settings others email now s).db.sessions
      → later < now + hours settings.idle_hours
      → later < now + days settings.absolute_days
      → (a : Actor) × ((resolve_staff_session p settings later r.token
            (login p lru settings others email password raw_token now client s).1.db).0
          ≡ some a)
        × (a.id ≡ r.user.id)
  unfolding resolve_staff_session to_public_user
  resolve_staff_session-login others email password raw_token now later client s r h apart idle
        absolute =
      let done = login-SignedIn p lru settings others email password raw_token now client s r h in
      let t = (login p lru settings others email password raw_token now client s).1 in
      let d = decided_in p lru settings others email now s in
      let session = new_session p lru settings now d.db.next_id done.user.id raw_token client in
      let active : any (is_active_account done.user.id) t.db.users ≡ true = rw done.users (
        any-update_where (still_active done.user.id) (is_active_account done.user.id)
          (still_active done.user.id) (signed_in now) (λ u k. ground arith) d.db.users
          (any_of_count_where (still_active done.user.id) d.db.users done.active_still)) in
      let live =
        fresh_is_live p lru settings now later d.db.next_id done.user.id raw_token client idle
          absolute in
      let (u, known) = find_of_any (is_active_account done.user.id) t.db.users active in
      let found : find (is_session_of_token p settings later (p.hash_token raw_token) t.db.users)
            t.db.sessions
          ≡ some session =
        rw done.sessions (
          find-append (is_session_of_token p settings later (p.hash_token raw_token) t.db.users)
            d.db.sessions session
            (not_of_token later (p.hash_token raw_token) t.db.users d.db.sessions apart)
            (ground (arith, live, active, eq_refl (p.hash_token raw_token)))) in
      let same = find_sound (is_active_account done.user.id) t.db.users u known in
      (
        actor_of p settings session u,
        rw done.token (ground (arith, found, known)),
        ground (arith, same, ap (λ (x : PublicUser). x.id) done.shown),
      )
