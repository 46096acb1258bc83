-- ===== src/Auth/Guards.antt =====
-- src/auth/guards/: the session, role and CSRF guards, in the order of src/auth/auth.module.ts.
pub mod Laws
pub mod SignIn
use safeer_api.Common.{
  ℕ, ◌+◌, String, Option, none, some, List, [], ◌∷◌, Bool, true, false, ◌&&◌, ◌||◌, not, ltb, ◌==◌,
  str_eq, if◌then◌else◌, find, any, update_where, Exec, Result, pure, fail, gets, modify, refuse_if,
  ◌>>=◌, ◌>>◌, unauthenticated, forbidden,
}
use safeer_api.Accounts.{User, UserRole, Session, AccountDb, is_active, same_role}
use safeer_api.Auth.{Platform, SessionSettings}
use safeer_api.Auth.Sessions.{is_live, has_session_id}

pub record Actor : Type 0 where
  pub id : ℕ
  pub role : UserRole
  pub session_id : ℕ
  pub token_hash : String

-- what the guards read of the request and of the route's metadata; `none` where a header is absent
pub record Request : Type 0 where
  pub method : String
  pub cookie : Option String
  pub csrf_header : Option String
  pub is_public : Bool
  pub roles : List UserRole

abbrev pub last_seen_throttle : ℕ
last_seen_throttle = 60000

-- an absent or empty cookie is no cookie
abbrev pub given : Option String → Option String
given none = none
given (some c) = if str_eq c "" then none else some c

abbrev pub is_safe_method : String → Bool
is_safe_method m = str_eq m "GET" || str_eq m "HEAD" || str_eq m "OPTIONS"

abbrev pub is_active_account : ℕ → User → Bool
is_active_account i u = (u.id == i) && is_active u.status

module _ (p : Platform) (settings : SessionSettings) where
  -- the row of the joined query: a live session of an active account
  abbrev pub is_session_of_token : ℕ → String → List User → Session → Bool
  is_session_of_token now token_hash users s =
      (str_eq s.token_hash token_hash && is_live settings now s)
      && any (is_active_account s.user_id) users

  abbrev pub actor_of : Session → User → Actor
  actor_of s u = record { id = u.id; role = u.role; session_id = s.id; token_hash = s.token_hash }

  unfoldable pub look_up : ℕ → String → AccountDb → Option (Session × User)
  look_up now token_hash db =
      elim (find (is_session_of_token now token_hash db.users) db.sessions) [
        | none ↦ none
        | some s ↦ elim (find (is_active_account s.user_id) db.users) [
          | none ↦ none
          | some u ↦ some (s, u)
        ]
      ]

  -- `last_seen_at` is written at most once a minute
  unfoldable pub touch : ℕ → Session → AccountDb → AccountDb
  touch now s db =
      if ltb (s.last_seen_at + last_seen_throttle) now
      then record db {
        sessions =
            update_where (has_session_id s.id) (λ t. record t { last_seen_at = now }) db.sessions;
      }
      else db

  abbrev resolved : ℕ → Option (Session × User) → AccountDb → Option Actor × AccountDb
  resolved now none db = (none, db)
  resolved now (some (s, u)) db = (some (actor_of s u), touch now s db)

  unfoldable pub resolve_staff_session : ℕ → String → AccountDb → Option Actor × AccountDb
  unfolding look_up touch
  resolve_staff_session now cookie db = resolved now (look_up now (p.hash_token cookie) db) db

  abbrev best_effort : ℕ → Option String → AccountDb → Option Actor × AccountDb
  best_effort now none db = (none, db)
  best_effort now (some cookie) db = resolve_staff_session now cookie db

  abbrev required : Option Actor × AccountDb → Result (Option Actor) × AccountDb
  required (none, db) = fail 401 unauthenticated db
  required (some a, db) = pure (some a) db

  abbrev signed_in : ℕ → Option String → Exec AccountDb (Option Actor)
  signed_in now none = fail 401 unauthenticated
  signed_in now (some cookie) = λ db. required (resolve_staff_session now cookie db)

  -- who the caller is; on a public route a missing or dead session means an anonymous caller
  unfoldable pub session_guard : ℕ → Request → Exec AccountDb (Option Actor)
  unfolding resolve_staff_session
  session_guard now req db =
      if req.is_public
      then (let (a, db') = best_effort now (given req.cookie) db in pure a db')
      else signed_in now (given req.cookie) db

  abbrev pub csrf_fits : Actor → Option String → Bool
  csrf_fits a none = false
  csrf_fits a (some provided) = str_eq (p.csrf a.token_hash) provided

  unfoldable pub csrf_guard : Request → Option Actor → Exec AccountDb Unit
  csrf_guard req none = pure tt
  csrf_guard req (some a) =
      if is_safe_method req.method || req.is_public
      then pure tt
      else refuse_if (not (csrf_fits a req.csrf_header)) 403 forbidden

  unfoldable pub roles_guard : Request → Option Actor → Exec AccountDb Unit
  roles_guard req actor = elim req.roles [
    | [] ↦ pure tt
    | r ∷ rs ↦ elim actor [
      | none ↦ fail 403 forbidden
      | some a ↦ refuse_if (not (any (same_role a.role) (r ∷ rs))) 403 forbidden
    ]
  ]

  -- the two guards that read who the caller is
  abbrev pub check_actor : Request → Option Actor → Exec AccountDb (Option Actor)
  check_actor req actor = do roles_guard req actor; csrf_guard req actor; pure actor

  -- the guards of a request, before its handler runs
  unfoldable pub admit : ℕ → Request → Exec AccountDb (Option Actor)
  unfolding session_guard csrf_guard roles_guard
  admit now req = session_guard now req >>= check_actor req
