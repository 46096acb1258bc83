-- ===== src/Auth/Guards/Laws.antt =====
-- Who gets past the guards, and that a sign-in does.
use safeer_api.Common.{
  >>=-eq-ok, subst, ℕ, String, ◌≡◌, refl, ◌⊎◌, inl, inr, Option, none, some, [], true, false, arith,
  eq_iff, find, any, find_sound, Result, ok, err, Option-cases, Bool-cases,
}
use safeer_api.Accounts.{User, Session, AccountDb, same_role, is_active}
use safeer_api.Auth.{Platform, SessionSettings}
use safeer_api.Auth.Sessions.{is_live}
use safeer_api.Auth.Guards.{
  Actor, Request, given, is_safe_method, is_active_account, is_session_of_token, look_up,
  session_guard, csrf_guard, roles_guard, admit, check_actor, csrf_fits, actor_of,
}

module _ (p : Platform) (settings : SessionSettings) where
  -- the session and the account behind an actor
  pub record Authenticated (now : ℕ) (cookie : String) (db : AccountDb) (a : Actor) : Type 0 where
    pub session : Session
    pub user : User
    pub hash : session.token_hash ≡ p.hash_token cookie
    pub live : is_live settings now session ≡ true
    pub owner : user.id ≡ session.user_id
    pub active : is_active user.status ≡ true
    pub listed :
        find (is_session_of_token p settings now (p.hash_token cookie) db.users) db.sessions
        ≡ some session
    pub is_actor : a ≡ actor_of p settings session user

  look_up_sound :
      (now : ℕ) (cookie : String) (db : AccountDb) (s : Session) (u : User)
      → look_up p settings now (p.hash_token cookie) db ≡ some (s, u)
      → Authenticated now cookie db (actor_of p settings s u)
  unfolding look_up
  look_up_sound now cookie db s u h =
      elim (Option-cases
        (find (is_session_of_token p settings now (p.hash_token cookie) db.users) db.sessions)) [
          | inl nothing ↦ absurd (ground (arith, nothing, h))
          | inr (s', found) ↦ elim (Option-cases (find (is_active_account s'.user_id) db.users)) [
            | inl nobody ↦ absurd (ground (arith, found, nobody, h))
            | inr (u', known) ↦
                let same_s : s' ≡ s = ground (arith, found, known, h) in
                let same_u : u' ≡ u = ground (arith, found, known, h) in
                let passes =
                  find_sound (is_session_of_token p settings now (p.hash_token cookie) db.users)
                    db.sessions s' found in
                let is_user = find_sound (is_active_account s'.user_id) db.users u' known in
                record {
                  session = s;
                  user = u;
                  hash = ground (arith, passes, same_s, eq_iff s'.token_hash (p.hash_token cookie));
                  live = ground (arith, passes, same_s);
                  owner = ground (arith, is_user, same_s, same_u);
                  active = ground (arith, is_user, same_u);
                  listed = ground (arith, found, same_s);
                  is_actor = refl;
                }
          ]
        ]

  session_guard_sound :
      (now : ℕ) (req : Request) (db : AccountDb) (a : Option Actor)
      → req.is_public ≡ false
      → (session_guard p settings now req db).0 ≡ ok a
      → (cookie : String) × (s : Session) × (u : User) × (given req.cookie ≡ some cookie)
        × (look_up p settings now (p.hash_token cookie) db ≡ some (s, u))
        × (a ≡ some (actor_of p settings s u))
  unfolding session_guard
  session_guard_sound now req db a staff h = elim (Option-cases (given req.cookie)) [
    | inl missing ↦ absurd (ground (arith, missing, staff, h))
    | inr (cookie, present) ↦
        elim (Option-cases (look_up p settings now (p.hash_token cookie) db)) [
          | inl nobody ↦ absurd (ground (arith, present, nobody, staff, h))
          | inr ((s, u), found) ↦
              (cookie, s, u, present, found, ground (arith, present, found, staff, h))
        ]
  ]

  -- what a request that reaches the handler of a staff route has shown
  pub record Admitted (now : ℕ) (req : Request) (db : AccountDb) (a : Option Actor) : Type 0 where
    pub cookie : String
    pub actor : Actor
    pub caller : a ≡ some actor
    pub present : given req.cookie ≡ some cookie
    pub known : Authenticated now cookie db actor
    pub role : (req.roles ≡ []) ⊎ (any (same_role actor.role) req.roles ≡ true)
    pub csrf :
        (is_safe_method req.method ≡ true) ⊎ (csrf_fits p settings actor req.csrf_header ≡ true)

  roles_guard_sound :
      (req : Request) (a : Actor) (db : AccountDb)
      → (roles_guard p settings req (some a) db).0 ≡ ok tt
      → (req.roles ≡ []) ⊎ (any (same_role a.role) req.roles ≡ true)
  unfolding roles_guard
  roles_guard_sound req a db h = elim (Bool-cases (any (same_role a.role) req.roles)) [
    | inl fits ↦ inr fits
    | inr other ↦ inl (ground (arith, other, h))
  ]

  csrf_guard_sound :
      (req : Request) (a : Actor) (db : AccountDb)
      → req.is_public ≡ false
      → (csrf_guard p settings req (some a) db).0 ≡ ok tt
      → (is_safe_method req.method ≡ true) ⊎ (csrf_fits p settings a req.csrf_header ≡ true)
  unfolding csrf_guard
  csrf_guard_sound req a db staff h = elim (Bool-cases (is_safe_method req.method)) [
    | inl safe ↦ inl safe
    | inr unsafe ↦ inr (ground (arith, unsafe, staff, h))
  ]

  -- what the two later guards let through
  check_actor_sound :
      (req : Request) (db : AccountDb) (actor : Actor) (a : Option Actor)
      → req.is_public ≡ false
      → (check_actor p settings req (some actor) db).0 ≡ ok a
      → (a ≡ some actor)
        × ((req.roles ≡ []) ⊎ (any (same_role actor.role) req.roles ≡ true))
        × ((is_safe_method req.method ≡ true) ⊎ (csrf_fits p settings actor req.csrf_header ≡ true))
  check_actor_sound req db actor a staff h =
      let (_u, role, rest) = >>=-eq-ok (roles_guard p settings req (some actor)) _ db h in
      let (_v, csrf, last) = >>=-eq-ok (csrf_guard p settings req (some actor)) _ _ rest in
      (cc last, roles_guard_sound req actor db role, csrf_guard_sound req actor _ staff csrf)

  -- A request reaches the handler of a route that is not public only with a cookie that names a live
  -- session of an active account, with a role that the route asks for if it asks for any, and, unless
  -- its method is GET, HEAD or OPTIONS, with the CSRF token of that session.
  pub admit_sound :
      (now : ℕ) (req : Request) (db : AccountDb) (a : Option Actor)
      → req.is_public ≡ false
      → (admit p settings now req db).0 ≡ ok a
      → Admitted now req db a
  unfolding admit
  admit_sound now req db a staff h =
      let (b, passed, checks) =
        >>=-eq-ok (session_guard p settings now req) (check_actor p settings req) db h in
      let (cookie, s, u, present, found, is_actor) =
        session_guard_sound now req db b staff passed in
      let actor = actor_of p settings s u in
      let (caller, role, csrf) =
        check_actor_sound req (session_guard p settings now req db).1 actor a staff (
          subst
            (λ c. (check_actor p settings req c (session_guard p settings now req db).1).0 ≡ ok a)
            is_actor checks) in
      record {
        cookie = cookie;
        actor = actor;
        caller = caller;
        present = present;
        known = look_up_sound now cookie db s u found;
        role = role;
        csrf = csrf;
      }

  abbrev pub or_anonymous : Result (Option Actor) → Option Actor
  or_anonymous (ok a) = a
  or_anonymous (err e) = none

  -- On a public route the session guard never refuses: the caller is who a staff route would have
  -- accepted, and anonymous where a staff route would have refused, and the same is written.
  pub session_guard_public :
      (now : ℕ) (req : Request) (db : AccountDb)
      → req.is_public ≡ true
      → ((session_guard p settings now req db).0
          ≡ ok
              (or_anonymous (session_guard p settings now (record req { is_public = false }) db).0))
        × ((session_guard p settings now req db).1
            ≡ (session_guard p settings now (record req { is_public = false }) db).1)
  unfolding session_guard
  session_guard_public now req db h = elim (Option-cases (given req.cookie)) [
    | inl missing ↦ (ground (arith, h, missing), ground (arith, h, missing))
    | inr (cookie, present) ↦
        elim (Option-cases (look_up p settings now (p.hash_token cookie) db)) [
          | inl nobody ↦ (ground (arith, h, present, nobody), ground (arith, h, present, nobody))
          | inr (found, known) ↦
              (ground (arith, h, present, known), ground (arith, h, present, known))
        ]
  ]
