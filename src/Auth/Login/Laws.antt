-- ===== src/Auth/Login/Laws.antt =====
-- What a sign-in promises on each outcome.
use safeer_api.Common.{
  ℕ, String, ◌≡◌, refl, ◌≢◌, ◌⊎◌, inl, inr, Option, none, some, [], ◌∷◌, ◌++◌, true, arith,
  count_where, update_where, ok, err, Problem, problem, rate_limited, unauthenticated, Option-cases,
  Result-cases,
}
use safeer_api.Accounts.{
  User, login_failed, login as login_ok, is_brute_force_locked, to_public_user,
}
use safeer_api.Auth.{Platform, Lru, SessionSettings, AuthState}
use safeer_api.Auth.Lockout.{register_failed_attempt}
use safeer_api.Auth.Login.{
  Client, LoginResult, login, check_email_rate_limit, decide_login, find_account, is_usable,
  still_active, new_session, audit_row, signed_in,
}

module _ {C : Type 0} (p : Platform) (lru : Lru C) (settings : SessionSettings) where
  -- the state in which the decision falls: the attempt is counted, and other requests have written
  abbrev pub decided_in : (AuthState C → AuthState C) → String → ℕ → AuthState C → AuthState C
  decided_in others email now s = others (check_email_rate_limit p lru settings email now s).1

  -- the account that the SELECT of `login` reads
  abbrev pub account_read : String → ℕ → AuthState C → Option User
  account_read email now s =
      find_account p lru settings email (check_email_rate_limit p lru settings email now s).1

  -- how a refusal leaves the database
  pub record Refused (user : Option User) (client : Client) (s t : AuthState C) : Type 0 where
    pub sessions : t.db.sessions ≡ s.db.sessions
    pub audit : t.db.audit ≡ s.db.audit ++ audit_row login_failed user client ∷ []

  decide-Refused :
      (email password raw_token : String) (now : ℕ) (client : Client) (user : Option User)
      (s : AuthState C) (e : Problem)
      → (decide_login p lru settings email password raw_token now client user s).0 ≡ err e
      → (e ≡ problem 401 unauthenticated)
        × Refused user client s
            (decide_login p lru settings email password raw_token now client user s).1
  unfolding decide_login register_failed_attempt
  decide-Refused email password raw_token now client none s e h =
      (ground arith, record { sessions = refl; audit = refl })
  decide-Refused email password raw_token now client (some u) s e h =
      (ground arith, record { sessions = ground arith; audit = ground arith })

  -- A sign-in that is refused is either rate limited, with nothing written to the database, or it
  -- ends in the one answer 401 that all other refusals share; then no session is opened and exactly
  -- one `login_failed` row, for the account that was read, is added to the audit log.
  pub login-Refused :
      (others : AuthState C → AuthState C) (email password raw_token : String) (now : ℕ)
      (client : Client) (s : AuthState C) (e : Problem)
      → (login p lru settings others email password raw_token now client s).0 ≡ err e
      → ((e ≡ problem 429 rate_limited)
          × ((login p lru settings others email password raw_token now client s).1.db ≡ s.db))
        ⊎ ((e ≡ problem 401 unauthenticated)
            × Refused
                (account_read email now s)
                client
                (decided_in others email now s)
                (login p lru settings others email password raw_token now client s).1)
  unfolding login
  login-Refused others email password raw_token now client s e h =
      elim (Result-cases (check_email_rate_limit p lru settings email now s).0) [
        | inl (u, passed) ↦ inr (
            ground (
              arith,
              passed,
              decide-Refused email password raw_token now client (account_read email now s)
                  (decided_in others email now s) e,
            ))
        | inr (q, limited) ↦ inl (ground (arith, limited, h))
      ]

  -- what a sign-in that succeeded has checked and written
  pub record SignedIn (email password raw_token : String) (now : ℕ) (client : Client)
      (s t : AuthState C) (r : LoginResult) (read : Option User) : Type 0 where
    pub user : User
    pub was_read : read ≡ some user
    pub usable : is_usable now user ≡ true
    pub verified : p.verify user.password_hash password ≡ true
    pub active_still : count_where (still_active user.id) s.db.users ≢ 0
    pub sessions :
        t.db.sessions
        ≡ s.db.sessions ++ new_session p lru settings now s.db.next_id user.id raw_token client ∷ []
    pub audit : t.db.audit ≡ s.db.audit ++ audit_row login_ok (some user) client ∷ []
    pub users : t.db.users ≡ update_where (still_active user.id) (signed_in now) s.db.users
    pub token : r.token ≡ raw_token
    pub shown : r.user ≡ to_public_user now (signed_in now user)
    pub csrf : r.csrf_token ≡ p.csrf (p.hash_token raw_token)

  decide-SignedIn :
      (email password raw_token : String) (now : ℕ) (client : Client) (user : User)
      (s : AuthState C) (r : LoginResult)
      → (decide_login p lru settings email password raw_token now client (some user) s).0 ≡ ok r
      → SignedIn email password raw_token now client s
          (decide_login p lru settings email password raw_token now client (some user) s).1
          r
          (some user)
  unfolding decide_login
  decide-SignedIn email password raw_token now client user s r h = record {
    user = user;
    was_read = refl;
    usable = ground arith;
    verified = ground arith;
    active_still = ground arith;
    sessions = ground arith;
    audit = ground arith;
    users = ground arith;
    token = ground arith;
    shown = ground arith;
    csrf = ground arith;
  }

  -- A sign-in succeeds only if the account that was read was active and not locked, the password fits
  -- its hash, and the account is still active after what other requests wrote meanwhile. It opens
  -- exactly one session, for that account and this token, and writes one `login` row.
  pub login-SignedIn :
      (others : AuthState C → AuthState C) (email password raw_token : String) (now : ℕ)
      (client : Client) (s : AuthState C) (r : LoginResult)
      → (login p lru settings others email password raw_token now client s).0 ≡ ok r
      → SignedIn email password raw_token now client
          (decided_in others email now s)
          (login p lru settings others email password raw_token now client s).1
          r
          (account_read email now s)
  unfolding login
  login-SignedIn others email password raw_token now client s r h =
      elim (Result-cases (check_email_rate_limit p lru settings email now s).0) [
        | inr (q, limited) ↦ absurd (ground (arith, limited, h))
        | inl (u, passed) ↦ elim (Option-cases (account_read email now s)) [
          | inl unknown ↦ absurd (ground (arith, passed, unknown, h))
          | inr (user, known) ↦ ground (
            arith,
            passed,
            known,
            decide-SignedIn email password raw_token now client user (decided_in others email now s)
                r,
          )
        ]
      ]

  -- While an account is locked, an attempt on it fails whatever the password is, and leaves its
  -- counters and the end of its lock as they were.
  pub login_while_locked :
      (others : AuthState C → AuthState C) (email password raw_token : String) (now : ℕ)
      (client : Client) (s : AuthState C) (user : User)
      → account_read email now s ≡ some user
      → is_brute_force_locked user now ≡ true
      → ((e : Problem) × ((login p lru settings others email password raw_token now client s).0
            ≡ err e))
        × (((login p lru settings others email password raw_token now client s).1.db.users
              ≡ s.db.users)
            ⊎ ((login p lru settings others email password raw_token now client s).1.db.users
                ≡ (decided_in others email now s).db.users))
  unfolding login
  login_while_locked others email password raw_token now client s user known locked =
      elim (Result-cases (check_email_rate_limit p lru settings email now s).0) [
        | inr (q, limited) ↦ ((q, ground (arith, limited)), inl (ground (arith, limited)))
        | inl (u, passed) ↦ (
          (problem 401 unauthenticated, ground (arith, passed, known, locked)),
          inr (ground (arith, passed, known, locked)),
        )
      ]
