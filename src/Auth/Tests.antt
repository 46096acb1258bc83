-- ===== src/Auth/Tests.antt =====
-- The theorems on locks and sign-in at small data.
use safeer_api.Common as Common
use safeer_api.Common.{
  eq_refl, ℕ, ◌+◌, ◌≤◌, ◌<◌, ◌≡◌, refl, ◌≢◌, ◌⊎◌, inl, inr, Option, none, some, List, [], ◌∷◌, ◌++◌,
  true, false, not, ◌&&◌, arith, find, any, All, str_eq, count_where, ok, err, problem, Problem,
  rate_limited, unauthenticated, validation_failed, map, if◌then◌else◌, ◌==◌, length, String,
}
use safeer_api.Accounts.{User, is_brute_force_locked, to_public_user, minutes}
use safeer_api.Auth.{AuthState}
use safeer_api.Auth.Lockout.{lock_max_minutes, lock_threshold, lock_base_minutes, register_failure}
use safeer_api.Auth.Lockout.Laws.{
  register_failure_bounds, register_failures, register_failures_lock,
}
use safeer_api.Auth.Login.{
  check_email_rate_limit, decide_login, refuse, Client, LoginResult, login, signed_in,
}
use safeer_api.Auth.Login.Laws.{
  login-Refused, login-SignedIn, login_while_locked, SignedIn, Refused, account_read, decided_in,
}
use safeer_api.Auth.Login.Limit.{Attempt, attempt, AllRefused, LruLaws, login_limited, attempts_at}
use safeer_api.Samples.{ada, bob, accounts, platform, entries, Entries, settings, state}

abbrev nine_wrong : User
nine_wrong = record ada { failed_logins = 9; last_failed_login_at = some 100 }

register_failure_bounds_example :
    ((register_failure 200 nine_wrong).failed_logins < lock_threshold)
    × (((register_failure 200 nine_wrong).locked_until ≡ nine_wrong.locked_until)
        ⊎ ((t : ℕ) × ((register_failure 200 nine_wrong).locked_until ≡ some t)
            × (200 + minutes lock_base_minutes ≤ t)
            × (t ≤ 200 + minutes lock_max_minutes)))
register_failure_bounds_example = register_failure_bounds 200 nine_wrong

abbrev eight_wrong : User
eight_wrong = record ada { failed_logins = 8; last_failed_login_at = some 100 }

register_failures_lock_example :
    (is_brute_force_locked (register_failures (200 ∷ []) eight_wrong) 900000
      ≡ is_brute_force_locked eight_wrong 900000)
    × (is_brute_force_locked (register_failures (200 ∷ 300 ∷ []) eight_wrong) 900000 ≡ true)
register_failures_lock_example =
    register_failures_lock (200 ∷ []) 300 900000 eight_wrong (refl, (refl, tt)) refl (omega arith)

abbrev browser : Client
browser = record { ip_hash = none; user_agent = none }

abbrev quiet : AuthState Entries → AuthState Entries
quiet s = s

abbrev wrong_login : AuthState Entries
unfolding login
wrong_login = (login platform entries settings quiet "ada" "reef" "star" 5000 browser state).1

login-Refused_example :
    ((problem 401 unauthenticated ≡ problem 429 rate_limited) × (wrong_login.db ≡ state.db))
    ⊎ ((problem 401 unauthenticated ≡ problem 401 unauthenticated)
        × Refused platform entries settings
            (account_read platform entries settings "ada" 5000 state)
            browser
            (decided_in platform entries settings quiet "ada" 5000 state)
            wrong_login)
unfolding login Common.count_where find wrong_login is_brute_force_locked
login-Refused_example =
    login-Refused platform entries settings quiet "ada" "reef" "star" 5000 browser state
      (problem 401 unauthenticated) refl

abbrev ada_in : LoginResult
unfolding to_public_user
ada_in = record {
  token = "star";
  user = to_public_user 5000 (signed_in 5000 ada);
  csrf_token = "star";
}

login-SignedIn_example :
    SignedIn platform entries settings "ada" "tide" "star" 5000 browser
      (decided_in platform entries settings quiet "ada" 5000 state)
      (login platform entries settings quiet "ada" "tide" "star" 5000 browser state).1
      ada_in
      (account_read platform entries settings "ada" 5000 state)
unfolding login Common.count_where find ada_in is_brute_force_locked
login-SignedIn_example =
    login-SignedIn platform entries settings quiet "ada" "tide" "star" 5000 browser state ada_in
      refl

abbrev locked_ada : User
locked_ada = record ada { locked_until = some 900000 }

abbrev locked_state : AuthState Entries
locked_state = record state { db = record accounts { users = locked_ada ∷ bob ∷ [] } }

login_while_locked_example :
    ((e : Problem) × ((login platform entries settings quiet "ada" "tide" "star" 5000 browser
          locked_state).0
        ≡ err e))
    × (((login platform entries settings quiet "ada" "tide" "star" 5000 browser
            locked_state).1.db.users
          ≡ locked_state.db.users)
        ⊎ ((login platform entries settings quiet "ada" "tide" "star" 5000 browser
              locked_state).1.db.users
            ≡ (decided_in platform entries settings quiet "ada" 5000 locked_state).db.users))
unfolding login find is_brute_force_locked
login_while_locked_example =
    login_while_locked platform entries settings quiet "ada" "tide" "star" 5000 browser locked_state
      locked_ada refl refl

entries-LruLaws : LruLaws entries
unfolding find
entries-LruLaws = record { get-set = λ key n now later c h. ground (arith, eq_refl key, h) }

-- five attempts, 50 seconds apart
-- a sign-in on an address that no account has
abbrev stranger : ℕ → Attempt Entries
stranger at = record {
  at = at;
  password = "tide";
  raw_token = "star";
  client = browser;
  others = quiet;
}

abbrev four_more : List (Attempt Entries)
four_more = stranger 60000 ∷ stranger 110000 ∷ stranger 160000 ∷ stranger 210000 ∷ []

login_limited_example :
    (attempt platform entries settings "zoe"
      (stranger 260000)
      (attempts_at platform entries settings "zoe" (stranger 10000 ∷ four_more) state)).0
    ≡ err (problem 429 rate_limited)
unfolding AllRefused attempts_at login check_email_rate_limit decide_login refuse find
login_limited_example =
    login_limited platform entries settings "zoe" entries-LruLaws (stranger 10000) four_more
      (stranger 260000) state
      (
        (_, refl),
        (λ t. refl),
        (
          (_, refl),
          (λ t. refl),
          ((_, refl), (λ t. refl), ((_, refl), (λ t. refl), ((_, refl), (λ t. refl), tt))),
        ),
      )
      refl refl (omega arith, (omega arith, (omega arith, (omega arith, tt)))) (omega arith)
