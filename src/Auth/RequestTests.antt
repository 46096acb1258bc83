-- ===== src/Auth/RequestTests.antt =====
-- The theorems on sessions, guards and links at small data.
use safeer_api.Common as Common
use safeer_api.Auth.Sessions as Sessions
use safeer_api.Common.{
  List, Bool, ℕ, ◌+◌, ◌≤◌, ◌<◌, ◌≡◌, refl, ◌≢◌, ◌⊎◌, inl, inr, Option, none, some, [], ◌∷◌, ◌++◌,
  true, false, not, ◌&&◌, arith, find, any, All, str_eq, count_where, ok, err, problem, Problem,
  rate_limited, unauthenticated, validation_failed, map, if◌then◌else◌, ◌==◌, length, String,
}
use safeer_api.Accounts.{
  User, AuthToken, admin, has_id, is_open_session_of, is_admin, is_null, Session, reset,
  is_brute_force_locked, PublicUser, to_public_user,
}
use safeer_api.Auth.{AuthState}
use safeer_api.Auth.Login.{Client, LoginResult, login, signed_in}
use safeer_api.Auth.Sessions.{
  is_live_of, list_sessions, summary, has_session_id, end_session, change_password, is_other_open,
}
use safeer_api.Auth.Sessions.Laws.{end_session_outcome, change_password_sessions}
use safeer_api.Auth.Guards.{Actor, Request, admit, resolve_staff_session}
use safeer_api.Auth.Guards.Laws.{Admitted, admit_sound}
use safeer_api.Auth.Guards.SignIn.{resolve_staff_session-login}
use safeer_api.Auth.Tokens.{use_link, reset_password, is_redeemable}
use safeer_api.Auth.Tokens.Laws.{use_link_once}
use safeer_api.Auth.Tokens.Outcome.{Completed, use_link_outcome, reset_password-sessions}
use safeer_api.Samples.{ada, bob, accounts, platform, entries, Entries, settings, state}

-- Ada, an admin, ends Bob's session.
end_session_outcome_example :
    ((e : Problem) × (end_session 2000 1 admin 5 accounts ≡ (err e, accounts)))
    ⊎ ((s : Session) × (find (has_session_id 5) accounts.sessions ≡ some s)
        × ((s.user_id ≡ 1) ⊎ (is_admin admin ≡ true))
        × All
            (λ t. has_session_id 5 t && is_null t.revoked_at ≡ false)
            (end_session 2000 1 admin 5 accounts).1.sessions)
end_session_outcome_example = end_session_outcome 2000 1 admin 5 accounts

change_password_sessions_example :
    (u : User) × (find (has_id 1) accounts.users ≡ some u)
    × (platform.verify u.password_hash "tide" ≡ true)
    × All
        (λ s. is_other_open 1 9 s ≡ false)
        (change_password platform 2000 1 "tide" "wave" 9 accounts).1.sessions
unfolding change_password find
change_password_sessions_example =
    change_password_sessions platform 2000 1 "tide" "wave" 9 accounts refl

-- a change of a role by an admin
abbrev request : Request
request = record {
  method = "PATCH";
  cookie = some "sun";
  csrf_header = some "sun";
  is_public = false;
  roles = admin ∷ [];
}

abbrev ada_calls : Actor
ada_calls = record { id = 1; role = admin; session_id = 4; token_hash = "sun" }

admit_sound_example : Admitted platform settings 2000 request accounts (some ada_calls)
unfolding admit find any Sessions.is_live
admit_sound_example = admit_sound platform settings 2000 request accounts (some ada_calls) refl refl

abbrev browser : Client
browser = record { ip_hash = none; user_agent = none }

abbrev quiet : AuthState Entries → AuthState Entries
quiet s = s

abbrev ada_in : LoginResult
unfolding to_public_user is_brute_force_locked
ada_in = record {
  token = "star";
  user = to_public_user 5000 (signed_in 5000 ada);
  csrf_token = "star";
}

-- an hour later
resolve_staff_session-login_example :
    (a : Actor) × ((resolve_staff_session platform settings 3605000 "star"
        (login platform entries settings quiet "ada" "tide" "star" 5000 browser state).1.db).0
      ≡ some a)
    × (a.id ≡ 1)
unfolding login Common.count_where find ada_in
resolve_staff_session-login_example =
    resolve_staff_session-login platform entries settings quiet "ada" "tide" "star" 5000 3605000
      browser state ada_in refl (refl, (refl, tt)) (omega arith) (omega arith)

abbrev bob_shown : PublicUser
unfolding to_public_user is_brute_force_locked
bob_shown = to_public_user 5000 bob

use_link_once_example :
    use_link platform reset 6000 "link" "wave"
      (use_link platform reset 5000 "link" "surf" accounts).1
    ≡ (err (problem 400 validation_failed), (use_link platform reset 5000 "link" "surf" accounts).1)
unfolding use_link find bob_shown
use_link_once_example =
    use_link_once platform reset reset 5000 6000 "link" "surf" "wave" accounts bob_shown (tt, tt)
      refl

use_link_outcome_example :
    (use_link platform reset 5000 "link" "surf" accounts
      ≡ (err (problem 400 validation_failed), accounts))
    ⊎ Completed platform reset 5000 "link" "surf" accounts
        (use_link platform reset 5000 "link" "surf" accounts).1
use_link_outcome_example = use_link_outcome platform reset 5000 "link" "surf" accounts

reset_password-sessions_example :
    (t : AuthToken) × (find (is_redeemable platform 5000 "link" reset) accounts.tokens ≡ some t)
    × All
        (λ s. is_open_session_of t.user_id s ≡ false)
        (reset_password platform 5000 "link" "surf" accounts).1.sessions
unfolding use_link find bob_shown
reset_password-sessions_example =
    reset_password-sessions platform 5000 "link" "surf" accounts bob_shown refl
