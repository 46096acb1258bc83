-- ===== src/Auth/Login/Limit.antt =====
-- The counter of sign-in attempts per address: what five attempts in a row lead to.
use safeer_api.Common.{
  refl, Bool-cases, inl, inr, Problem, Exec, count_where, ◌==◌, false, leb, ℕ, ◌+◌, ◌≤◌, ◌<◌, ◌≡◌,
  String, List, [], ◌∷◌, Option, none, some, arith, length, err, problem, rate_limited, ap, ◌∙◌,
}
use safeer_api.Auth.{Platform, Lru, SessionSettings, AuthState}
use safeer_api.Accounts.{User}
use safeer_api.Auth.Login.{
  LoginResult, decide_login, refuse, finish_login, open_session, is_usable, still_active,
  find_account, login_attempt_limit, Client, check_email_rate_limit, login, or_zero,
}

-- `lru-cache`: an entry answers until its TTL of a minute after its last `set` is over, while the
-- cache is not full
pub record LruLaws {C : Type 0} (lru : Lru C) : Type 0 where
  pub get-set :
      (key : String) (n now later : ℕ) (c : C)
      → later ≤ now + 60000
      → (lru.get key later (lru.set key n now c)).0 ≡ some n

-- Each time is at most a minute after the one before.
abbrev pub Steady : ℕ → List ℕ → Type 0
Steady last [] = Unit
Steady last (t ∷ ts) = (t ≤ last + 60000) × Steady t ts

abbrev pub last_time : ℕ → List ℕ → ℕ
last_time t [] = t
last_time t (u ∷ us) = last_time u us

-- a sign-in on the address, with what other requests write while its password is verified
pub record Attempt (C : Type 0) : Type 0 where
  pub at : ℕ
  pub password : String
  pub raw_token : String
  pub client : Client
  pub others : AuthState C → AuthState C

abbrev pub times : {C : Type 0} → List (Attempt C) → List ℕ
times [] = []
times (a ∷ more) = a.at ∷ times more

module _ {C : Type 0} (p : Platform) (lru : Lru C) (settings : SessionSettings)
    (email : String) where
  abbrev pub attempt : Attempt C → Exec (AuthState C) LoginResult
  attempt a = login p lru settings a.others email a.password a.raw_token a.at a.client

  -- the state after the sign-ins, one after the other
  unfoldable pub attempts_at : List (Attempt C) → AuthState C → AuthState C
  attempts_at [] s = s
  attempts_at (a ∷ more) s = attempts_at more (attempt a s).1

  -- each of the sign-ins is refused, and no other request touches the counters during one of them
  unfoldable pub AllRefused : List (Attempt C) → AuthState C → Type 0
  AllRefused [] s = Unit
  AllRefused (a ∷ more) s =
      ((e : Problem) × ((attempt a s).0 ≡ err e))
      × ((t : AuthState C) → (a.others t).attempts ≡ t.attempts)
      × AllRefused more (attempt a s).1

  -- a refusal leaves the counters
  attempts-decide :
      (password raw_token : String) (now : ℕ) (client : Client) (user : Option User)
      (s : AuthState C) (e : Problem)
      → (decide_login p lru settings email password raw_token now client user s).0 ≡ err e
      → (decide_login p lru settings email password raw_token now client user s).1.attempts
        ≡ s.attempts
  unfolding decide_login refuse finish_login open_session
  attempts-decide password raw_token now client none s e h = refl
  attempts-decide password raw_token now client (some user) s e h =
      elim (Bool-cases (is_usable now user)) [
        | inr blocked ↦ ground (arith, blocked)
        | inl usable ↦ elim (Bool-cases (p.verify user.password_hash password)) [
          | inr wrong ↦ ground (arith, usable, wrong)
          | inl right ↦ elim (Bool-cases (count_where (still_active user.id) s.db.users == 0)) [
            | inl gone ↦ ground (arith, usable, right, gone)
            | inr there ↦ absurd (ground (arith, usable, right, there, h))
          ]
        ]
      ]

  attempts-attempt :
      (a : Attempt C) (s : AuthState C) (e : Problem)
      → (attempt a s).0 ≡ err e
      → ((t : AuthState C) → (a.others t).attempts ≡ t.attempts)
      → (attempt a s).1.attempts ≡ (check_email_rate_limit p lru settings email a.at s).1.attempts
  unfolding login check_email_rate_limit
  attempts-attempt a s e h quiet =
      elim (Bool-cases
        (leb login_attempt_limit (or_zero (lru.get (p.to_lower email) a.at s.attempts).0))) [
          | inl full ↦ rw full refl
          | inr room ↦
              let counted = (check_email_rate_limit p lru settings email a.at s).1 in
              let user = find_account p lru settings email counted in
              let refused : (decide_login p lru settings email a.password a.raw_token a.at a.client
                    user (a.others counted)).0
                  ≡ err e =
                ground (arith, room, h) in
              let same =
                attempts-decide a.password a.raw_token a.at a.client user (a.others counted) e
                  refused in
              ground (arith, room, same, quiet counted)
        ]

  -- the number of attempts that the counter shows at a time
  abbrev counter : ℕ → AuthState C → Option ℕ
  counter now s = (lru.get (p.to_lower email) now s.attempts).0

  module _ (laws : LruLaws lru) where
    check_counts :
        (now later n : ℕ) (s : AuthState C)
        → or_zero (counter now s) ≡ n
        → n < login_attempt_limit
        → later ≤ now + 60000
        → counter later (check_email_rate_limit p lru settings email now s).1 ≡ some (n + 1)
    unfolding check_email_rate_limit
    check_counts now later n s e h k =
        let room : leb login_attempt_limit (or_zero (counter now s)) ≡ false =
          ground (arith, e, h) in
        rw (room, e)
          (laws.get-set (p.to_lower email) (n + 1) now later
            (lru.get (p.to_lower email) now s.attempts).1 k)

    attempts_count :
        (a : Attempt C) (more : List (Attempt C)) (later n : ℕ) (s : AuthState C)
        → AllRefused (a ∷ more) s
        → or_zero (counter a.at s) ≡ n
        → n + length more < login_attempt_limit
        → Steady a.at (times more)
        → later ≤ last_time a.at (times more) + 60000
        → counter later (attempts_at (a ∷ more) s) ≡ some (n + length more + 1)
    unfolding attempts_at AllRefused
    attempts_count a [] later n s ((e, h), quiet, rest) start room st k =
        ap (λ c. (lru.get (p.to_lower email) later c).0) (attempts-attempt a s e h quiet)
        ∙ check_counts a.at later n s start (omega arith) k
        ∙ ap some (omega arith)
    attempts_count a (b ∷ bs) later n s ((e, h), quiet, rest) start room st k =
        attempts_count b bs later (n + 1) (attempt a s).1 rest
          (ap or_zero (
            ap (λ c. (lru.get (p.to_lower email) b.at c).0) (attempts-attempt a s e h quiet)
            ∙ check_counts a.at b.at n s start (omega arith) st.0))
          (omega arith) st.1 k
        ∙ ap some (omega arith)

    -- After five sign-ins on an address that were refused, the first with no earlier one on the count
    -- and each at most a minute after the one before, a sign-in at most a minute after the last is
    -- refused with 429, whatever the password is. No other request touches the counters during one of
    -- the five.
    pub login_limited :
        (a : Attempt C) (more : List (Attempt C)) (next : Attempt C) (s : AuthState C)
        → AllRefused (a ∷ more) s
        → (lru.get (p.to_lower email) a.at s.attempts).0 ≡ none
        → length more ≡ 4
        → Steady a.at (times more)
        → next.at ≤ last_time a.at (times more) + 60000
        → (attempt next (attempts_at (a ∷ more) s)).0 ≡ err (problem 429 rate_limited)
    unfolding login check_email_rate_limit
    login_limited a more next s refused start four steady soon =
        let full : counter next.at (attempts_at (a ∷ more) s) ≡ some 5 =
          attempts_count a more next.at 0 s refused (ap or_zero start) (omega arith) steady soon
          ∙ ap some (omega arith) in
        ground (arith, full)
