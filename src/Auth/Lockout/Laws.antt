-- ===== src/Auth/Lockout/Laws.antt =====
-- How long a lock lasts, and when one starts.
use safeer_api.Common.{
  ℕ, zero, suc, ◌+◌, ◌≤◌, ◌<◌, min, ◌≡◌, refl, ◌⊎◌, inl, inr, Option, some, List, [], ◌∷◌, true,
  false, arith, leb, lt→ltb, ◌==◌, ◌∙◌, ap, ◌++◌, Bool-cases, if◌then◌else◌, length,
}
use safeer_api.Accounts.{User, minutes, is_brute_force_locked}
use safeer_api.Auth.Lockout.{
  lock_threshold, lock_max_minutes, lock_minutes, count_failure, register_failure, has_decayed,
  lock_base_minutes,
}

-- The first lock of a run lasts 15 minutes, the second 30, and every later one 60.
pub lock_minutes_schedule :
    (k : ℕ) → lock_minutes k ≡ (if k == 0 then 15 else if k == 1 then 30 else lock_max_minutes)
unfolding lock_minutes
lock_minutes_schedule zero = omega arith
lock_minutes_schedule (suc zero) = omega arith
lock_minutes_schedule (suc (suc zero)) = refl
lock_minutes_schedule (suc (suc (suc zero))) = refl
lock_minutes_schedule (suc (suc (suc (suc zero)))) = refl
lock_minutes_schedule (suc (suc (suc (suc (suc zero))))) = refl
lock_minutes_schedule (suc (suc (suc (suc (suc (suc k)))))) =
    let six : min (suc (suc (suc (suc (suc (suc k)))))) 6 ≡ 6 = omega arith in rw six (ground arith)

lock_minutes_bounds :
    (k : ℕ) → (lock_base_minutes ≤ lock_minutes k) × (lock_minutes k ≤ lock_max_minutes)
lock_minutes_bounds k = ground (arith, lock_minutes_schedule k)

-- After any wrong password fewer than ten failures are on the count, and the end of the lock is
-- what it was, or lies between 15 and 60 minutes ahead.
pub register_failure_bounds :
    (now : ℕ) (u : User)
    → ((register_failure now u).failed_logins < lock_threshold)
      × (((register_failure now u).locked_until ≡ u.locked_until)
          ⊎ ((t : ℕ) × ((register_failure now u).locked_until ≡ some t)
              × (now + minutes lock_base_minutes ≤ t)
              × (t ≤ now + minutes lock_max_minutes)))
unfolding register_failure
register_failure_bounds now u = (
  ground arith,
  elim (Bool-cases (leb lock_threshold (count_failure now u).failed_logins)) [
    | inl full ↦ inr (
      now + minutes (lock_minutes (count_failure now u).lock_count),
      ground arith,
      omega (arith, lock_minutes_bounds (count_failure now u).lock_count),
      omega (arith, lock_minutes_bounds (count_failure now u).lock_count),
    )
    | inr room ↦ inl (ground arith)
  ],
)

-- the account after wrong passwords at the given times
pub register_failures : List ℕ → User → User
register_failures [] u = u
register_failures (t ∷ ts) u = register_failures ts (register_failure t u)

-- No failure comes 24 hours or more after the one before it.
abbrev pub Burst : Option ℕ → List ℕ → Type 0
Burst last [] = Unit
Burst last (t ∷ ts) = (has_decayed t last ≡ false) × Burst (some t) ts

register_failure_counts :
    (t : ℕ) (u : User)
    → has_decayed t u.last_failed_login_at ≡ false
    → u.failed_logins + 1 < lock_threshold
    → ((register_failure t u).failed_logins ≡ u.failed_logins + 1)
      × ((register_failure t u).locked_until ≡ u.locked_until)
      × ((register_failure t u).last_failed_login_at ≡ some t)
unfolding register_failure
register_failure_counts t u h k = (ground arith, ground arith, ground arith)

-- the time of the last wrong password
abbrev pub last_of : Option ℕ → List ℕ → Option ℕ
last_of last [] = last
last_of last (t ∷ ts) = last_of (some t) ts

-- A burst that stays below ten failures only counts: no lock starts.
pub register_failures_below :
    (ts : List ℕ) (u : User)
    → Burst u.last_failed_login_at ts
    → u.failed_logins + length ts < lock_threshold
    → ((register_failures ts u).failed_logins ≡ u.failed_logins + length ts)
      × ((register_failures ts u).locked_until ≡ u.locked_until)
      × ((register_failures ts u).last_failed_login_at ≡ last_of u.last_failed_login_at ts)
unfolding register_failures
register_failures_below [] u b h = (omega arith, refl, refl)
register_failures_below (t ∷ ts) u b h =
    let (count, until, last) = register_failure_counts t u b.0 (omega arith) in
    let (count', until', last') =
      register_failures_below ts (register_failure t u) (rw last b.1) (omega arith) in
    (omega arith, until' ∙ until, last' ∙ ap (λ l. last_of l ts) last)

Burst-append :
    (last : Option ℕ) (ts : List ℕ) (t : ℕ)
    → Burst last (ts ++ t ∷ [])
    → Burst last ts × (has_decayed t (last_of last ts) ≡ false)
Burst-append last [] t b = (tt, b.0)
Burst-append last (s ∷ ts) t b =
    let (rest, now) = Burst-append (some s) ts t b.1 in ((b.0, rest), now)

register_failures-append :
    (ts : List ℕ) (t : ℕ) (u : User)
    → register_failures (ts ++ t ∷ []) u ≡ register_failure t (register_failures ts u)
unfolding register_failures
register_failures-append [] t u = refl
register_failures-append (s ∷ ts) t u = register_failures-append ts t (register_failure s u)

register_failure_locks :
    (t : ℕ) (u : User)
    → has_decayed t u.last_failed_login_at ≡ false
    → u.failed_logins + 1 ≡ lock_threshold
    → (register_failure t u).locked_until
      ≡ some (t + minutes (lock_minutes (count_failure t u).lock_count))
unfolding register_failure
register_failure_locks t u h k = ground arith

-- Ten wrong passwords in one burst, counted from the failures already there, lock the account: the
-- nine first leave the lock as it was, and after the last one the account is locked at every moment
-- earlier than 15 minutes after it.
pub register_failures_lock :
    (ts : List ℕ) (t later : ℕ) (u : User)
    → Burst u.last_failed_login_at (ts ++ t ∷ [])
    → u.failed_logins + length ts + 1 ≡ lock_threshold
    → later < t + minutes lock_base_minutes
    → (is_brute_force_locked (register_failures ts u) later ≡ is_brute_force_locked u later)
      × (is_brute_force_locked (register_failures (ts ++ t ∷ []) u) later ≡ true)
unfolding is_brute_force_locked
register_failures_lock ts t later u b n h =
    let (first, tenth) = Burst-append u.last_failed_login_at ts t b in
    let (count, until, last) = register_failures_below ts u first (omega arith) in
    let decayed : has_decayed t (register_failures ts u).last_failed_login_at ≡ false =
      rw last tenth in
    (
      rw until,
      rw
          (
            register_failures-append ts t u,
            register_failure_locks t (register_failures ts u) decayed (omega arith),
          )
          (lt→ltb _ _ (
            omega
              (arith, lock_minutes_bounds (count_failure t (register_failures ts u)).lock_count))),
    )
