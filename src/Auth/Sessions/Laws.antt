-- ===== src/Auth/Sessions/Laws.antt =====
-- Which sessions an operation ends, and which it lists.
use safeer_api.Common.{
  All-update_where_total, count_where, if◌then◌else◌, leb, leb→le, select, map, ℕ, ◌+◌, ◌≤◌, String,
  ◌≡◌, refl, ap, ◌∙◌, ◌⊎◌, inl, inr, some, List, [], ◌∷◌, Bool, true, false, not, ◌&&◌, arith, ◌==◌,
  leb, find, All, select, update_where, count_where, ok, err, Problem, problem, not_found,
  forbidden, Option-cases, Bool-cases, find_sound, All-update_where_done, if◌then◌else◌, map,
}
use safeer_api.Accounts.{User, UserRole, Session, AccountDb, is_admin, is_null, revoke, has_id}
use safeer_api.Auth.{Platform, SessionSettings}
use safeer_api.Auth.Sessions.{
  is_live_of, newest_first, insert_newest, list_sessions, summary, has_session_id, is_live_of,
  end_session, change_password, is_other_open, newest_first, insert_newest, list_sessions, summary,
}

-- An account ends a session by its id only if the session is its own or the account is an admin; the
-- session is then revoked, and without success nothing is written.
pub end_session_outcome :
    (now actor : ℕ) (role : UserRole) (target : ℕ) (db : AccountDb)
    → (((e : Problem) × (end_session now actor role target db ≡ (err e, db))))
      ⊎ ((s : Session) × (find (has_session_id target) db.sessions ≡ some s)
          × ((s.user_id ≡ actor) ⊎ (is_admin role ≡ true))
          × All
              (λ t. has_session_id target t && is_null t.revoked_at ≡ false)
              (end_session now actor role target db).1.sessions)
unfolding end_session
end_session_outcome now actor role target db =
    elim (Option-cases (find (has_session_id target) db.sessions)) [
      | inl missing ↦ inl (problem 404 not_found, ground (arith, missing))
      | inr (s, found) ↦
          let same = find_sound (has_session_id target) db.sessions s found in
          elim (Bool-cases (not (s.user_id == actor) && not (is_admin role))) [
            | inl stranger ↦ inl (problem 403 forbidden, ground (arith, found, stranger))
            | inr allowed ↦
                let id : s.id ≡ target = ground (arith, same) in
                let sessions : (end_session now actor role target db).1.sessions
                    ≡ update_where (has_session_id s.id) (λ _. revoke now s) db.sessions =
                  ground (arith, found, allowed) in
                inr (
                  s,
                  found,
                  ground (arith, allowed),
                  rw sessions (
                      All-update_where_total
                        (λ t. has_session_id target t && is_null t.revoked_at ≡ false)
                        (has_session_id s.id) (λ _. revoke now s) (λ t. ground (arith, id))
                        db.sessions),
                )
          ]
    ]

-- A change of password that succeeds had the current password, and leaves the account no unrevoked
-- session but the current one.
pub change_password_sessions :
    (p : Platform) (now user_id : ℕ) (old new_hash : String) (current : ℕ) (db : AccountDb)
    → (change_password p now user_id old new_hash current db).0 ≡ ok tt
    → (u : User) × (find (has_id user_id) db.users ≡ some u)
      × (p.verify u.password_hash old ≡ true)
      × All
          (λ s. is_other_open user_id current s ≡ false)
          (change_password p now user_id old new_hash current db).1.sessions
unfolding change_password
change_password_sessions p now user_id old new_hash current db h =
    elim (Option-cases (find (has_id user_id) db.users)) [
      | inl missing ↦ absurd (ground (arith, missing, h))
      | inr (u, found) ↦ elim (Bool-cases (p.verify u.password_hash old)) [
        | inr wrong ↦ absurd (ground (arith, found, wrong, h))
        | inl fits ↦
            let sessions : (change_password p now user_id old new_hash current db).1.sessions
                ≡ update_where (is_other_open user_id current) (revoke now) db.sessions =
              ground (arith, found, fits) in
            (
              u,
              found,
              fits,
              rw sessions (
                  All-update_where_done (is_other_open user_id current) (revoke now)
                    (λ s e. ground arith) db.sessions),
            )
      ]
    ]

-- `a` is listed before `b` if it was seen no earlier
abbrev pub NewestFirst : List Session → Type 0
NewestFirst [] = Unit
NewestFirst (s ∷ ss) = All (λ t. t.last_seen_at ≤ s.last_seen_at) ss × NewestFirst ss

All-insert_newest {ℓ} :
    (P : Session → Type ℓ) (s : Session) (ss : List Session)
    → P s
    → All P ss
    → All P (insert_newest s ss)
unfolding insert_newest
All-insert_newest P s [] h a = (h, tt)
All-insert_newest P s (t ∷ ts) h a =
    head (leb t.last_seen_at s.last_seen_at) (All-insert_newest P s ts h a.1)
  where
    head :
        (b : Bool)
        → All P (insert_newest s ts)
        → All P (if b then s ∷ t ∷ ts else t ∷ insert_newest s ts)
    head true k = (h, a)
    head false k = (a.0, k)

insert_newest-NewestFirst :
    (s : Session) (ss : List Session) → NewestFirst ss → NewestFirst (insert_newest s ss)
unfolding insert_newest
insert_newest-NewestFirst s [] n = (tt, tt)
insert_newest-NewestFirst s (t ∷ ts) n = elim (Bool-cases (leb t.last_seen_at s.last_seen_at)) [
  | inl first ↦ rw first ((leb→le _ _ first, below t.last_seen_at ts (leb→le _ _ first) n.0), n)
  | inr after ↦ rw after (
    All-insert_newest (λ u. u.last_seen_at ≤ t.last_seen_at) s ts (ground (arith, after)) n.0,
    insert_newest-NewestFirst s ts n.1,
  )
]
  where
    below :
        (i : ℕ) (us : List Session)
        → i ≤ s.last_seen_at
        → All (λ u. u.last_seen_at ≤ i) us
        → All (λ u. u.last_seen_at ≤ s.last_seen_at) us
    below i [] h a = tt
    below i (u ∷ us) h a = (omega arith, below i us h a.1)

count_where-insert_newest :
    (q : Session → Bool) (s : Session) (ss : List Session)
    → count_where q (insert_newest s ss) ≡ count_where q (s ∷ ss)
unfolding count_where insert_newest
count_where-insert_newest q s [] = refl
count_where-insert_newest q s (t ∷ ts) = ground (arith, count_where-insert_newest q s ts)

count_where-newest_first :
    (q : Session → Bool) (ss : List Session) → count_where q (newest_first ss) ≡ count_where q ss
unfolding count_where newest_first
count_where-newest_first q [] = refl
count_where-newest_first q (s ∷ ss) =
    count_where-insert_newest q s (newest_first ss)
    ∙ ap (λ n. (if q s then 1 else 0) + n) (count_where-newest_first q ss)

newest_first-NewestFirst : (ss : List Session) → NewestFirst (newest_first ss)
unfolding newest_first
newest_first-NewestFirst [] = tt
newest_first-NewestFirst (s ∷ ss) =
    insert_newest-NewestFirst s (newest_first ss) (newest_first-NewestFirst ss)

count_where-select :
    (p q : Session → Bool) (ss : List Session)
    → count_where q (select p ss) ≡ count_where (λ s. p s && q s) ss
unfolding count_where select
count_where-select p q [] = refl
count_where-select p q (s ∷ ss) = ground (arith, count_where-select p q ss)

-- The sessions page lists the live sessions of the user, each as often as the table has it and no
-- other, the most recently seen first.
pub list_sessions_live :
    (settings : SessionSettings) (now user_id current : ℕ) (db : AccountDb)
    → (ss : List Session) × (list_sessions settings now user_id current db
        ≡ map (summary current) ss)
      × NewestFirst ss
      × ((q : Session → Bool)
          → count_where q ss
            ≡ count_where (λ s. is_live_of settings now user_id s && q s) db.sessions)
unfolding list_sessions
list_sessions_live settings now user_id current db =
    let live = select (is_live_of settings now user_id) db.sessions in
    (
      newest_first live,
      refl,
      newest_first-NewestFirst live,
      λ q.
          count_where-newest_first q live
          ∙ count_where-select (is_live_of settings now user_id) q db.sessions,
    )
