-- ===== src/Users/Effects.antt =====
-- What `update` writes, and what it leaves alone.
use safeer_api.Common.{
  ℕ, ◌≡◌, refl, ◌∙◌, ap, ◌≢◌, ◌⊎◌, inl, inr, some, List, true, false, arith, find, All,
  update_where, ok, Option-cases, Result-cases, find_sound, All-update_where_done, All-delete_where,
  find-update_where, find-update_where_self,
}
use safeer_api.Accounts.{
  User, PublicUser, AccountDb, has_id, is_disabled, is_open_session_of, is_unused_token_of, revoke,
}
use safeer_api.Users.{
  UpdateUserInput, to_disabled, is_disabling, find_by_id, edited, store_edit, update,
}
use safeer_api.Users.Cover.{edited_lem, edited_keeps}

-- The parts of an update that succeeded.
record Updated (now actor text i : ℕ) (input : UpdateUserInput) (db db' : AccountDb) : Type 0 where
  before : User
  after : User
  found : find (has_id i) db.users ≡ some before
  id_before : before.id ≡ i
  id_after : after.id ≡ i
  allowed : (edited actor text before input db).0 ≡ ok after
  stored : db' ≡ store_edit now before after input db

update_ok :
    (now actor text i : ℕ) (input : UpdateUserInput) (db : AccountDb) (r : PublicUser × PublicUser)
    → (update now actor text i input db).0 ≡ ok r
    → Updated now actor text i input db (update now actor text i input db).1
unfolding update find_by_id
update_ok now actor text i input db r h = elim (Option-cases (find (has_id i) db.users)) [
  | inl missing ↦ absurd (ground (arith, h, missing))
  | inr (before, found) ↦ elim (Result-cases (edited actor text before input db).0) [
    | inr (p, e) ↦ absurd (ground (arith, h, found, e))
    | inl (after, e) ↦
        let same : before.id ≡ i = ground (arith, find_sound (has_id i) db.users before found) in
        record {
          before = before;
          after = after;
          found = found;
          id_before = same;
          id_after = ground (arith, edited_keeps actor text before input db after e);
          allowed = e;
          stored = ground (arith, found, e, edited_lem actor text before input db);
        }
  ]
]

-- A user who edits the own account keeps the role.
edited-role_self :
    (before : User) (input : UpdateUserInput) (db : AccountDb) (after : User)
    → (edited before.id before.id before input db).0 ≡ ok after
    → after.role ≡ before.role
unfolding edited
edited-role_self before input db after h = ground arith

edited-disabled :
    (actor text : ℕ) (before : User) (input : UpdateUserInput) (db : AccountDb) (after : User)
    → (edited actor text before input db).0 ≡ ok after
    → input.status ≡ some to_disabled
    → is_disabled after.status ≡ true
unfolding edited
edited-disabled actor text before input db after h off = ground arith

users-store_edit :
    (now i : ℕ) (before after : User) (input : UpdateUserInput) (db : AccountDb)
    → after.id ≡ i
    → (store_edit now before after input db).users ≡ update_where (has_id i) (λ _. after) db.users
unfolding store_edit
users-store_edit now i before after input db e = rw (← e) (ground arith)

find_updated :
    (i : ℕ) (after : User) (us : List User) (before : User)
    → after.id ≡ i
    → find (has_id i) us ≡ some before
    → find (has_id i) (update_where (has_id i) (λ _. after) us) ≡ some after
find_updated i after us before e found =
    find-update_where_self (has_id i) (λ _. after) (λ x h. ground arith) us before found

-- Whenever an update that sets the status of an account to disabled succeeds, and the account was
-- not disabled before, its row is disabled afterwards, no session of it is unrevoked, and no unused
-- invitation or reset link of it is left.
pub update-disables :
    (now actor text i : ℕ) (input : UpdateUserInput) (db : AccountDb) (r : PublicUser × PublicUser)
    (before : User)
    → find (has_id i) db.users ≡ some before
    → is_disabled before.status ≡ false
    → input.status ≡ some to_disabled
    → (update now actor text i input db).0 ≡ ok r
    → (after : User) × (find (has_id i) (update now actor text i input db).1.users ≡ some after)
      × (is_disabled after.status ≡ true)
      × All (λ s. is_open_session_of i s ≡ false) (update now actor text i input db).1.sessions
      × All (λ t. is_unused_token_of i t ≡ false) (update now actor text i input db).1.tokens
unfolding store_edit
update-disables now actor text i input db r before found on off h =
    let u = update_ok now actor text i input db r h in
    let disabling : is_disabling u.before input.status ≡ true = ground (arith, u.found) in
    (
      u.after,
      rw (u.stored, users-store_edit now i u.before u.after input db u.id_after)
          (find_updated i u.after db.users u.before u.id_after u.found),
      edited-disabled actor text u.before input db u.after u.allowed off,
      rw (u.stored, disabling, u.id_before)
          (All-update_where_done (is_open_session_of i) (revoke now) (λ s e. ground arith)
            db.sessions),
      rw (u.stored, disabling, u.id_before) (All-delete_where (is_unused_token_of i) db.tokens),
    )

-- The outcome of an update, for the rows of the table.
users-update :
    (now actor text i : ℕ) (input : UpdateUserInput) (db : AccountDb)
    → ((update now actor text i input db).1 ≡ db)
      ⊎ ((r : PublicUser × PublicUser) × ((update now actor text i input db).0 ≡ ok r))
unfolding update find_by_id
users-update now actor text i input db = elim (Result-cases (update now actor text i input db).0) [
  | inl ok_case ↦ inr ok_case
  | inr (p, e) ↦ inl (ground (arith, e))
]

-- Updating one account, successfully or not, changes no other account's row.
pub update_frame :
    (now actor text i j : ℕ) (input : UpdateUserInput) (db : AccountDb)
    → j ≢ i
    → find (has_id j) (update now actor text i input db).1.users ≡ find (has_id j) db.users
update_frame now actor text i j input db h = elim (users-update now actor text i input db) [
  | inl same ↦ rw same
  | inr (r, e) ↦
      let u = update_ok now actor text i input db r e in
      rw (u.stored, users-store_edit now i u.before u.after input db u.id_after)
        (find-update_where (has_id j) (has_id i) (λ _. u.after)
          (λ x k. let same : u.after.id ≡ i = u.id_after in (ground arith, ground arith)) db.users)
]

-- Whatever a user asks to change on the own account, under the id as the database writes it, the role
-- in its row stays.
pub update-role_self :
    (now i : ℕ) (input : UpdateUserInput) (db : AccountDb) (before : User)
    → find (has_id i) db.users ≡ some before
    → (after : User) × (find (has_id i) (update now i i i input db).1.users ≡ some after)
      × (after.role ≡ before.role)
update-role_self now i input db before found = elim (users-update now i i i input db) [
  | inl same ↦ (before, rw same found, refl)
  | inr (r, e) ↦
      let u = update_ok now i i i input db r e in
      let same_row : u.before ≡ before = ground (arith, u.found, found) in
      let self : (edited u.before.id u.before.id u.before input db).0 ≡ ok u.after =
        rw u.id_before u.allowed in
      (
        u.after,
        rw (u.stored, users-store_edit now i u.before u.after input db u.id_after)
            (find_updated i u.after db.users u.before u.id_after u.found),
        edited-role_self u.before input db u.after self ∙ ap (λ (v : User). v.role) same_row,
      )
]
