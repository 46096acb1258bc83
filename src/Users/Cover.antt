-- ===== src/Users/Cover.antt =====
-- A usable admin is always left, whatever staff requests are served.
use safeer_api.Common.{
  ℕ, ◌+◌, ◌<◌, ◌≡◌, refl, sym, subst, ◌≢◌, ◌⊎◌, inl, inr, some, List, [], ◌∷◌, ◌++◌, Bool, true,
  false, not, arith, ◌==◌, if◌then◌else◌, All-update_where, All-select, All-find, find, any, select,
  All, All-append, ok, Bool-cases, Option-cases, Result-cases, find_sound, any_of_count_where,
  any-update_where, any-select, any-update_where_found, any-append_left, update_where, delete_where,
}
use safeer_api.Accounts.{User, AccountDb, has_id}
use safeer_api.Users.{
  UpdateUserInput, is_usable_admin, is_other_usable_admin, is_last_cover, find_by_id, edited,
  store_edit, update, delete_user, remove,
}

-- The primary key: no two rows share an id.
abbrev pub UniqueIds : List User → Type 0
UniqueIds [] = Unit
UniqueIds (u ∷ us) = All (λ v. v.id ≢ u.id) us × UniqueIds us

pub record IsCovered (db : AccountDb) : Type 0 where
  pub unique : UniqueIds db.users
  pub fresh : All (λ u. u.id < db.next_id) db.users
  pub cover : any is_usable_admin db.users ≡ true

-- The only row with the id is the one that was read.
others_of_unique :
    (i : ℕ) (us : List User)
    → All (λ v. v.id ≢ i) us
    → any is_usable_admin us ≡ true
    → any (is_other_usable_admin i) us ≡ true
unfolding any
others_of_unique i [] a h = h
others_of_unique i (u ∷ us) a h = ground (arith, others_of_unique i us a.1)

cover_cases :
    (i : ℕ) (us : List User) (x : User)
    → UniqueIds us
    → find (has_id i) us ≡ some x
    → any is_usable_admin us ≡ true
    → (is_usable_admin x ≡ true) ⊎ (any (is_other_usable_admin i) us ≡ true)
unfolding find any
cover_cases i [] x un e h = inr h
cover_cases i (u ∷ us) x un e h =
    ground (arith, cover_cases i us x un.1, others_of_unique u.id us un.0, others_of_unique i us)

pub edited_lem :
    (actor text : ℕ) (before : User) (input : UpdateUserInput) (db : AccountDb)
    → (edited actor text before input db).1 ≡ db
unfolding edited
edited_lem actor text before input db = ground arith

-- An edit keeps the id, and leaves the account a usable admin if it is the last cover.
pub edited_keeps :
    (actor text : ℕ) (before : User) (input : UpdateUserInput) (db : AccountDb) (after : User)
    → (edited actor text before input db).0 ≡ ok after
    → (after.id ≡ before.id) × (is_last_cover before db ≡ true → is_usable_admin after ≡ true)
unfolding edited
edited_keeps actor text before input db after h = (ground arith, ground arith)

UniqueIds-update_where :
    (i : ℕ) (y : User) (us : List User)
    → y.id ≡ i
    → UniqueIds us
    → UniqueIds (update_where (has_id i) (λ _. y) us)
unfolding update_where
UniqueIds-update_where i y [] e un = tt
UniqueIds-update_where i y (u ∷ us) e un = (away us un.0, UniqueIds-update_where i y us e un.1)
  where
    away :
        (vs : List User)
        → All (λ v. v.id ≢ u.id) vs
        → All (λ v. v.id ≢ (if u.id == i then y else u).id) (update_where (has_id i) (λ _. y) vs)
    away [] a = tt
    away (v ∷ vs) a = (ground arith, away vs a.1)

UniqueIds-select : (p : User → Bool) (us : List User) → UniqueIds us → UniqueIds (select p us)
unfolding select
UniqueIds-select p [] un = tt
UniqueIds-select p (u ∷ us) un =
    head (p u) (All-select (λ v. v.id ≢ u.id) p us un.0) (UniqueIds-select p us un.1)
  where
    head :
        (b : Bool)
        → All (λ v. v.id ≢ u.id) (select p us)
        → UniqueIds (select p us)
        → UniqueIds (if b then u ∷ select p us else select p us)
    head true a k = (a, k)
    head false a k = k

is_last_cover_of_no_other :
    (x : User) (db : AccountDb)
    → is_usable_admin x ≡ true
    → is_last_cover x db ≡ false
    → any (is_other_usable_admin x.id) db.users ≡ true
unfolding is_last_cover
is_last_cover_of_no_other x db u h =
    any_of_count_where (is_other_usable_admin x.id) db.users (ground arith)

-- Either the row that was read covers the office, or another one does.
cover_split :
    (x : User) (db : AccountDb)
    → IsCovered db
    → find (has_id x.id) db.users ≡ some x
    → (is_last_cover x db ≡ true) ⊎ (any (is_other_usable_admin x.id) db.users ≡ true)
cover_split x db c found = elim (cover_cases x.id db.users x c.unique found c.cover) [
  | inr other ↦ inr other
  | inl usable ↦ elim (Bool-cases (is_last_cover x db)) [
    | inl last ↦ inl last
    | inr more ↦ inr (is_last_cover_of_no_other x db usable more)
  ]
]

-- the row, its sessions and its links change, and the users are those of `save_user`
users-store_edit :
    (now : ℕ) (before after : User) (input : UpdateUserInput) (db : AccountDb)
    → ((store_edit now before after input db).users
        ≡ update_where (has_id after.id) (λ _. after) db.users)
      × ((store_edit now before after input db).next_id ≡ db.next_id)
unfolding store_edit
users-store_edit now before after input db = (ground arith, ground arith)

store_edit-IsCovered :
    (now actor text : ℕ) (before after : User) (input : UpdateUserInput) (db : AccountDb)
    → find (has_id before.id) db.users ≡ some before
    → (edited actor text before input db).0 ≡ ok after
    → IsCovered db
    → IsCovered (store_edit now before after input db)
store_edit-IsCovered now actor text before after input db found e c =
    let (users, next) = users-store_edit now before after input db in
    let (same, last) = edited_keeps actor text before input db after e in
    let found' : find (has_id after.id) db.users ≡ some before = rw same found in
    let id_fits =
      All-find (λ u. u.id < db.next_id) (has_id before.id) db.users before found c.fresh in
    record {
      unique = rw users (UniqueIds-update_where after.id after db.users refl c.unique);
      fresh =
          rw (users, next)
            (All-update_where (λ u. u.id < db.next_id) (has_id after.id) (λ _. after)
              (λ u h. ground arith) db.users c.fresh);
      cover = rw users (elim (cover_split before db c found) [
        | inl only ↦
            any-update_where_found (has_id after.id) is_usable_admin after db.users before found'
              (last only)
        | inr other ↦
            any-update_where (is_other_usable_admin before.id) is_usable_admin (has_id after.id)
              (λ _. after) (λ u h. ground arith) db.users other
      ]);
    }

pub update-IsCovered :
    (now actor text i : ℕ) (input : UpdateUserInput) (db : AccountDb)
    → IsCovered db
    → IsCovered (update now actor text i input db).1
unfolding update find_by_id
update-IsCovered now actor text i input db c = elim (Option-cases (find (has_id i) db.users)) [
  | inl missing ↦ ground (arith, c)
  | inr (before, found) ↦
      let same : before.id ≡ i = ground (arith, find_sound (has_id i) db.users before found) in
      elim (Result-cases (edited actor text before input db).0) [
        | inl (after, e) ↦ ground (
          arith,
          edited_lem actor text before input db,
          store_edit-IsCovered now actor text before after input db
              (subst (λ k. find (has_id k) db.users ≡ some before) (sym same) found) e c,
        )
        | inr (p, e) ↦ ground (arith, c)
      ]
]

delete_user-IsCovered :
    (target : User) (db : AccountDb)
    → IsCovered db
    → find (has_id target.id) db.users ≡ some target
    → is_last_cover target db ≡ false
    → IsCovered (delete_user target.id db)
unfolding delete_user delete_where
delete_user-IsCovered target db c found h = record {
  unique = UniqueIds-select (λ u. not (has_id target.id u)) db.users c.unique;
  fresh = All-select (λ u. u.id < db.next_id) (λ u. not (has_id target.id u)) db.users c.fresh;
  cover = elim (cover_split target db c found) [
    | inl last ↦ cc
    | inr other ↦
        any-select (is_other_usable_admin target.id) is_usable_admin (λ u. not (has_id target.id u))
          (λ u k. ground arith) db.users other
  ];
}

pub remove-IsCovered :
    (now actor text i : ℕ) (db : AccountDb)
    → IsCovered db
    → IsCovered (remove now actor text i db).1
unfolding remove find_by_id
remove-IsCovered now actor text i db c = elim (Option-cases (find (has_id i) db.users)) [
  | inl missing ↦ ground (arith, c)
  | inr (target, found) ↦
      let same : target.id ≡ i = ground (arith, find_sound (has_id i) db.users target found) in
      elim (Bool-cases (is_last_cover target db)) [
        | inl last ↦ ground (arith, c)
        | inr more ↦ ground (
          arith,
          c,
          delete_user-IsCovered target db c
              (subst (λ k. find (has_id k) db.users ≡ some target) (sym same) found) more,
        )
      ]
]

module _ (u : User) where
  ids_of_append :
      (n : ℕ) (us : List User)
      → u.id ≡ n
      → All (λ v. v.id < n) us
      → All (λ v. v.id < n + 1) (us ++ u ∷ [])
  ids_of_append n [] e a = (omega arith, tt)
  ids_of_append n (v ∷ vs) e a = (omega arith, ids_of_append n vs e a.1)

  apart_of_append :
      (i : ℕ) (us : List User)
      → u.id ≢ i
      → All (λ w. w.id ≢ i) us
      → All (λ w. w.id ≢ i) (us ++ u ∷ [])
  apart_of_append i us h a = All-append (λ w. w.id ≢ i) us (u ∷ []) a (h, tt)

  UniqueIds-append :
      (us : List User) → All (λ v. v.id < u.id) us → UniqueIds us → UniqueIds (us ++ u ∷ [])
  UniqueIds-append [] a un = (tt, tt)
  UniqueIds-append (v ∷ vs) a un =
      (apart_of_append v.id vs (omega arith) un.0, UniqueIds-append vs a.1 un.1)

-- The new row takes the next id and changes no other row.
pub append_invited-IsCovered :
    (u : User) (db : AccountDb)
    → u.id ≡ db.next_id
    → IsCovered db
    → IsCovered (record db { users = db.users ++ u ∷ []; next_id = db.next_id + 1 })
append_invited-IsCovered u db e c = record {
  unique =
      UniqueIds-append u db.users (subst (λ n. All (λ v. v.id < n) db.users) (sym e) c.fresh)
        c.unique;
  fresh = ids_of_append u db.next_id db.users e c.fresh;
  cover = any-append_left is_usable_admin db.users (u ∷ []) c.cover;
}
