-- ===== src/Redirects/Serve.antt =====
-- Sequences of renames, rules and visits, and where a visitor ends up.
use safeer_api.Common.{
  Bool, ◌&&◌, ℕ, ◌+◌, String, ◌≡◌, refl, ◌∙◌, subst, inl, inr, Option, none, some, List, [], ◌∷◌,
  false, ◌||◌, arith, str_eq, if◌then◌else◌, ◌==◌, find, any, update_where, All-weaken,
  All-update_where_of, All-find, any-update_where_same, find-none, none_of_any, eq_iff, ◌⊎◌, true,
  Bool-cases, Option-cases, Result-cases, ok, err, Problem, find_sound,
}
use safeer_api.Redirects.{
  Redirect, RedirectDb, leads_from, leads_to, redirect, has_redirect_id, is_conflict,
  assert_no_chain, no_one, RedirectEdit, edited_redirect, create_redirect, update_redirect,
  remove_redirect, clear_redirects_into, redirect_rename, resolve, or_default,
}
use safeer_api.Redirects.Direct.{
  is_direct, is_loop, is_direct-weaken, Direct, Direct-delete, Direct-rename,
}
use safeer_api.Redirects.Admin.{Direct-add, Direct-replace, assert_no_chain_sound}

-- what reaches the table: the kernel's renames and new paths, the admin's rules, and visitors
pub data RedirectRequest : Type 0 where
  rename : (from_path to_path : String) → RedirectRequest
  go_live : (path : String) → RedirectRequest
  add : (from_path to_path : String) → Option ℕ → RedirectRequest
  change : (plain : Bool) → ℕ → RedirectEdit → RedirectRequest
  drop : ℕ → RedirectRequest
  visit : (path : String) → RedirectRequest

module _ (key : String → String) where
  unfoldable pub serve_redirect : RedirectRequest → RedirectDb → RedirectDb
  serve_redirect (rename from_path to_path) db =
      clear_redirects_into key to_path (redirect_rename key from_path to_path db)
  serve_redirect (go_live path) db = clear_redirects_into key path db
  serve_redirect (add from_path to_path status) db =
      (create_redirect key from_path to_path status db).1
  serve_redirect (change plain i e) db = (update_redirect key plain i e db).1
  serve_redirect (drop i) db = (remove_redirect i db).1
  serve_redirect (visit path) db = (resolve key path db).1

  unfoldable pub serve_redirects : List RedirectRequest → RedirectDb → RedirectDb
  serve_redirects [] db = db
  serve_redirects (r ∷ rs) db = serve_redirects rs (serve_redirect r db)

  create_redirect-Direct :
      (from_path to_path : String) (status : Option ℕ) (db : RedirectDb)
      → Direct key db
      → Direct key (create_redirect key from_path to_path status db).1
  unfolding create_redirect
  create_redirect-Direct from_path to_path status db d =
      elim (Bool-cases (str_eq from_path to_path)) [
        | inl same ↦ rw same d
        | inr apart ↦ elim (Result-cases (assert_no_chain key no_one from_path to_path db).0) [
          | inr (p, refused) ↦ ground (arith, apart, refused, d)
          | inl (u, free) ↦
              let new = redirect db.next_id from_path to_path (or_default 301 status) in
              let added = Direct-add key new (db.next_id + 1) db d (
                All-weaken (λ r. is_conflict key no_one from_path to_path r ≡ false)
                  (λ r. leads_from key to_path r || leads_to key from_path r ≡ false)
                  (λ r h. ground (arith, h)) db.rows
                  (assert_no_chain_sound key no_one from_path to_path db free)) in
              ground (arith, apart, free, added)
        ]
      ]

  update_redirect-Direct :
      (plain : Bool) (i : ℕ) (e : RedirectEdit) (db : RedirectDb)
      → Direct key db
      → Direct key (update_redirect key plain i e db).1
  unfolding update_redirect
  update_redirect-Direct plain i e db d = elim (Option-cases (find (has_redirect_id i) db.rows)) [
    | inl missing ↦ ground (arith, missing, d)
    | inr (current, found) ↦
        let new = edited_redirect e current in
        let same : current.id ≡ i =
          ground (arith, find_sound (has_redirect_id i) db.rows current found) in
        elim (Bool-cases (str_eq new.from_path new.to_path)) [
          | inl equal ↦ ground (arith, found, equal, d)
          | inr apart ↦
              elim (Result-cases
                (assert_no_chain key (λ j. plain && (j == i)) new.from_path new.to_path db).0) [
                  | inr (p, refused) ↦ ground (arith, found, apart, refused, d)
                  | inl (u, free) ↦
                      let replaced = Direct-replace key new i db d (
                        All-weaken
                          (λ r.
                            is_conflict key (λ j. plain && (j == i)) new.from_path new.to_path r
                            ≡ false)
                          (λ r. is_conflict key (λ j. j == i) new.from_path new.to_path r ≡ false)
                          (λ r h. ground (arith, h)) db.rows
                          (assert_no_chain_sound key (λ j. plain && (j == i)) new.from_path
                            new.to_path db free)) in
                      let rows : (update_redirect key plain i e db).1 ≡ record db {
                        rows = update_where (has_redirect_id i) (λ _. new) db.rows;
                      } =
                        ground (arith, found, apart, free, same) in
                      rw rows replaced
                ]
        ]
  ]

  remove_redirect-Direct :
      (i : ℕ) (db : RedirectDb) → Direct key db → Direct key (remove_redirect i db).1
  unfolding remove_redirect
  remove_redirect-Direct i db d = elim (Option-cases (find (has_redirect_id i) db.rows)) [
    | inl missing ↦ ground (arith, missing, d)
    | inr (row, found) ↦ ground (arith, found, Direct-delete key (has_redirect_id row.id) db d)
  ]

  abbrev count_visit : Redirect → Redirect
  count_visit r = record r { hits = r.hits + 1 }

  resolve-Direct :
      (path : String) (db : RedirectDb) → Direct key db → Direct key (resolve key path db).1
  unfolding resolve
  resolve-Direct path db d = elim (Bool-cases (str_eq path "")) [
    | inl empty ↦ ground (arith, empty, d)
    | inr given ↦ elim (Option-cases (find (leads_from key path) db.rows)) [
      | inl missing ↦ ground (arith, given, missing, d)
      | inr (row, found) ↦
          let visited = update_where (has_redirect_id row.id) count_visit db.rows in
          let rows : (resolve key path db).1.rows ≡ visited = ground (arith, given, found) in
          rw rows (
            All-update_where_of (λ r. is_direct key db.rows r ≡ true)
              (λ r. is_direct key visited r ≡ true) (has_redirect_id row.id) count_visit
              (λ r h.
                counted row.id r (if has_redirect_id row.id r then count_visit r else r)
                  (ground arith) (ground arith) h)
              db.rows d)
    ]
  ]
    where
      counted :
          (i : ℕ) (old r : Redirect)
          → r.from_path ≡ old.from_path
          → r.to_path ≡ old.to_path
          → is_direct key db.rows old ≡ true
          → is_direct key (update_where (has_redirect_id i) count_visit db.rows) r ≡ true
      counted i old r e e' h =
          rw (e, e')
            (is_direct-weaken key db.rows (update_where (has_redirect_id i) count_visit db.rows) old
              (λ k.
                any-update_where_same (leads_from key old.to_path) (has_redirect_id i) count_visit
                  (λ s. refl) db.rows
                ∙ k)
              h)

  serve_redirect-Direct :
      (r : RedirectRequest) (db : RedirectDb) → Direct key db → Direct key (serve_redirect r db)
  unfolding serve_redirect clear_redirects_into
  serve_redirect-Direct (rename from_path to_path) db d = Direct-rename key from_path to_path db d
  serve_redirect-Direct (go_live path) db d = Direct-delete key _ db d
  serve_redirect-Direct (add from_path to_path status) db d =
      create_redirect-Direct from_path to_path status db d
  serve_redirect-Direct (change plain i e) db d = update_redirect-Direct plain i e db d
  serve_redirect-Direct (drop i) db d = remove_redirect-Direct i db d
  serve_redirect-Direct (visit path) db d = resolve-Direct path db d

  serve_redirects-Direct :
      (rs : List RedirectRequest) (db : RedirectDb)
      → Direct key db
      → Direct key (serve_redirects rs db)
  unfolding serve_redirects
  serve_redirects-Direct [] db d = d
  serve_redirects-Direct (r ∷ rs) db d =
      serve_redirects-Direct rs (serve_redirect r db) (serve_redirect-Direct r db d)

  resolved_row :
      (path : String) (db : RedirectDb) (to_path : String) (status : ℕ)
      → (resolve key path db).0 ≡ ok (to_path, status)
      → (r : Redirect) × (find (leads_from key path) db.rows ≡ some r) × (r.to_path ≡ to_path)
  unfolding resolve
  resolved_row path db to_path status h = elim (Bool-cases (str_eq path "")) [
    | inl empty ↦ absurd (ground (arith, empty, h))
    | inr given ↦ elim (Option-cases (find (leads_from key path) db.rows)) [
      | inl missing ↦ absurd (ground (arith, given, missing, h))
      | inr (row, found) ↦ (row, found, ground (arith, given, found, h))
    ]
  ]

  not_resolved :
      (path : String) (db : RedirectDb)
      → find (leads_from key path) db.rows ≡ none
      → (e : Problem) × ((resolve key path db).0 ≡ err e)
  unfolding resolve
  not_resolved path db h = elim (Result-cases (resolve key path db).0) [
    | inr refused ↦ refused
    | inl ((t, s), found) ↦ absurd (ground (arith, h, found))
  ]

  -- Started from a table in which no target is a source, rules between two spellings of one path
  -- aside, whatever renames, new pages, admin's rules and visits come in whatever order, a path that is
  -- redirected leads to a path that is not redirected, or to one that the database takes for the same
  -- path.
  pub serve_redirects_one_hop :
      (rs : List RedirectRequest) (db : RedirectDb) (path to_path : String) (status : ℕ)
      → Direct key db
      → (resolve key path (serve_redirects rs db)).0 ≡ ok (to_path, status)
      → ((e : Problem) × ((resolve key to_path (serve_redirects rs db)).0 ≡ err e))
        ⊎ (str_eq (key path) (key to_path) ≡ true)
  serve_redirects_one_hop rs db path to_path status d h =
      let t = serve_redirects rs db in
      let (row, found, same) = resolved_row path t to_path status h in
      let direct : is_direct key t.rows row ≡ true =
        All-find (λ r. is_direct key t.rows r ≡ true) (leads_from key path) t.rows row found
          (serve_redirects-Direct rs db d) in
      let here : str_eq (key row.from_path) (key path) ≡ true =
        find_sound (leads_from key path) t.rows row found in
      elim (Bool-cases (is_loop key row)) [
        | inl loops ↦ inr (
            subst (λ p. str_eq (key path) (key p) ≡ true) same
              (ground (
                arith,
                here,
                loops,
                eq_iff (key row.from_path) (key path),
                eq_iff (key row.from_path) (key row.to_path),
                eq_iff (key path) (key row.to_path),
              )))
        | inr away ↦ inl (
            not_resolved to_path t (
              find-none (leads_from key to_path) t.rows (
                none_of_any (leads_from key to_path) t.rows (
                  subst (λ p. any (leads_from key p) t.rows ≡ false) same
                    (ground (arith, away, direct))))))
      ]
