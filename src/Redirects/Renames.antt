-- ===== src/Redirects/Renames.antt =====
-- Where a visitor of an old path ends up after a rename.
use safeer_api.Common.{
  String, ◌≡◌, inl, inr, some, List, [], ◌∷◌, false, ◌||◌, arith, str_eq, eq_iff, eq_refl, find,
  select, delete_where, update_where, All-delete_where, Bool-cases, ok, find-append,
}
use safeer_api.Redirects.{
  Redirect, RedirectDb, leads_from, leads_to, redirect, repoint, clear_redirects_into,
  redirect_rename, resolve,
}

module _ (key : String → String) where
  resolve_found :
      (path : String) (db : RedirectDb) (r : Redirect)
      → str_eq path "" ≡ false
      → find (leads_from key path) db.rows ≡ some r
      → (resolve key path db).0 ≡ ok (r.to_path, r.status_code)
  unfolding resolve
  resolve_found path db r given found = ground (arith, given, found)

  -- the row of the renamed path, before the final clearing
  renamed_row :
      (from_path to_path : String) (db : RedirectDb)
      → find (leads_from key from_path) (redirect_rename key from_path to_path db).rows
        ≡ some (redirect db.next_id from_path to_path 301)
  unfolding redirect_rename
  renamed_row from_path to_path db =
      find-append (leads_from key from_path) _ (redirect db.next_id from_path to_path 301)
        (All-delete_where (leads_from key from_path)
          (update_where (leads_to key from_path) (repoint to_path) db.rows))
        (eq_refl (key from_path))

  -- what the clearing keeps of a selected rule: the first one from a path, if that rule has another target
  -- and the path is not the live one
  find-clear :
      (live path : String) (rs : List Redirect) (r : Redirect)
      → find (leads_from key path) rs ≡ some r
      → str_eq (key path) (key live) ≡ false
      → str_eq (key r.from_path) (key r.to_path) ≡ false
      → find
          (leads_from key path)
          (delete_where (λ s. leads_from key live s || str_eq (key s.from_path) (key s.to_path)) rs)
        ≡ some r
  unfolding find delete_where select
  find-clear live path [] r h e k = h
  find-clear live path (s ∷ ss) r h e k = elim (Bool-cases (leads_from key path s)) [
    | inl here ↦
        let same : s ≡ r = ground (arith, here, h) in
        ground (
          arith,
          here,
          same,
          k,
          h,
          e,
          eq_iff (key s.from_path) (key path),
          eq_iff (key s.from_path) (key live),
          eq_iff (key path) (key live),
        )
    | inr later ↦ ground (arith, later, h, find-clear live path ss r)
  ]

  -- After a published row was renamed, its old path is redirected to its new one with 301, whatever
  -- rules there were, if the paths differ for the
  -- database and the old one is not empty.
  pub resolve-rename :
      (from_path to_path : String) (db : RedirectDb)
      → str_eq (key from_path) (key to_path) ≡ false
      → str_eq from_path "" ≡ false
      → (resolve key from_path
          (clear_redirects_into key to_path (redirect_rename key from_path to_path db))).0
        ≡ ok (to_path, 301)
  unfolding clear_redirects_into
  resolve-rename from_path to_path db apart given =
      resolve_found from_path
        (clear_redirects_into key to_path (redirect_rename key from_path to_path db))
        (redirect db.next_id from_path to_path 301) given
        (find-clear to_path from_path (redirect_rename key from_path to_path db).rows
          (redirect db.next_id from_path to_path 301) (renamed_row from_path to_path db) apart
          apart)
