-- ===== src/Redirects/Direct.antt =====
-- The invariant of the redirects, and that renames keep it.
use safeer_api.Common.{
  String, ◌≡◌, refl, ◌∙◌, List, ◌⊎◌, inl, inr, [], ◌∷◌, ◌++◌, Bool, true, false, ◌||◌, not, arith,
  str_eq, eq_iff, eq_refl, if◌then◌else◌, any, delete_where, update_where, All, All-append,
  All-select, All-weaken, All-update_where_of, any-append, any-select_none, any-update_where_same,
  any-delete_where_done, Bool-cases,
}
use safeer_api.Redirects.{
  Redirect, RedirectDb, leads_from, leads_to, redirect, repoint, clear_redirects_into,
  redirect_rename,
}

module _ (key : String → String) where
  -- a rule between two spellings of one path
  abbrev pub is_loop : Redirect → Bool
  is_loop r = str_eq (key r.from_path) (key r.to_path)

  -- The target of the rule is the source of none of the rules, the loops aside.
  abbrev pub is_direct : List Redirect → Redirect → Bool
  is_direct rows r = is_loop r || not (any (leads_from key r.to_path) rows)

  abbrev pub Direct : RedirectDb → Type 0
  Direct db = All (λ r. is_direct db.rows r ≡ true) db.rows

  pub is_direct-weaken :
      (rows rows' : List Redirect) (r : Redirect)
      → (any (leads_from key r.to_path) rows ≡ false → any (leads_from key r.to_path) rows' ≡ false)
      → is_direct rows r ≡ true
      → is_direct rows' r ≡ true
  is_direct-weaken rows rows' r f h = elim (Bool-cases (any (leads_from key r.to_path) rows)) [
    | inl met ↦ ground (arith, met, h)
    | inr free ↦
        let free' : any (leads_from key r.to_path) rows' ≡ false = f free in ground (arith, free')
  ]

  pub Direct-delete :
      (p : Redirect → Bool) (db : RedirectDb)
      → Direct db
      → Direct (record db { rows = delete_where p db.rows })
  unfolding delete_where
  Direct-delete p db d =
      All-select (λ r. is_direct (delete_where p db.rows) r ≡ true) (λ r. not (p r)) db.rows
        (All-weaken (λ r. is_direct db.rows r ≡ true)
          (λ r. is_direct (delete_where p db.rows) r ≡ true)
          (λ r h.
            is_direct-weaken db.rows (delete_where p db.rows) r
              (λ k. any-select_none (leads_from key r.to_path) (λ s. not (p s)) db.rows k) h)
          db.rows d)

  module _ (from_path to_path : String) (db : RedirectDb) where
    -- a path that is no source after the rename: the new one, or one that was none before
    abbrev IsFree : String → Type 0
    IsFree path =
        (str_eq (key path) (key to_path) ≡ true)
        ⊎ ((str_eq (key path) (key from_path) ≡ false)
            × (any (leads_from key path) db.rows ≡ false))

    abbrev Fits : Redirect → Type 0
    Fits r = (is_loop r ≡ true) ⊎ IsFree r.to_path

    abbrev renamed : RedirectDb
    renamed = clear_redirects_into key to_path (redirect_rename key from_path to_path db)

    free_is_no_source :
        (path : String) → IsFree path → any (leads_from key path) renamed.rows ≡ false
    unfolding clear_redirects_into redirect_rename delete_where any
    free_is_no_source path (inl here) =
        any-delete_where_done (leads_from key path)
          (λ r. leads_from key to_path r || str_eq (key r.from_path) (key r.to_path))
          (λ r h. ground (
            arith,
            here,
            h,
            eq_iff (key path) (key to_path),
            eq_iff (key r.from_path) (key path),
            eq_iff (key r.from_path) (key to_path),
          ))
          _
    free_is_no_source path (inr (other, none_before)) =
        let moved = update_where (leads_to key from_path) (repoint to_path) db.rows in
        let kept = delete_where (leads_from key from_path) moved in
        let new = redirect db.next_id from_path to_path 301 in
        let in_moved : any (leads_from key path) moved ≡ false =
          any-update_where_same (leads_from key path) (leads_to key from_path) (repoint to_path)
            (λ r. refl) db.rows
          ∙ none_before in
        let in_kept : any (leads_from key path) kept ≡ false =
          any-select_none (leads_from key path) (λ r. not (leads_from key from_path r)) moved
            in_moved in
        let in_new : any (leads_from key path) (kept ++ new ∷ []) ≡ false =
          any-append (leads_from key path) kept (new ∷ [])
          ∙ ground (
            arith,
            in_kept,
            other,
            eq_iff (key path) (key from_path),
            eq_iff (key from_path) (key path),
          ) in
        any-select_none (leads_from key path) _ (kept ++ new ∷ []) in_new

    pub Direct-rename : Direct db → Direct renamed
    unfolding clear_redirects_into redirect_rename delete_where
    Direct-rename d =
        let moved = update_where (leads_to key from_path) (repoint to_path) db.rows in
        let kept = delete_where (leads_from key from_path) moved in
        let new = redirect db.next_id from_path to_path 301 in
        let free : All Fits moved =
          All-update_where_of (λ r. is_direct db.rows r ≡ true) Fits (leads_to key from_path)
            (repoint to_path) (λ r h. free_target r h) db.rows d in
        let all_free : All Fits renamed.rows = All-select Fits _ (kept ++ new ∷ []) (
          All-append Fits kept (new ∷ [])
            (All-select Fits (λ r. not (leads_from key from_path r)) moved free)
            (inr (inl (eq_refl (key to_path))), tt)) in
        All-weaken Fits (λ r. is_direct renamed.rows r ≡ true) (λ r h. settled r h) renamed.rows
          all_free
      where
        free_target :
            (r : Redirect)
            → is_direct db.rows r ≡ true
            → Fits (if leads_to key from_path r then repoint to_path r else r)
        free_target r h = elim (Bool-cases (leads_to key from_path r)) [
          | inl moves ↦ rw moves (inr (inl (eq_refl (key to_path))))
          | inr stays ↦ elim (Bool-cases (is_loop r)) [
            | inl loops ↦ rw stays (inl loops)
            | inr away ↦ rw stays (inr (inr (stays, ground (arith, away, h))))
          ]
        ]

        settled : (r : Redirect) → Fits r → is_direct renamed.rows r ≡ true
        settled r (inl loops) = ground (arith, loops)
        settled r (inr free) =
            let none_left : any (leads_from key r.to_path) renamed.rows ≡ false =
              free_is_no_source r.to_path free in
            ground (arith, none_left)
