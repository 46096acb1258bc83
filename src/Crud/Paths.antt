-- ===== src/Crud/Paths.antt =====
-- The paths of a collection: what a rename does to the redirects.
use safeer_api.Common.{
  ℕ, String, ◌≡◌, refl, subst, inl, inr, Option, none, some, Bool, true, false, ◌&&◌, not, arith,
  str_eq, eq_iff, ap, ◌∙◌, Result, find, any, Bool-cases, Option-cases, ok,
}
use safeer_api.Redirects.{RedirectDb, redirect_rename, clear_redirects_into, resolve}
use safeer_api.Redirects.Renames.{resolve-rename}
use safeer_api.Crud.{
  CrudOptions, CrudDb, Saved, with_warnings, create_action, update_kind, create, update, publish,
  reorder, remove, lacks_alt, has_row_id, save_with_redirect, live_path, non_empty, is_new_slug,
  move_path, save,
}
use safeer_api.Crud.Serve.{
  CrudRequest, create_row, update_row, publish_row, reorder_rows, remove_row, serve_row,
  apply_publish_rules_cases,
}

-- what the kernel does to the redirects: a path is renamed, or goes live
pub data PathMove : Type 0 where
  renames : (from_path to_path : String) → PathMove
  goes_live : (path : String) → PathMove

unfoldable pub as_redirects : (String → String) → Option PathMove → RedirectDb → RedirectDb
as_redirects key none db = db
as_redirects key (some (renames from_path to_path)) db =
    clear_redirects_into key to_path (redirect_rename key from_path to_path db)
as_redirects key (some (goes_live path)) db = clear_redirects_into key path db

module _ {E D : Type 0} (o : CrudOptions E D) where
  abbrev pub path_of : E → Option String
  path_of e = live_path o o.redirect_from e

  -- the answer is a row with this path
  abbrev pub Answers : Result (Saved E) → String → Type 0
  Answers r path = (saved : Saved E) × (r ≡ ok saved) × (path_of saved.row ≡ some path)

  -- the row of the request is published, with this path
  abbrev pub Leaves : ℕ → CrudDb E → String → Type 0
  Leaves i db path =
      (before : E) × (find (has_row_id o i) db.rows ≡ some before)
      × (o.is_published before ≡ true)
      × (path_of before ≡ some path)

  -- which moves a request may make
  abbrev pub Allowed : CrudRequest D → CrudDb E → Option PathMove → Type 0
  Allowed r db none = Unit
  Allowed (create_row dto) db (some (renames a b)) = ⊥
  Allowed (create_row dto) db (some (goes_live p)) = Answers (create o dto db).0 p
  Allowed (update_row i dto) db (some (renames a b)) =
      Leaves i db a × Answers (update o i dto db).0 b
  Allowed (update_row i dto) db (some (goes_live p)) = Answers (update o i dto db).0 p
  Allowed (publish_row i next) db (some m) = ⊥
  Allowed (reorder_rows items) db (some m) = ⊥
  Allowed (remove_row i) db (some m) = ⊥

  abbrev Moves : CrudRequest D → CrudDb E → CrudDb E → Type 0
  Moves r db after =
      (m : Option PathMove) × (after.redirects ≡ as_redirects o.weight m db.redirects)
      × Allowed r db m

  -- what a save moves, `before` being the old row
  abbrev Fits : E → E → Option PathMove → Type 0
  Fits e before none = Unit
  Fits e before (some (renames a b)) =
      (o.is_published before ≡ true) × (path_of before ≡ some a) × (path_of e ≡ some b)
  Fits e before (some (goes_live p)) = path_of e ≡ some p

  move_path_lem :
      (e before : E) (db : CrudDb E)
      → (m : Option PathMove) × ((move_path o
            (o.is_published before)
            (path_of before)
            (path_of e)
            db).redirects
          ≡ as_redirects o.weight m db.redirects)
        × Fits e before m
  unfolding as_redirects
  move_path_lem e before db = elim (Option-cases (path_of e)) [
    | inl no_path ↦ (none, rw no_path refl, tt)
    | inr (to_path, live) ↦ elim (Option-cases (path_of before)) [
      | inl no_path ↦ (some (goes_live to_path), rw (live, no_path) refl, live)
      | inr (from_path, left) ↦
          elim (Bool-cases (o.is_published before && not (str_eq from_path to_path))) [
            | inl moves ↦ (
              some (renames from_path to_path),
              rw (live, left, moves) refl,
              (ground (arith, moves), left, live),
            )
            | inr stays ↦ (some (goes_live to_path), rw (live, left, stays) refl, live)
          ]
    ]
  ]

  save_with_redirect_lem :
      (e before : E) (db : CrudDb E)
      → (m : Option PathMove) × ((save_with_redirect o e before db).redirects
          ≡ as_redirects o.weight m db.redirects)
        × Fits e before m
  unfolding save_with_redirect as_redirects
  save_with_redirect_lem e before db =
      elim (Bool-cases (is_new_slug o (non_empty (o.slug before)) (non_empty (o.slug e)))) [
        | inl moves ↦ rw moves (move_path_lem e before (save o e db))
        | inr stays ↦ rw stays (none, refl, tt)
      ]

  Moves-create : (dto : D) (db : CrudDb E) → Moves (create_row dto) db (create o dto db).1
  unfolding create as_redirects
  Moves-create dto db = elim (Bool-cases (any (lacks_alt (o.asset_ids dto)) db.assets)) [
    | inl lacks ↦ (none, rw lacks refl, tt)
    | inr ready ↦
        let new = o.make db.next_id dto in
        elim (apply_publish_rules_cases o (λ _. false) (o.is_published new) true new db) [
          | inr (p, blocked) ↦ (none, rw (ready, blocked) refl, tt)
          | inl (e, passes) ↦ elim (Option-cases (path_of (o.stored e))) [
            | inl no_path ↦ (none, rw (ready, passes, no_path) refl, tt)
            | inr (path, live) ↦ (
              some (goes_live path),
              rw (ready, passes, live) refl,
              (with_warnings o create_action (o.stored e), rw (ready, passes) refl, live),
            )
          ]
        ]
  ]

  Moves-update :
      (i : ℕ) (dto : D) (db : CrudDb E) → Moves (update_row i dto) db (update o i dto db).1
  unfolding update as_redirects
  Moves-update i dto db = elim (Bool-cases (any (lacks_alt (o.asset_ids dto)) db.assets)) [
    | inl lacks ↦ (none, rw lacks refl, tt)
    | inr ready ↦ elim (Option-cases (find (has_row_id o i) db.rows)) [
      | inl missing ↦ (none, rw (ready, missing) refl, tt)
      | inr (before, found) ↦
          let entity = o.assign dto before in
          elim (apply_publish_rules_cases o (λ _. false) (o.is_published entity)
            (not (o.is_published before)) entity db) [
              | inr (p, blocked) ↦ (none, rw (ready, found, blocked) refl, tt)
              | inl (e, passes) ↦
                  let (m, same, fits) = save_with_redirect_lem e before db in
                  (
                    m,
                    rw (ready, found, passes) same,
                    allowed i dto db before e m found
                        (with_warnings o
                          (update_kind o (o.is_published before) (o.is_published entity)) e)
                        refl (rw (ready, found, passes) refl) fits,
                  )
            ]
    ]
  ]
    where
      allowed :
          (i : ℕ) (dto : D) (db : CrudDb E) (before e : E) (m : Option PathMove)
          → find (has_row_id o i) db.rows ≡ some before
          → (saved : Saved E) → saved.row ≡ e
          → (update o i dto db).0 ≡ ok saved
          → Fits e before m
          → Allowed (update_row i dto) db m
      allowed i dto db before e none found saved row done fits = tt
      allowed i dto db before e (some (renames a b)) found saved row done (was, left, live) =
          ((before, found, was, left), (saved, done, ap path_of row ∙ live))
      allowed i dto db before e (some (goes_live p)) found saved row done fits =
          (saved, done, ap path_of row ∙ fits)

  redirects-publish :
      (i : ℕ) (next : Bool) (db : CrudDb E) → (publish o i next db).1.redirects ≡ db.redirects
  unfolding publish
  redirects-publish i next db = elim (Option-cases (find (has_row_id o i) db.rows)) [
    | inl missing ↦ rw missing
    | inr (before, found) ↦
        let entity = o.set_published next before in
        elim (apply_publish_rules_cases o (λ _. false) next (not (o.is_published before)) entity
          db) [ inr (p, blocked) ↦ rw (found, blocked) | inl (e, passes) ↦ rw (found, passes) ]
  ]

  redirects-remove :
      (referenced : E → Bool) (i : ℕ) (db : CrudDb E)
      → (remove o referenced i db).1.redirects ≡ db.redirects
  unfolding remove
  redirects-remove referenced i db = elim (Option-cases (find (has_row_id o i) db.rows)) [
    | inl missing ↦ rw missing
    | inr (e, found) ↦ elim (Bool-cases (referenced e)) [
      | inl used ↦ rw (found, used)
      | inr unused ↦ rw (found, unused)
    ]
  ]

  -- Whatever is asked of a collection, it acts on the redirects at most by one rename or one path that
  -- goes live, and by nothing else. Only an update renames, from the path of its published row to the
  -- path of the row that it answers; only a creation and an update let a path go live, that of the row
  -- that they answer.
  pub serve_row_redirects :
      (referenced : E → Bool) (r : CrudRequest D) (db : CrudDb E)
      → (m : Option PathMove) × ((serve_row o referenced r db).1.redirects
          ≡ as_redirects o.weight m db.redirects)
        × Allowed r db m
  unfolding serve_row as_redirects reorder
  serve_row_redirects referenced (create_row dto) db = Moves-create dto db
  serve_row_redirects referenced (update_row i dto) db = Moves-update i dto db
  serve_row_redirects referenced (publish_row i next) db = (none, redirects-publish i next db, tt)
  serve_row_redirects referenced (reorder_rows items) db = (none, refl, tt)
  serve_row_redirects referenced (remove_row i) db = (none, redirects-remove referenced i db, tt)

  redirects_of_rename :
      (e before : E) (db : CrudDb E) (from_path to_path : String)
      → o.is_published before ≡ true
      → is_new_slug o (non_empty (o.slug before)) (non_empty (o.slug e)) ≡ true
      → live_path o o.redirect_from before ≡ some from_path
      → live_path o o.redirect_from e ≡ some to_path
      → str_eq from_path to_path ≡ false
      → (save_with_redirect o e before db).redirects
        ≡ clear_redirects_into o.weight to_path
            (redirect_rename o.weight from_path to_path db.redirects)
  unfolding save_with_redirect
  redirects_of_rename e before db from_path to_path was new_slug from_live to_live apart =
      rw (new_slug, from_live, to_live, was, apart)

  -- When an update of a published row is answered and has changed its slug and its path, the old path
  -- is redirected to the new one with 301. The two paths are different ones for the database.
  pub update-resolve :
      (i : ℕ) (dto : D) (db : CrudDb E) (before : E) (r : Saved E) (from_path to_path : String)
      → find (has_row_id o i) db.rows ≡ some before
      → o.is_published before ≡ true
      → (update o i dto db).0 ≡ ok r
      → is_new_slug o (non_empty (o.slug before)) (non_empty (o.slug r.row)) ≡ true
      → live_path o o.redirect_from before ≡ some from_path
      → live_path o o.redirect_from r.row ≡ some to_path
      → str_eq (o.weight from_path) (o.weight to_path) ≡ false
      → str_eq from_path "" ≡ false
      → (resolve o.weight from_path (update o i dto db).1.redirects).0 ≡ ok (to_path, 301)
  unfolding update
  update-resolve i dto db before r from_path to_path found was done new_slug from_live to_live apart
        given =
      let differ : str_eq from_path to_path ≡ false =
        ground (
          arith,
          apart,
          eq_iff from_path to_path,
          eq_iff (o.weight from_path) (o.weight to_path),
        ) in
      elim (Bool-cases (any (lacks_alt (o.asset_ids dto)) db.assets)) [
        | inl lacks ↦ absurd (ground (arith, lacks, done))
        | inr ready ↦
            let entity = o.assign dto before in
            elim (apply_publish_rules_cases o (λ _. false) (o.is_published entity)
              (not (o.is_published before)) entity db) [
                | inr (p, blocked) ↦ absurd (ground (arith, ready, found, blocked, done))
                | inl (e, passes) ↦
                    let row : r.row ≡ e = ground (arith, ready, found, passes, done) in
                    let new_slug' : is_new_slug o (non_empty (o.slug before)) (non_empty (o.slug e))
                        ≡ true =
                      subst
                        (λ x.
                          is_new_slug o (non_empty (o.slug before)) (non_empty (o.slug x)) ≡ true)
                        row new_slug in
                    let to_live' : live_path o o.redirect_from e ≡ some to_path =
                      subst (λ x. live_path o o.redirect_from x ≡ some to_path) row to_live in
                    let redirects : (update o i dto db).1.redirects
                        ≡ (save_with_redirect o e before db).redirects =
                      ground (arith, ready, found, passes) in
                    rw
                      (
                        redirects,
                        redirects_of_rename e before db from_path to_path was new_slug' from_live
                            to_live' differ,
                      )
                      (resolve-rename o.weight from_path to_path db.redirects apart given)
              ]
      ]
