-- ===== src/Crud.antt =====
-- The content kernel: src/common/crud/crud.factory.ts, for any collection with its options.
mod Tests
pub mod Serve
pub mod Paths
use safeer_api.Common.{
  ℕ, ◌+◌, String, Option, none, some, List, [], ◌∷◌, map, ◌++◌, Bool, true, false, ◌&&◌, not, ◌==◌,
  str_eq, if◌then◌else◌, find, any, length, delete_where, update_where, Exec, Problem, err, pure,
  gets, modify, require, refuse_if, ◌>>=◌, ◌>>◌, not_found, alt_text_required, resource_in_use,
}
use safeer_api.Redirects.{RedirectDb, redirect_rename, clear_redirects_into}

-- `CrudFactoryOptions`, and what TypeORM does to a row of the collection: `make` is `repo.create` with
-- the id that the database gives, `stored` puts the defaults of the columns for what the request leaves
-- out, as the insert does, `assign` is `Object.assign`, and `weight` is the collation of the redirects. `publish_rules` gives the problem it throws.
pub record CrudOptions (E D : Type 0) : Type 0 where
  pub entity_type : String
  pub extra_purge_tags : List String
  pub id : E → ℕ
  pub slug : E → Option String
  pub is_published : E → Bool
  pub set_published : Bool → E → E
  pub set_sort_order : ℕ → E → E
  pub make : ℕ → D → E
  pub stored : E → E
  pub assign : D → E → E
  pub asset_ids : D → List ℕ
  pub on_publish : E → E
  pub publish_rules : E → Option Problem
  pub publish_warnings : Option (E → List String)
  pub redirect_from : Option (E → Option String)
  pub weight : String → String

-- a row of media_assets, as the check of the alternative text reads it
pub record Asset : Type 0 where
  pub id : ℕ
  pub is_image : Bool
  pub alt_ar : Option String

-- what a request does, in its order: a statement that writes, or the purge of a tag of the cache
pub data CrudEffect : Type 0 where
  wrote : CrudEffect
  purged : String → CrudEffect

pub record CrudDb (E : Type 0) : Type 0 where
  pub rows : List E
  pub assets : List Asset
  pub redirects : RedirectDb
  pub journal : List CrudEffect
  pub next_id : ℕ

pub data CrudAction : Type 0 where
  create_action update_action publish_action unpublish_action delete_action : CrudAction

-- the answer, its warnings if the collection has some, and the action for the audit log
pub record Saved (E : Type 0) : Type 0 where
  pub row : E
  pub warnings : Option (List String)
  pub action : CrudAction

-- a JS string that is not empty
abbrev pub non_empty : Option String → Option String
non_empty none = none
non_empty (some s) = if str_eq s "" then none else some s

abbrev pub is_missing : Option String → Bool
is_missing o = elim (non_empty o) [ none ↦ true | some _ ↦ false ]

abbrev pub lacks_alt : List ℕ → Asset → Bool
lacks_alt ids a = any (λ i. a.id == i) ids && a.is_image && is_missing a.alt_ar

module _ {E D : Type 0} (o : CrudOptions E D) where
  unfoldable pub assert_alt_text_ready : D → Exec (CrudDb E) Unit
  assert_alt_text_ready dto = do
    assets ← gets (λ db. db.assets)
    refuse_if (any (lacks_alt (o.asset_ids dto)) assets) 409 alt_text_required

  abbrev pub has_row_id : ℕ → E → Bool
  has_row_id i e = o.id e == i

  unfoldable pub find_or_not_found : ℕ → Exec (CrudDb E) E
  find_or_not_found i = do
    found ← gets (λ db. find (has_row_id i) db.rows)
    require 404 not_found found

  abbrev pub purge_tag : String → CrudDb E → CrudDb E
  purge_tag tag db = record db { journal = db.journal ++ purged tag ∷ [] }

  abbrev pub write_rows : List E → CrudDb E → CrudDb E
  write_rows rows db = record db { rows = rows; journal = db.journal ++ wrote ∷ [] }

  abbrev pub write_redirects : RedirectDb → CrudDb E → CrudDb E
  write_redirects redirects db = record db {
    redirects = redirects;
    journal = db.journal ++ wrote ∷ [];
  }

  abbrev pub own_purges : List CrudEffect
  own_purges = purged o.entity_type ∷ map purged o.extra_purge_tags

  unfoldable pub purge : CrudDb E → CrudDb E
  purge db = record db { journal = db.journal ++ own_purges }

  abbrev checked : Option Problem → E → Exec (CrudDb E) E
  checked none e = pure e
  checked (some p) e = λ db. (err p, db)

  -- a row that is to be published (`live`); `fresh` if it was not published before
  unfoldable pub apply_publish_rules : Bool → Bool → E → Exec (CrudDb E) E
  apply_publish_rules live fresh e =
      let ready = if fresh then o.on_publish e else e in
      if live then checked (o.publish_rules ready) ready else pure e

  abbrev pub warnings_of : E → Option (E → List String) → Option (List String)
  warnings_of e none = none
  warnings_of e (some f) = some (if o.is_published e then f e else [])

  abbrev pub with_warnings : CrudAction → E → Saved E
  with_warnings action e = record {
    row = e;
    warnings = warnings_of e o.publish_warnings;
    action = action;
  }

  abbrev pub live_path : Option (E → Option String) → E → Option String
  live_path none e = none
  live_path (some f) e = non_empty (f e)

  -- the redirects into a path that is now live, and the cache of the redirects
  abbrev pub take_path : Option String → CrudDb E → CrudDb E
  take_path none db = db
  take_path (some path) db =
      purge_tag "redirects" (write_redirects (clear_redirects_into o.weight path db.redirects) db)

  unfoldable pub create : D → Exec (CrudDb E) (Saved E)
  unfolding assert_alt_text_ready apply_publish_rules purge
  create dto = do
    assert_alt_text_ready dto
    i ← gets (λ db. db.next_id)
    let entity : E = o.make i dto
    ready ← apply_publish_rules (o.is_published entity) true entity
    let saved : E = o.stored ready
    modify (λ db. record (write_rows (db.rows ++ saved ∷ []) db) { next_id = i + 1 })
    modify (take_path (live_path o.redirect_from saved))
    modify purge
    pure (with_warnings create_action saved)

  abbrev pub save : E → CrudDb E → CrudDb E
  save e db = write_rows (update_where (has_row_id (o.id e)) (λ _. e) db.rows) db

  abbrev pub is_new_slug : Option String → Option String → Bool
  is_new_slug (some a) (some b) = not (str_eq a b)
  is_new_slug _ _ = false

  -- the redirect from the old path, if it was live
  abbrev pub leave_path : Bool → Option String → String → RedirectDb → RedirectDb
  leave_path was_published none to_path r = r
  leave_path was_published (some from_path) to_path r =
      if was_published && not (str_eq from_path to_path)
      then redirect_rename o.weight from_path to_path r
      else r

  abbrev pub move_path : Bool → Option String → Option String → CrudDb E → CrudDb E
  move_path was_published from_path none db = db
  move_path was_published from_path (some to_path) db = purge_tag "redirects" (
      write_redirects
        (clear_redirects_into o.weight to_path
          (leave_path was_published from_path to_path db.redirects))
        db)

  -- the row and, when its slug changes, the redirects, in one transaction
  unfoldable pub save_with_redirect : E → E → CrudDb E → CrudDb E
  save_with_redirect entity before db =
      if is_new_slug (non_empty (o.slug before)) (non_empty (o.slug entity))
      then move_path (o.is_published before) (live_path o.redirect_from before)
          (live_path o.redirect_from entity) (save entity db)
      else save entity db

  abbrev pub update_kind : Bool → Bool → CrudAction
  update_kind true false = unpublish_action
  update_kind false true = publish_action
  update_kind _ _ = update_action

  unfoldable pub update : ℕ → D → Exec (CrudDb E) (Saved E)
  unfolding assert_alt_text_ready find_or_not_found apply_publish_rules save_with_redirect purge
  update i dto = do
    assert_alt_text_ready dto
    before ← find_or_not_found i
    let entity : E = o.assign dto before
    saved ← (apply_publish_rules (o.is_published entity) (not (o.is_published before)) entity)
    modify (save_with_redirect saved before)
    modify purge
    pure (with_warnings (update_kind (o.is_published before) (o.is_published entity)) saved)

  -- `next` is the state asked for, `true` by default
  unfoldable pub publish : ℕ → Bool → Exec (CrudDb E) (Saved E)
  unfolding find_or_not_found apply_publish_rules purge
  publish i next = do
    before ← find_or_not_found i
    let entity : E = o.set_published next before
    saved ← apply_publish_rules next (not (o.is_published before)) entity
    modify (save saved)
    modify purge
    pure (with_warnings (if next then publish_action else unpublish_action) saved)

  abbrev pub place : List (ℕ × ℕ) → List E → List E
  place [] rows = rows
  place ((i, n) ∷ items) rows = place items (update_where (has_row_id i) (o.set_sort_order n) rows)

  unfoldable pub reorder : List (ℕ × ℕ) → Exec (CrudDb E) ℕ
  unfolding purge
  reorder items = do
    modify (λ db. write_rows (place items db.rows) db)
    modify purge
    pure (length items)

  -- `referenced` is what the foreign keys of the database say of a row
  unfoldable pub remove : (E → Bool) → ℕ → Exec (CrudDb E) Unit
  unfolding find_or_not_found purge
  remove referenced i = do
    entity ← find_or_not_found i
    refuse_if (referenced entity) 409 resource_in_use
    modify (λ db. write_rows (delete_where (has_row_id (o.id entity)) db.rows) db)
    modify purge
