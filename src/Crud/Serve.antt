-- ===== src/Crud/Serve.antt =====
-- The requests of a collection: each is answered, and then purges the cache, or changes nothing.
use mathlib.Core.List.{append-nil, append_assoc}
use safeer_api.Common.{
  ℕ, ◌+◌, String, ◌≡◌, refl, sym, ap, ◌∙◌, ◌⊎◌, inl, inr, Option, none, some, List, [], ◌∷◌, ◌++◌,
  Bool, true, false, not, if◌then◌else◌, find, any, Bool-cases, Option-cases, ok, err, Problem,
  Result,
}
use safeer_api.Crud.{
  CrudOptions, CrudDb, CrudEffect, wrote, purged, write_rows, own_purges, create, update, publish,
  reorder, remove, lacks_alt, has_row_id, save_with_redirect, apply_publish_rules, live_path,
  take_path, non_empty, is_new_slug, move_path, save,
}

pub data CrudRequest (D : Type 0) : Type 0 where
  create_row : D → CrudRequest D
  update_row : ℕ → D → CrudRequest D
  publish_row : ℕ → Bool → CrudRequest D
  reorder_rows : List (ℕ × ℕ) → CrudRequest D
  remove_row : ℕ → CrudRequest D

-- the problem of a request that was refused
abbrev pub refusal : {A : Type 0} → Result A → Option Problem
refusal (ok a) = none
refusal (err p) = some p

module _ {E D : Type 0} (o : CrudOptions E D) (referenced : E → Bool) where
  unfoldable pub serve_row : CrudRequest D → CrudDb E → Option Problem × CrudDb E
  serve_row (create_row dto) db = (refusal (create o dto db).0, (create o dto db).1)
  serve_row (update_row i dto) db = (refusal (update o i dto db).0, (update o i dto db).1)
  serve_row (publish_row i next) db = (refusal (publish o i next db).0, (publish o i next db).1)
  serve_row (reorder_rows items) db = (refusal (reorder o items db).0, (reorder o items db).1)
  serve_row (remove_row i) db = (refusal (remove o referenced i db).0, (remove o referenced i db).1)

  -- `after` goes on from the journal of `before`
  abbrev Continues : CrudDb E → CrudDb E → Type 0
  Continues before after = (es : List CrudEffect) × (after.journal ≡ before.journal ++ es)

  Continues-take_path : (path : Option String) (db : CrudDb E) → Continues db (take_path o path db)
  Continues-take_path none db = ([], sym (append-nil db.journal))
  Continues-take_path (some path) db =
      (wrote ∷ purged "redirects" ∷ [], append_assoc db.journal (wrote ∷ []) _)

  Continues-move_path :
      (was : Bool) (from_path to_path : Option String) (db : CrudDb E)
      → Continues db (move_path o was from_path to_path db)
  Continues-move_path was from_path none db = ([], sym (append-nil db.journal))
  Continues-move_path was from_path (some to_path) db =
      (wrote ∷ purged "redirects" ∷ [], append_assoc db.journal (wrote ∷ []) _)

  Continues-written :
      (before written after : CrudDb E)
      → written.journal ≡ before.journal ++ wrote ∷ []
      → Continues written after
      → Continues before after
  Continues-written before written after h (es, e) =
      (wrote ∷ es, e ∙ ap (λ j. j ++ es) h ∙ append_assoc before.journal (wrote ∷ []) es)

  Continues-save_with_redirect :
      (e before : E) (db : CrudDb E) → Continues db (save_with_redirect o e before db)
  unfolding save_with_redirect
  Continues-save_with_redirect e before db =
      elim (Bool-cases (is_new_slug o (non_empty (o.slug before)) (non_empty (o.slug e)))) [
        | inl moves ↦ rw moves (
            Continues-written db (save o e db)
              (move_path o (o.is_published before) (live_path o o.redirect_from before)
                (live_path o o.redirect_from e) (save o e db))
              refl
              (Continues-move_path (o.is_published before) (live_path o o.redirect_from before)
                (live_path o o.redirect_from e) (save o e db)))
        | inr stays ↦ rw stays (wrote ∷ [], refl)
      ]

  -- A refusal writes nothing; an answer ends with the purges of the collection's tags.
  abbrev pub Atomic : Option Problem × CrudDb E → CrudDb E → Type 0
  Atomic r db =
      (((p : Problem) × (r.0 ≡ some p)) × (r.1 ≡ db))
      ⊎ ((r.0 ≡ none)
          × ((es : List CrudEffect) × (r.1.journal ≡ (db.journal ++ es) ++ own_purges o)))

  answered :
      (r : Option Problem × CrudDb E) (before after : CrudDb E)
      → r.0 ≡ none
      → r.1.journal ≡ after.journal ++ own_purges o
      → Continues before after
      → Atomic r before
  answered r before after ok_ e (es, h) = inr (ok_, (es, e ∙ ap (λ j. j ++ own_purges o) h))

  -- the publish rules read the row alone
  pub apply_publish_rules_cases :
      (live fresh : Bool) (e : E) (db : CrudDb E)
      → ((e' : E) × (apply_publish_rules o live fresh e db ≡ (ok e', db)))
        ⊎ ((p : Problem) × (apply_publish_rules o live fresh e db ≡ (err p, db)))
  unfolding apply_publish_rules
  apply_publish_rules_cases false fresh e db = inl (e, refl)
  apply_publish_rules_cases true fresh e db =
      elim (Option-cases (o.publish_rules (if fresh then o.on_publish e else e))) [
        | inl passes ↦ inl (if fresh then o.on_publish e else e, rw passes)
        | inr (p, blocked) ↦ inr (p, rw blocked)
      ]

  Atomic-create : (dto : D) (db : CrudDb E) → Atomic (serve_row (create_row dto) db) db
  unfolding serve_row create
  Atomic-create dto db = elim (Bool-cases (any (lacks_alt (o.asset_ids dto)) db.assets)) [
    | inl lacks ↦ rw lacks (inl ((_, refl), refl))
    | inr ready ↦
        let new = o.make db.next_id dto in
        elim (apply_publish_rules_cases (o.is_published new) true new db) [
          | inr (p, blocked) ↦ rw (ready, blocked) (inl ((p, refl), refl))
          | inl (e, passes) ↦
              let added : CrudDb E = record (write_rows o (db.rows ++ o.stored e ∷ []) db) {
                next_id = db.next_id + 1;
              } in
              rw (ready, passes)
                (answered _ db (take_path o (live_path o o.redirect_from (o.stored e)) added) refl
                  refl
                  (Continues-written db added
                    (take_path o (live_path o o.redirect_from (o.stored e)) added) refl
                    (Continues-take_path (live_path o o.redirect_from (o.stored e)) added)))
        ]
  ]

  Atomic-update : (i : ℕ) (dto : D) (db : CrudDb E) → Atomic (serve_row (update_row i dto) db) db
  unfolding serve_row update
  Atomic-update i dto db = elim (Bool-cases (any (lacks_alt (o.asset_ids dto)) db.assets)) [
    | inl lacks ↦ rw lacks (inl ((_, refl), refl))
    | inr ready ↦ elim (Option-cases (find (has_row_id o i) db.rows)) [
      | inl missing ↦ rw (ready, missing) (inl ((_, refl), refl))
      | inr (before, found) ↦
          let entity = o.assign dto before in
          elim (apply_publish_rules_cases (o.is_published entity) (not (o.is_published before))
            entity db) [
              | inr (p, blocked) ↦ rw (ready, found, blocked) (inl ((p, refl), refl))
              | inl (e, passes) ↦
                  rw (ready, found, passes)
                    (answered _ db (save_with_redirect o e before db) refl refl
                      (Continues-save_with_redirect e before db))
            ]
    ]
  ]

  Atomic-publish :
      (i : ℕ) (next : Bool) (db : CrudDb E) → Atomic (serve_row (publish_row i next) db) db
  unfolding serve_row publish
  Atomic-publish i next db = elim (Option-cases (find (has_row_id o i) db.rows)) [
    | inl missing ↦ rw missing (inl ((_, refl), refl))
    | inr (before, found) ↦
        let entity = o.set_published next before in
        elim (apply_publish_rules_cases next (not (o.is_published before)) entity db) [
          | inr (p, blocked) ↦ rw (found, blocked) (inl ((p, refl), refl))
          | inl (e, passes) ↦ rw (found, passes) (inr (refl, (wrote ∷ [], refl)))
        ]
  ]

  Atomic-remove : (i : ℕ) (db : CrudDb E) → Atomic (serve_row (remove_row i) db) db
  unfolding serve_row remove
  Atomic-remove i db = elim (Option-cases (find (has_row_id o i) db.rows)) [
    | inl missing ↦ rw missing (inl ((_, refl), refl))
    | inr (e, found) ↦ elim (Bool-cases (referenced e)) [
      | inl used ↦ rw (found, used) (inl ((_, refl), refl))
      | inr unused ↦ rw (found, unused) (inr (refl, (wrote ∷ [], refl)))
    ]
  ]

  -- Whatever is asked of a collection, either the request is refused and nothing at all is written, or
  -- it is answered and ends with the purges of the collection's tags, so that every statement that
  -- writes comes before them.
  pub serve_row-Atomic : (r : CrudRequest D) (db : CrudDb E) → Atomic (serve_row r db) db
  unfolding serve_row reorder
  serve_row-Atomic (create_row dto) db = Atomic-create dto db
  serve_row-Atomic (update_row i dto) db = Atomic-update i dto db
  serve_row-Atomic (publish_row i next) db = Atomic-publish i next db
  serve_row-Atomic (reorder_rows items) db = inr (refl, (wrote ∷ [], refl))
  serve_row-Atomic (remove_row i) db = Atomic-remove i db
