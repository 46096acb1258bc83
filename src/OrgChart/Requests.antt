-- ===== src/OrgChart/Requests.antt =====
-- Each request on the chart keeps it consistent.
use safeer_api.Common.{
  ℕ, ◌+◌, ◌<◌, ◌≡◌, ◌∙◌, refl, subst, sym, inl, inr, Option, none, some, List, [], ◌∷◌, ◌++◌, map,
  true, false, not, arith, find, any, delete_where, update_where, All-find, All-update_where,
  Bool-cases, Option-cases, All, All-weaken, find_sound, All-append, any-append_left, any_of_find,
  All-select, none_of_any,
}
use safeer_api.OrgChart.{
  OrgPosition, Holder, OrgDb, has_position_id, tree_row, lock_tree, is_in_use, CreateOrgPosition,
  UpdateOrgPosition, or_else, new_position, is_moving, create_position, update_position,
  remove_position,
}
use safeer_api.OrgChart.Guard.{has_row_id, is_at, check_parent}
use safeer_api.OrgChart.Levels.{IsRow, IsRowOrTop, Placed}
use safeer_api.OrgChart.Forest.{Forest}
use safeer_api.OrgChart.Adding.{Forest-add}
use safeer_api.OrgChart.Moving.{Forest-move, moved-IsRow}
use safeer_api.OrgChart.Removing.{Forest-remove, IsRowOrTop-remove}
use safeer_api.OrgChart.Locked.{
  rows-append, rows-update, rows-delete, rows-any, rows_fresh, no_child, update_same, rows-find,
  same_parent,
}

-- the chart has levels, its ids come from the counter, and each member holds a position that is there
pub record Consistent (db : OrgDb) : Type 0 where
  pub forest : Forest (lock_tree db)
  pub numbered : All (λ p. p.id < db.next_id) db.positions
  pub held : All (λ m. IsRowOrTop (lock_tree db) m.org_position_id) db.members

module _ (db : OrgDb) (c : Consistent db) where
  added :
      (new : OrgPosition)
      → new.id ≡ db.next_id
      → check_parent (lock_tree db) none new.parent_id ≡ none
      → Consistent (record db { positions = db.positions ++ new ∷ []; next_id = db.next_id + 1 })
  added new same allowed = record {
    forest = subst Forest (sym (rows-append db.positions new)) (
        Forest-add (lock_tree db) (tree_row new)
          (subst (λ i. any (has_row_id i) (lock_tree db) ≡ false) (sym same)
            (rows_fresh db.next_id db.positions c.numbered))
          c.forest allowed);
    numbered =
        All-append (λ p. p.id < db.next_id + 1) db.positions (new ∷ [])
          (All-weaken (λ p. p.id < db.next_id) (λ p. p.id < db.next_id + 1) (λ p h. omega arith)
            db.positions c.numbered)
          (omega arith, tt);
    held =
        All-weaken (λ m. IsRowOrTop (lock_tree db) m.org_position_id)
          (λ m. IsRowOrTop (map tree_row (db.positions ++ new ∷ [])) m.org_position_id)
          (λ m h. held m.org_position_id h) db.members c.held;
  }
    where
      held :
          (at : Option ℕ)
          → IsRowOrTop (lock_tree db) at
          → IsRowOrTop (map tree_row (db.positions ++ new ∷ [])) at
      held none h = tt
      held (some p) h =
          subst (λ rs. IsRow rs p) (sym (rows-append db.positions new))
            (any-append_left (has_row_id p) (lock_tree db) (tree_row new ∷ []) h)

  changed :
      (i : ℕ) (new : OrgPosition)
      → new.id ≡ i
      → any (has_position_id i) db.positions ≡ true
      → i < db.next_id
      → Forest (update_where (has_row_id i) (λ _. tree_row new) (lock_tree db))
      → Consistent
          (record db { positions = update_where (has_position_id i) (λ _. new) db.positions })
  changed i new same known low forest = record {
    forest = subst Forest (sym (rows-update i new db.positions)) forest;
    numbered =
        All-update_where (λ p. p.id < db.next_id) (has_position_id i) (λ _. new)
          (λ p h. ground (arith, same, low, h)) db.positions c.numbered;
    held =
        All-weaken (λ m. IsRowOrTop (lock_tree db) m.org_position_id)
          (λ m.
            IsRowOrTop (map tree_row (update_where (has_position_id i) (λ _. new) db.positions))
              m.org_position_id)
          (λ m h. held m.org_position_id h) db.members c.held;
  }
    where
      held :
          (at : Option ℕ)
          → IsRowOrTop (lock_tree db) at
          → IsRowOrTop (map tree_row (update_where (has_position_id i) (λ _. new) db.positions)) at
      held none h = tt
      held (some p) h =
          subst (λ rs. IsRow rs p) (sym (rows-update i new db.positions))
            (moved-IsRow (lock_tree db) i (rows-any i db.positions ∙ known) (tree_row new) same p h)

  removed :
      (i : ℕ)
      → is_in_use i db ≡ false
      → Consistent (record db { positions = delete_where (has_position_id i) db.positions })
  unfolding delete_where
  removed i unused = record {
    forest = subst Forest (sym (rows-delete i db.positions)) (
        Forest-remove (lock_tree db) i c.forest (no_child i db.positions (ground (arith, unused))));
    numbered =
        All-select (λ p. p.id < db.next_id) (λ p. not (has_position_id i p)) db.positions
          c.numbered;
    held =
        held db.members
          (none_of_any (λ m. is_at m.org_position_id (some i)) db.members (ground (arith, unused)))
          c.held;
  }
    where
      held :
          (ms : List Holder)
          → All (λ m. is_at m.org_position_id (some i) ≡ false) ms
          → All (λ m. IsRowOrTop (lock_tree db) m.org_position_id) ms
          → All
              (λ m.
                IsRowOrTop
                  (map tree_row (delete_where (has_position_id i) db.positions))
                  m.org_position_id)
              ms
      held [] u h = tt
      held (m ∷ ms) u h = (
        subst (λ rs. IsRowOrTop rs m.org_position_id) (sym (rows-delete i db.positions))
            (IsRowOrTop-remove (lock_tree db) i m.org_position_id h.0 u.0),
        held ms u.1 h.1,
      )

module _ (i : ℕ) (db : OrgDb) (c : Consistent db) (p : OrgPosition)
    (found : find (has_position_id i) db.positions ≡ some p) where
  its_id : p.id ≡ i
  its_id = ground (arith, find_sound (has_position_id i) db.positions p found)

  rewritten :
      (new : OrgPosition)
      → new.id ≡ p.id
      → Forest (update_where (has_row_id i) (λ _. tree_row new) (lock_tree db))
      → Consistent
          (record db { positions = update_where (has_position_id i) (λ _. new) db.positions })
  rewritten new same forest =
      changed db c i new (same ∙ its_id) (any_of_find (has_position_id i) db.positions p found)
        (subst (λ j. j < db.next_id) its_id
          (All-find (λ q. q.id < db.next_id) (has_position_id i) db.positions p found c.numbered))
        forest

  moved_to :
      (new : OrgPosition)
      → new.id ≡ p.id
      → check_parent (lock_tree db) (some i) new.parent_id ≡ none
      → Consistent
          (record db { positions = update_where (has_position_id i) (λ _. new) db.positions })
  moved_to new same allowed = rewritten new same (
      Forest-move (lock_tree db) i
        (any_of_find (has_row_id i) (lock_tree db) (tree_row p) (rows-find i db.positions p found))
        (tree_row new) (same ∙ its_id) c.forest allowed)

  kept_at :
      (new : OrgPosition)
      → new.id ≡ p.id
      → new.parent_id ≡ p.parent_id
      → Consistent
          (record db { positions = update_where (has_position_id i) (λ _. new) db.positions })
  kept_at new same parent =
      let row : tree_row new ≡ tree_row p = ground (arith, same, parent) in
      let (level, placed) = c.forest in
      rewritten new same (
        subst (λ r. Forest (update_where (has_row_id i) (λ _. r) (lock_tree db))) (sym row)
          (subst Forest
            (sym (
              update_same (lock_tree db) i (tree_row p) (rows-find i db.positions p found)
                (lock_tree db)
                (All-weaken (Placed (lock_tree db) level)
                  (λ r. find (has_row_id r.id) (lock_tree db) ≡ some r) (λ r h. h.0) (lock_tree db)
                  placed)))
            c.forest))

pub create_position-Consistent :
    (dto : CreateOrgPosition) (db : OrgDb) → Consistent db → Consistent (create_position dto db).1
unfolding create_position
create_position-Consistent dto db c =
    elim (Option-cases (check_parent (lock_tree db) none (or_else none dto.parent_id))) [
      | inr (error, refused) ↦ rw refused c
      | inl allowed ↦
          rw allowed (added db c (new_position db.next_id dto db.positions) refl allowed)
    ]

pub remove_position-Consistent :
    (i : ℕ) (db : OrgDb) → Consistent db → Consistent (remove_position i db).1
unfolding remove_position
remove_position-Consistent i db c = elim (Option-cases (find (has_position_id i) db.positions)) [
  | inl missing ↦ rw missing c
  | inr (p, found) ↦ elim (Bool-cases (is_in_use i db)) [
    | inl used ↦ rw (found, used) c
    | inr unused ↦
        let same : p.id ≡ i = ground (arith, find_sound (has_position_id i) db.positions p found) in
        rw (found, unused)
          (subst
            (λ j.
              Consistent (record db { positions = delete_where (has_position_id j) db.positions }))
            (sym same) (removed db c i unused))
  ]
]

pub update_position-Consistent :
    (i : ℕ) (dto : UpdateOrgPosition) (db : OrgDb)
    → Consistent db
    → Consistent (update_position i i dto db).1
unfolding update_position
update_position-Consistent i dto db c =
    elim (Option-cases (find (has_position_id i) db.positions)) [
      | inl missing ↦ rw missing c
      | inr (p, found) ↦ elim (Bool-cases (is_moving p dto)) [
        | inl moving ↦
            elim (Option-cases
              (check_parent (lock_tree db) (some i) (or_else p.parent_id dto.parent_id))) [
                | inr (error, refused) ↦ rw (found, moving, refused) c
                | inl allowed ↦ rw (found, moving, allowed) (moved_to i db c p found _ refl allowed)
              ]
        | inr staying ↦
            rw (found, staying)
              (kept_at i db c p found _ refl (same_parent p.parent_id dto.parent_id staying))
      ]
    ]
