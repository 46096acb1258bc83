-- ===== src/OrgChart/Moving.antt =====
-- A position that the guard lets move keeps the levels: what stands below it moves with it.
use safeer_api.Common.{
  any_of_find, ℕ, ◌+◌, ◌-◌, ◌≤◌, ◌≡◌, ◌∙◌, refl, ap, subst, sym, inl, inr, Option, none, some, List,
  Bool, true, false, arith, find, update_where, if◌then◌else◌, Bool-cases, All, All-update_where_of,
  any-update_where, find-update_where, find-update_where_self, find_of_any,
}
use safeer_api.OrgChart.Guard.{
  TreeRow, above, has_row_id, check_parent, subtree_depth, org_max_depth,
}
use safeer_api.OrgChart.Levels.{
  IsRow, IsRowOrTop, level_of, Placed, is_within, parent_level, depth_of-level,
  is_descendant-within, is_within-step, is_within-level,
}
use safeer_api.OrgChart.Subtree.{subtree_depth-within}
use safeer_api.OrgChart.Forest.{Forest, check_parent_top, check_parent_move}

module _ (rows : List TreeRow) where
  module _ (i : ℕ) (known : IsRow rows i) (new : TreeRow) (same_id : new.id ≡ i) where
    abbrev moved : List TreeRow
    moved = update_where (has_row_id i) (λ _. new) rows

    pub moved-IsRow : (x : ℕ) → IsRow rows x → IsRow moved x
    moved-IsRow x h =
        any-update_where (has_row_id x) (has_row_id x) (has_row_id i) (λ _. new)
          (λ r e. ground (arith, e, same_id)) rows h

    module _ (level : ℕ → ℕ) (placed : All (Placed rows level) rows) where
      -- what stands at or below the moved position moves with it
      abbrev under : ℕ → Bool
      under x = is_within rows i (level x) (some x)

      abbrev level_moved : ℕ → ℕ
      level_moved x =
          if under x then level x - level i + level_of level new.parent_id + 1 else level x

      level_moved_self : level_moved i ≡ level_of level new.parent_id + 1
      level_moved_self = ground (arith, under_self)
        where
          under_self : under i ≡ true
          under_self = is_within-step rows level placed i i known ∙ ground arith

      -- the check of the new parent: it is not below the position, and leaves room for the subtree
      room_move :
          (at : Option ℕ)
          → check_parent rows (some i) at ≡ none
          → IsRowOrTop rows at
            × (level_of level_moved at ≡ level_of level at)
            × (level_of level at + subtree_depth rows (some i) ≤ org_max_depth)
      room_move none h = (tt, refl, omega (arith, check_parent_top rows i h))
      room_move (some p) h =
          let (self, there, away, low) = check_parent_move rows i p h in
          let not_under : under p ≡ false =
            is_within-step rows level placed i p there
            ∙ ground (arith, self, away, is_descendant-within rows level placed p i there) in
          (there, rw not_under refl, omega (arith, depth_of-level rows level placed p there))

      shift :
          (x : ℕ) (at : Option ℕ)
          → IsRowOrTop rows at
          → level x ≡ level_of level at + 1
          → under x ≡ is_within rows i (level_of level at) at
          → level_moved x ≡ level_of level_moved at + 1
      shift x none t step e = unfold is_within in ground (arith, e, step)
      shift x (some y) t step e = elim (Bool-cases (under y)) [
        | inl below ↦
            ground (arith, e, below, step, is_within-level rows level placed i (level y) y t below)
        | inr away ↦ ground (arith, e, away, step)
      ]

      bounded :
          (x : ℕ)
          → IsRow rows x
          → level_of level new.parent_id + subtree_depth rows (some i) ≤ org_max_depth
          → level x ≤ org_max_depth
          → level_moved x ≤ org_max_depth
      bounded x t fits low = elim (Bool-cases (under x)) [
        | inl below ↦ ground (
          arith,
          below,
          subtree_depth-within rows level placed i x t below,
          is_within-level rows level placed i (level x) x t below,
        )
        | inr away ↦ ground (arith, away)
      ]

      moved_up : (at : Option ℕ) → IsRowOrTop rows at → IsRowOrTop moved at
      moved_up none t = tt
      moved_up (some p) t = moved-IsRow p t

      stays :
          (r : TreeRow)
          → Placed rows level r
          → has_row_id i r ≡ false
          → level_of level new.parent_id + subtree_depth rows (some i) ≤ org_max_depth
          → Placed moved level_moved r
      stays r (found, low, there, step) other fits =
          let row : IsRow rows r.id = any_of_find (has_row_id r.id) rows r found in
          (
            find-update_where (has_row_id r.id) (has_row_id i) (λ _. new)
                  (λ x e. (ground (arith, e, other), ground (arith, e, other, same_id))) rows
                ∙ found,
            bounded r.id row fits low,
            moved_up r.parent_id there,
            shift r.id r.parent_id there step (
                is_within-step rows level placed i r.id row
                ∙ rw other (ap (λ o. is_within rows i (level_of level (above o)) (above o)) found)),
          )

      settles : check_parent rows (some i) new.parent_id ≡ none → Placed moved level_moved new
      settles allowed =
          let (there, same, fits) = room_move new.parent_id allowed in
          let (old, found) = find_of_any (has_row_id i) rows known in
          (
            subst (λ j. find (has_row_id j) moved ≡ some new) (sym same_id)
                (find-update_where_self (has_row_id i) (λ _. new) (λ _ _. ground (arith, same_id))
                  rows old found),
            subst (λ j. level_moved j ≤ org_max_depth) (sym same_id)
                (bounded i known fits (parent_level rows level placed i known).2),
            moved_up new.parent_id there,
            ap level_moved same_id ∙ level_moved_self ∙ omega (arith, same),
          )

    pub Forest-move : Forest rows → check_parent rows (some i) new.parent_id ≡ none → Forest moved
    Forest-move (level, placed) allowed = (
      level_moved level placed,
      All-update_where_of (Placed rows level) (Placed moved (level_moved level placed))
          (has_row_id i) (λ _. new) each rows placed,
    )
      where
        fits : level_of level new.parent_id + subtree_depth rows (some i) ≤ org_max_depth
        fits = (room_move level placed new.parent_id allowed).2

        each :
            (r : TreeRow)
            → Placed rows level r
            → Placed moved (level_moved level placed) (if has_row_id i r then new else r)
        each r h = elim (Bool-cases (has_row_id i r)) [
          | inl mine ↦ rw mine (settles level placed allowed)
          | inr other ↦ rw other (stays level placed r h other fits)
        ]
