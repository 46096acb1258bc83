-- ===== src/OrgChart/Removing.antt =====
-- A position that nothing stands below is removed, and the levels stay.
use safeer_api.Common.{
  find-delete_where, All-both, ℕ, ◌≡◌, ◌∙◌, Option, none, some, List, false, not, arith,
  delete_where, All, All-weaken, All-select, All-delete_where, any-select,
}
use safeer_api.OrgChart.Guard.{TreeRow, is_at, has_row_id}
use safeer_api.OrgChart.Levels.{IsRowOrTop, Placed}
use safeer_api.OrgChart.Forest.{Forest, is_child}

module _ (rows : List TreeRow) where
  pub IsRowOrTop-remove :
      (i : ℕ) (at : Option ℕ)
      → IsRowOrTop rows at
      → is_at at (some i) ≡ false
      → IsRowOrTop (delete_where (has_row_id i) rows) at
  unfolding delete_where
  IsRowOrTop-remove i none t e = tt
  IsRowOrTop-remove i (some p) t e =
      any-select (has_row_id p) (has_row_id p) (λ r. not (has_row_id i r))
        (λ r m. ground (arith, m, e)) rows t

  pub Forest-remove :
      (i : ℕ)
      → Forest rows
      → All (λ r. is_child i r ≡ false) rows
      → Forest (delete_where (has_row_id i) rows)
  unfolding delete_where
  Forest-remove i (level, placed) leaf = (
    level,
    All-weaken (λ r. (has_row_id i r ≡ false) × ((is_child i r ≡ false) × Placed rows level r))
        (Placed (delete_where (has_row_id i) rows) level) each (delete_where (has_row_id i) rows)
        (All-both (λ r. has_row_id i r ≡ false) (λ r. (is_child i r ≡ false) × Placed rows level r)
          (delete_where (has_row_id i) rows) (All-delete_where (has_row_id i) rows)
          (All-select (λ r. (is_child i r ≡ false) × Placed rows level r)
            (λ r. not (has_row_id i r)) rows
            (All-both (λ r. is_child i r ≡ false) (Placed rows level) rows leaf placed))),
  )
    where
      each :
          (r : TreeRow)
          → (has_row_id i r ≡ false) × ((is_child i r ≡ false) × Placed rows level r)
          → Placed (delete_where (has_row_id i) rows) level r
      each r (other, (no_child, (found, low, there, step))) = (
        find-delete_where (has_row_id r.id) (has_row_id i) (λ x e. ground (arith, e, other)) rows
            ∙ found,
        low,
        IsRowOrTop-remove i r.parent_id there no_child,
        step,
      )
