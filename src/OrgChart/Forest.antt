-- ===== src/OrgChart/Forest.antt =====
-- The invariant of the chart, and what the guard has checked of a position that it lets through.
use safeer_api.Common.{
  ℕ, ◌+◌, ◌≤◌, ◌≡◌, refl, none, some, List, Bool, true, false, not, arith, ◌==◌, ltb, any,
  if◌then◌else◌, All,
}
use safeer_api.OrgChart.Guard.{
  TreeRow, is_at, self_parent, parent_not_found, cycle, too_deep, has_row_id, check_parent,
  is_descendant, depth_of, subtree_depth, org_max_depth,
}
use safeer_api.OrgChart.Levels.{IsRow, Placed}

-- Every row has a level from one to five, one below its parent's.
abbrev pub Forest : List TreeRow → Type 0
Forest rows = (level : ℕ → ℕ) × All (Placed rows level) rows

-- the row's parent is `i`
abbrev pub is_child : ℕ → TreeRow → Bool
is_child i r = is_at r.parent_id (some i)

-- the four checks, each of which let the position through
passed :
    (self there under deep : Bool)
    → (if self
        then some self_parent
        else if not there
        then some parent_not_found
        else if under
        then some cycle
        else if deep
        then some too_deep
        else none)
      ≡ none
    → (self ≡ false) × (there ≡ true) × (under ≡ false) × (deep ≡ false)
passed true there under deep h = cc
passed false false under deep h = cc
passed false true true deep h = cc
passed false true false true h = cc
passed false true false false h = (refl, refl, refl, refl)

ltb-le : (a b : ℕ) → ltb a b ≡ false → b ≤ a
ltb-le a b h = ground arith

module _ (rows : List TreeRow) where
  pub check_parent_new :
      (p : ℕ)
      → check_parent rows none (some p) ≡ none
      → IsRow rows p × (depth_of rows p + 1 ≤ org_max_depth)
  unfolding check_parent
  check_parent_new p h =
      let (_, there, _, deep) =
        passed false (any (has_row_id p) rows) false
          (ltb org_max_depth (depth_of rows p + subtree_depth rows none)) h in
      (there, ltb-le org_max_depth (depth_of rows p + 1) (unfold subtree_depth in deep))

  pub check_parent_top :
      (i : ℕ) → check_parent rows (some i) none ≡ none → subtree_depth rows (some i) ≤ org_max_depth
  unfolding check_parent
  check_parent_top i h = ground (arith, h)

  pub check_parent_move :
      (i p : ℕ)
      → check_parent rows (some i) (some p) ≡ none
      → ((p == i) ≡ false)
        × IsRow rows p
        × (is_descendant rows p i ≡ false)
        × (depth_of rows p + subtree_depth rows (some i) ≤ org_max_depth)
  unfolding check_parent
  check_parent_move i p h =
      let (self, there, under, deep) =
        passed (p == i) (any (has_row_id p) rows) (is_descendant rows p i)
          (ltb org_max_depth (depth_of rows p + subtree_depth rows (some i))) h in
      (
        self,
        there,
        under,
        ltb-le org_max_depth (depth_of rows p + subtree_depth rows (some i)) deep,
      )
