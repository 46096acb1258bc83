-- ===== src/OrgChart/Subtree.antt =====
-- On a chart with levels, the depth of the subtree below a position reaches every position below it.
use safeer_api.Common.{
  ℕ, zero, suc, ◌+◌, ◌≤◌, ◌≡◌, refl, ap, subst, sym, ◌⊎◌, inl, inr, Option, none, some, List, [],
  ◌∷◌, true, arith, ◌==◌, find, any, Bool-cases, Option-cases, All,
}
use safeer_api.OrgChart.Guard.{
  TreeRow, has_row_id, contains, children, walk_children, subtree_walk, rounds, subtree_depth,
  above,
}
use safeer_api.OrgChart.Walks.{walks_total}
use safeer_api.OrgChart.Levels.{IsRow, IsRowOrTop, Placed, is_within, parent_level, row-Placed}
use safeer_api.OrgChart.Visits.{
  Visited, Closed, walk_children_visits, children_level, entered, child_listed,
}

module _ (rows : List TreeRow) (level : ℕ → ℕ) where
  module _ (placed : All (Placed rows level) rows) where
    subtree_walk_visits :
        (fuel a : ℕ) (seen : List ℕ) (d : ℕ) (seen' : List ℕ)
        → subtree_walk rows fuel a seen ≡ some (d, seen')
        → Visited rows level seen d seen' (level a) × (contains seen' a ≡ true)
    unfolding subtree_walk
    subtree_walk_visits zero a seen d seen' h = cc
    subtree_walk_visits (suc fuel) a seen d seen' h = elim (Bool-cases (contains seen a)) [
      | inl old ↦
          let same : seen ≡ seen' = ground (arith, old, h) in
          (
            (
              λ x k. subst (λ s. contains s x ≡ true) same k,
              λ x k. inl (subst (λ s. contains s x ≡ true) (sym same) k),
            ),
            subst (λ s. contains s a ≡ true) same old,
          )
      | inr new ↦
          elim (Option-cases
            (walk_children (subtree_walk rows fuel) (children rows a) 0 (a ∷ seen))) [
              | inl out ↦ absurd (ground (arith, new, out, h))
              | inr ((d0, seen0), below) ↦
                  let deeper : d ≡ 1 + d0 = ground (arith, new, below, h) in
                  let same : seen0 ≡ seen' = ground (arith, new, below, h) in
                  let (_, visited, all) =
                    walk_children_visits rows level (subtree_walk rows fuel) (level a + 1)
                      (λ c s e d' s'. subtree_walk_visits fuel c s d' s') (children rows a) 0
                      (a ∷ seen) d0 seen0 (children_level rows level a rows placed) below in
                  subst (λ s. Visited rows level seen d s (level a) × (contains s a ≡ true)) same
                    (entered rows level a seen d0 d seen0 deeper visited all)
            ]
    ]

    -- on a chart with levels, `a` and all that stands below it is seen
    within_seen :
        (a : ℕ) (seen' : List ℕ)
        → contains seen' a ≡ true
        → ((x : ℕ) → contains seen' x ≡ true → Closed rows level seen' x)
        → (k x : ℕ) → IsRow rows x
        → is_within rows a k (some x) ≡ true
        → contains seen' x ≡ true
    unfolding is_within
    within_seen a seen' start closed zero x r w = absurd (ground (arith, w))
    within_seen a seen' start closed (suc k) x r w = elim (Bool-cases (x == a)) [
      | inl e ↦ subst (λ y. contains seen' y ≡ true) (let s : a ≡ x = ground (arith, e) in s) start
      | inr e ↦
          let (row, found, same, _) = row-Placed rows level placed x r in
          up row.parent_id row found same refl
            (subst (IsRowOrTop rows) (ap above found) (parent_level rows level placed x r).0)
            (subst (λ o. is_within rows a k (above o) ≡ true) found (ground (arith, e, w)))
            (within_seen a seen' start closed k)
    ]
      where
        up :
            (at : Option ℕ) (row : TreeRow)
            → find (has_row_id x) rows ≡ some row
            → row.id ≡ x
            → row.parent_id ≡ at
            → IsRowOrTop rows at
            → is_within rows a k at ≡ true
            → ((y : ℕ)
                → IsRow rows y
                → is_within rows a k (some y) ≡ true
                → contains seen' y ≡ true)
            → contains seen' x ≡ true
        up none row found same e t v rest = absurd (ground (arith, v))
        up (some y) row found same e t v rest =
            subst (λ i. contains seen' i ≡ true) same
              (child_listed rows level seen' y x rows row found e (closed y (rest y t v)))

    -- Each position at or below `a` stands within the depth of the subtree of `a`.
    pub subtree_depth-within :
        (a x : ℕ)
        → IsRow rows x
        → is_within rows a (level x) (some x) ≡ true
        → level x + 1 ≤ level a + subtree_depth rows (some a)
    unfolding subtree_depth any
    subtree_depth-within a x r w = elim (Option-cases (subtree_walk rows (rounds rows) a [])) [
      | inl out ↦ absurd ((walks_total rows a a).2 out)
      | inr ((d, seen'), walked) ↦
          let ((s, n), here) = subtree_walk_visits (rounds rows) a [] d seen' walked in
          let fresh = λ (y : ℕ) (k : contains seen' y ≡ true). (none_before y seen' d (n y k)) in
          rw walked (fresh x (within_seen a seen' here (λ y k. (fresh y k).1) (level x) x r w)).0
    ]
      where
        none_before :
            (y : ℕ) (seen' : List ℕ) (d : ℕ)
            → (contains [] y ≡ true) ⊎ ((level y + 1 ≤ level a + d) × Closed rows level seen' y)
            → (level y + 1 ≤ level a + d) × Closed rows level seen' y
        none_before y seen' d (inl old) = cc
        none_before y seen' d (inr new) = new
