-- ===== src/OrgChart/Guard.antt =====
-- src/org-chart/tree-guard.ts: may a position stand under another? The three walks run on fuel, and
-- `none` says that it ran out.
use safeer_api.Common.{
  ℕ, zero, suc, ◌+◌, max, Option, none, some, List, [], ◌∷◌, Bool, true, false, not, ◌==◌, ltb,
  length, find, any, if◌then◌else◌,
}

pub record TreeRow : Type 0 where
  pub id : ℕ
  pub parent_id : Option ℕ

abbrev pub has_row_id : ℕ → TreeRow → Bool
has_row_id i r = r.id == i

abbrev pub is_at : Option ℕ → Option ℕ → Bool
is_at none none = true
is_at (some a) (some b) = a == b
is_at _ _ = false

pub data TreeGuardError : Type 0 where
  self_parent parent_not_found cycle too_deep : TreeGuardError

abbrev pub org_max_depth : ℕ
org_max_depth = 5

abbrev pub above : Option TreeRow → Option ℕ
above none = none
above (some r) = r.parent_id

abbrev pub contains : List ℕ → ℕ → Bool
contains seen i = any (λ j. j == i) seen

module _ (rows : List TreeRow) where
  -- byId.get(id)?.parentId ?? null; ids are primary keys, so the first row with an id is the last
  abbrev pub parent_of : ℕ → Option ℕ
  parent_of i = above (find (has_row_id i) rows)

  unfoldable pub ancestor_walk : ℕ → ℕ → List ℕ → Option ℕ → Option Bool
  ancestor_walk fuel ancestor seen none = some false
  ancestor_walk zero ancestor seen (some current) = none
  ancestor_walk (suc fuel) ancestor seen (some current) =
      let rest = ancestor_walk fuel ancestor (current ∷ seen) (parent_of current) in
      if contains seen current then some false else if current == ancestor then some true else rest

  unfoldable pub depth_walk : ℕ → List ℕ → ℕ → Option ℕ → Option ℕ
  depth_walk fuel seen depth none = some depth
  depth_walk zero seen depth (some current) = none
  depth_walk (suc fuel) seen depth (some current) =
      let rest = depth_walk fuel (current ∷ seen) (depth + 1) (parent_of current) in
      if contains seen current then some depth else rest

-- children.get(id) ?? []
unfoldable pub children : List TreeRow → ℕ → List ℕ
children [] i = []
children (r ∷ rows) i =
    let rest = children rows i in
    elim r.parent_id [ none ↦ rest | some p ↦ if p == i then r.id ∷ rest else rest ]

abbrev pub Walk : Type 0
Walk = ℕ → List ℕ → Option (ℕ × List ℕ)

-- the loop over the children: the deepest so far, and what has been seen
unfoldable pub walk_children : Walk → List ℕ → ℕ → List ℕ → Option (ℕ × List ℕ)
walk_children walk [] deepest seen = some (deepest, seen)
walk_children walk (c ∷ cs) deepest seen = elim (walk c seen) [
  | none ↦ none
  | some (depth, seen') ↦ walk_children walk cs (max deepest depth) seen'
]

abbrev pub one_deeper : Option (ℕ × List ℕ) → Option (ℕ × List ℕ)
one_deeper none = none
one_deeper (some (deepest, seen)) = some (1 + deepest, seen)

unfoldable pub subtree_walk : List TreeRow → ℕ → Walk
subtree_walk rows zero node seen = none
subtree_walk rows (suc fuel) node seen =
    let below =
      one_deeper (walk_children (subtree_walk rows fuel) (children rows node) 0 (node ∷ seen)) in
    if contains seen node then some (0, seen) else below

-- a walk sees each row once, an id that has no row, and its end
abbrev pub rounds : List TreeRow → ℕ
rounds rows = suc (suc (length rows))

abbrev pub settled {ℓ} : {A : Type ℓ} → A → Option A → A
settled d none = d
settled d (some a) = a

unfoldable pub is_descendant : List TreeRow → ℕ → ℕ → Bool
unfolding ancestor_walk
is_descendant rows candidate ancestor =
    settled false (ancestor_walk rows (rounds rows) ancestor [] (parent_of rows candidate))

unfoldable pub depth_of : List TreeRow → ℕ → ℕ
unfolding depth_walk
depth_of rows i = settled 0 (depth_walk rows (rounds rows) [] 0 (some i))

abbrev pub depth_found : Option (ℕ × List ℕ) → ℕ
depth_found none = 0
depth_found (some (depth, seen)) = depth

unfoldable pub subtree_depth : List TreeRow → Option ℕ → ℕ
unfolding subtree_walk children walk_children
subtree_depth rows none = 1
subtree_depth rows (some i) = depth_found (subtree_walk rows (rounds rows) i [])

abbrev is_self : Option ℕ → ℕ → Bool
is_self none parent = false
is_self (some i) parent = parent == i

abbrev is_below_self : List TreeRow → Option ℕ → ℕ → Bool
is_below_self rows none parent = false
is_below_self rows (some i) parent = is_descendant rows parent i

-- why `parent` may not be the parent of `id` (`none` for a new row), or `none` when it may
unfoldable pub check_parent : List TreeRow → Option ℕ → Option ℕ → Option TreeGuardError
unfolding is_descendant depth_of subtree_depth
check_parent rows id none =
    if ltb org_max_depth (subtree_depth rows id) then some too_deep else none
check_parent rows id (some parent) =
    if is_self id parent
    then some self_parent
    else if not (any (has_row_id parent) rows)
    then some parent_not_found
    else if is_below_self rows id parent
    then some cycle
    else if ltb org_max_depth (depth_of rows parent + subtree_depth rows id)
    then some too_deep
    else none
