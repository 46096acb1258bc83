-- ===== src/OrgChart/Walks.antt =====
-- The walks of the guard end on every table, one with cycles and missing parents included.
use safeer_api.Common.{
  ℕ, zero, suc, ◌+◌, ◌≤◌, ◌<◌, max, ◌≡◌, ap, ◌≢◌, inl, inr, Option, none, some, List, [], ◌∷◌, true,
  false, not, arith, ◌==◌, length, any, count_where, if◌then◌else◌, Bool-cases, find-none,
  none_of_any, All,
}
use safeer_api.OrgChart.Guard.{
  TreeRow, has_row_id, contains, parent_of, ancestor_walk, depth_walk, children, Walk,
  walk_children, one_deeper, subtree_walk, rounds,
}

-- the rows that a walk has not seen: they are what its rounds use up
abbrev unseen : List ℕ → List TreeRow → ℕ
unseen seen rows = count_where (λ r. not (contains seen r.id)) rows

unseen-cons :
    (c : ℕ) (seen : List ℕ) (rows : List TreeRow) → unseen (c ∷ seen) rows ≤ unseen seen rows
unfolding count_where any
unseen-cons c seen [] = omega arith
unseen-cons c seen (r ∷ rows) = ground (arith, unseen-cons c seen rows)

unseen-cons_new :
    (c : ℕ) (seen : List ℕ) (rows : List TreeRow)
    → any (has_row_id c) rows ≡ true
    → contains seen c ≡ false
    → unseen (c ∷ seen) rows < unseen seen rows
unfolding count_where any
unseen-cons_new c seen [] h k = absurd (ground (arith, h))
unseen-cons_new c seen (r ∷ rows) h k = elim (Bool-cases (r.id == c)) [
  | inl e ↦
      let same : r.id ≡ c = ground (arith, e) in
      ground (arith, e, k, same, ap (contains seen) same, unseen-cons c seen rows)
  | inr e ↦ ground (arith, h, k, e, unseen-cons_new c seen rows)
]

unseen-le-length : (seen : List ℕ) (rows : List TreeRow) → unseen seen rows ≤ length rows
unfolding count_where
unseen-le-length seen [] = omega arith
unseen-le-length seen (r ∷ rows) = ground (arith, unseen-le-length seen rows)

module _ (rows : List TreeRow) where
  parent_of_missing : (c : ℕ) → any (has_row_id c) rows ≡ false → parent_of rows c ≡ none
  parent_of_missing c h = rw (find-none (has_row_id c) rows (none_of_any (has_row_id c) rows h))

  -- one round of either walk up: the next position has fuel enough, or there is none
  ancestor_walk_total :
      (fuel a : ℕ) (seen : List ℕ) (at : Option ℕ)
      → suc (unseen seen rows) < fuel
      → ancestor_walk rows fuel a seen at ≢ none
  unfolding ancestor_walk
  ancestor_walk_total fuel a seen none h = ground arith
  ancestor_walk_total zero a seen (some c) h = elim h [ ]
  ancestor_walk_total (suc fuel) a seen (some c) h = elim (Bool-cases (contains seen c)) [
    | inl e ↦ ground (arith, e)
    | inr e ↦ elim (Bool-cases (any (has_row_id c) rows)) [
      | inl found ↦ ground (
        arith,
        e,
        unseen-cons_new c seen rows found e,
        ancestor_walk_total fuel a (c ∷ seen) (parent_of rows c),
      )
      | inr missing ↦ rw (parent_of_missing c missing) (ground (arith, e))
    ]
  ]

  depth_walk_total :
      (fuel : ℕ) (seen : List ℕ) (depth : ℕ) (at : Option ℕ)
      → suc (unseen seen rows) < fuel
      → depth_walk rows fuel seen depth at ≢ none
  unfolding depth_walk
  depth_walk_total fuel seen depth none h = ground arith
  depth_walk_total zero seen depth (some c) h = elim h [ ]
  depth_walk_total (suc fuel) seen depth (some c) h = elim (Bool-cases (contains seen c)) [
    | inl e ↦ ground (arith, e)
    | inr e ↦ elim (Bool-cases (any (has_row_id c) rows)) [
      | inl found ↦ ground (
        arith,
        e,
        unseen-cons_new c seen rows found e,
        depth_walk_total fuel (c ∷ seen) (depth + 1) (parent_of rows c),
      )
      | inr missing ↦ rw (parent_of_missing c missing) (ground (arith, e))
    ]
  ]

-- a walk down that ended, and saw no fewer rows than before it
abbrev Ends : List TreeRow → List ℕ → Option (ℕ × List ℕ) → Type 0
Ends rows seen none = ⊥
Ends rows seen (some (depth, seen')) = unseen seen' rows ≤ unseen seen rows

abbrev IsRow : List TreeRow → ℕ → Type 0
IsRow rows c = any (has_row_id c) rows ≡ true

Ends-weaken :
    (rows : List TreeRow) (seen seen' : List ℕ) (o : Option (ℕ × List ℕ))
    → unseen seen' rows ≤ unseen seen rows
    → Ends rows seen' o
    → Ends rows seen o
Ends-weaken rows seen seen' none h e = e
Ends-weaken rows seen seen' (some (d, s)) h e = omega arith

Ends-one_deeper :
    (rows : List TreeRow) (seen : List ℕ) (o : Option (ℕ × List ℕ))
    → Ends rows seen o
    → Ends rows seen (one_deeper o)
Ends-one_deeper rows seen none e = e
Ends-one_deeper rows seen (some (d, s)) e = e

Ends-ne-none :
    (rows : List TreeRow) (seen : List ℕ) (o : Option (ℕ × List ℕ)) → Ends rows seen o → o ≢ none
Ends-ne-none rows seen none e = absurd e
Ends-ne-none rows seen (some (d, s)) e = cc

children-IsRow :
    (rows : List TreeRow) (i : ℕ) (all : List TreeRow)
    → ((c : ℕ) → IsRow rows c → IsRow all c)
    → All (IsRow all) (children rows i)
unfolding children any
children-IsRow [] i all h = tt
children-IsRow (r ∷ rows) i all h =
    kept r.parent_id (children-IsRow rows i all (λ c e. h c (ground (arith, e))))
  where
    kept :
        (o : Option ℕ)
        → All (IsRow all) (children rows i)
        → All (IsRow all) (elim o [
          | none ↦ children rows i
          | some p ↦ if p == i then r.id ∷ children rows i else children rows i
        ])
    kept none k = k
    kept (some p) k = elim (Bool-cases (p == i)) [
      | inl e ↦ rw e (h r.id (ground arith), k)
      | inr e ↦ rw e k
    ]

module _ (rows : List TreeRow) where
  walk_children-Ends :
      (walk : Walk) (bound : ℕ)
      → ((c : ℕ) (seen : List ℕ)
          → IsRow rows c
          → unseen seen rows < bound
          → Ends rows seen (walk c seen))
      → (cs : List ℕ) (deepest : ℕ) (seen : List ℕ) → All (IsRow rows) cs
      → unseen seen rows < bound
      → Ends rows seen (walk_children walk cs deepest seen)
  unfolding walk_children
  walk_children-Ends walk bound each [] deepest seen rs h = omega arith
  walk_children-Ends walk bound each (c ∷ cs) deepest seen rs h =
      next (walk c seen) (each c seen rs.0 h)
        (λ d s. walk_children-Ends walk bound each cs d s rs.1)
    where
      next :
          (o : Option (ℕ × List ℕ))
          → Ends rows seen o
          → ((d : ℕ) (s : List ℕ) → unseen s rows < bound → Ends rows s (walk_children walk cs d s))
          → Ends rows seen (elim o [
            | none ↦ none
            | some (depth, seen') ↦ walk_children walk cs (max deepest depth) seen'
          ])
      next none e rest = e
      next (some (depth, seen')) e rest =
          Ends-weaken rows seen seen' _ e (rest (max deepest depth) seen' (omega arith))

  subtree_walk-Ends :
      (fuel node : ℕ) (seen : List ℕ)
      → IsRow rows node
      → unseen seen rows < fuel
      → Ends rows seen (subtree_walk rows fuel node seen)
  unfolding subtree_walk
  subtree_walk-Ends zero node seen r h = elim h [ ]
  subtree_walk-Ends (suc fuel) node seen r h = elim (Bool-cases (contains seen node)) [
    | inl e ↦ rw e (omega arith)
    | inr e ↦
        let fewer : unseen (node ∷ seen) rows < unseen seen rows =
          unseen-cons_new node seen rows r e in
        rw e (
          Ends-one_deeper rows seen _ (
            Ends-weaken rows seen (node ∷ seen) _ (omega arith) (
              walk_children-Ends (subtree_walk rows fuel) fuel (λ c s. subtree_walk-Ends fuel c s)
                (children rows node) 0 (node ∷ seen) (children-IsRow rows node rows (λ c k. k))
                (omega arith))))
  ]

  -- the start of the walk may be an id that has no row
  subtree_walk_total : (i : ℕ) → subtree_walk rows (rounds rows) i [] ≢ none
  unfolding subtree_walk any
  subtree_walk_total i = Ends-ne-none rows (i ∷ []) _ (
      Ends-one_deeper rows (i ∷ []) _ (
        walk_children-Ends (subtree_walk rows (suc (length rows))) (suc (length rows))
          (λ c s. subtree_walk-Ends (suc (length rows)) c s) (children rows i) 0 (i ∷ [])
          (children-IsRow rows i rows (λ c k. k))
          (let few : unseen (i ∷ []) rows ≤ length rows = unseen-le-length (i ∷ []) rows in
            omega arith)))

-- On any table, cycles and missing parents included, each of the three walks of the guard ends within
-- two rounds more than the table has rows: whether `a` is above a position, the depth of a position,
-- and the depth of the subtree below one.
pub walks_total :
    (rows : List TreeRow) (i a : ℕ)
    → (ancestor_walk rows (rounds rows) a [] (parent_of rows i) ≢ none)
      × (depth_walk rows (rounds rows) [] 0 (some i) ≢ none)
      × (subtree_walk rows (rounds rows) i [] ≢ none)
walks_total rows i a =
    let few : unseen [] rows ≤ length rows = unseen-le-length [] rows in
    (
      ancestor_walk_total rows (rounds rows) a [] (parent_of rows i) (omega arith),
      depth_walk_total rows (rounds rows) [] 0 (some i) (omega arith),
      subtree_walk_total rows i,
    )
