-- ===== src/OrgChart/Visits.antt =====
-- What a walk down has seen when it returns, and how deep it was.
use safeer_api.Common.{
  ℕ, ◌+◌, ◌≤◌, max, ◌≡◌, ◌∙◌, ap, subst, sym, ◌⊎◌, inl, inr, Option, none, some, List, [], ◌∷◌,
  Bool, true, false, arith, ◌==◌, find, any, if◌then◌else◌, Bool-cases, Option-cases, All,
  All-weaken,
}
use safeer_api.OrgChart.Guard.{TreeRow, has_row_id, contains, children, Walk, walk_children}
use safeer_api.OrgChart.Levels.{level_of, Placed}

module _ (rows : List TreeRow) (level : ℕ → ℕ) where
  abbrev pub Sub : List ℕ → List ℕ → Type 0
  Sub seen seen' = (x : ℕ) → contains seen x ≡ true → contains seen' x ≡ true

  -- all the children have been seen
  abbrev pub Closed : List ℕ → ℕ → Type 0
  Closed seen x = All (λ c. contains seen c ≡ true) (children rows x)

  -- what a walk adds to the seen positions: they stand within the bound, and bring their children
  abbrev pub New : List ℕ → List ℕ → ℕ → Type 0
  New seen seen' bound =
      (x : ℕ)
      → contains seen' x ≡ true
      → (contains seen x ≡ true) ⊎ ((level x + 1 ≤ bound) × Closed seen' x)

  -- the result of a walk from a position at the level `l`
  abbrev pub Visited : List ℕ → ℕ → List ℕ → ℕ → Type 0
  Visited seen d seen' l = Sub seen seen' × New seen seen' (l + d)

  Closed-Sub : (seen seen' : List ℕ) (x : ℕ) → Sub seen seen' → Closed seen x → Closed seen' x
  Closed-Sub seen seen' x s c =
      All-weaken (λ c. contains seen c ≡ true) (λ c. contains seen' c ≡ true) s (children rows x) c

  -- one walk after another
  Visited-trans :
      (seen seen1 seen2 : List ℕ) (d1 d2 l : ℕ)
      → d1 ≤ d2
      → Visited seen d1 seen1 l
      → Visited seen1 d2 seen2 l
      → Visited seen d2 seen2 l
  Visited-trans seen seen1 seen2 d1 d2 l h (s, n) (s', n') = (λ x k. s' x (s x k), both)
    where
      both : New seen seen2 (l + d2)
      both x k = elim (n' x k) [
        | inr fresh ↦ inr fresh
        | inl old ↦ elim (n x old) [
          | inl older ↦ inl older
          | inr (low, closed) ↦ inr (omega arith, Closed-Sub seen1 seen2 x s' closed)
        ]
      ]

  -- What is asked of a walk from `c`: it also sees `c`.
  abbrev pub Walks : Walk → ℕ → List ℕ → Type 0
  Walks walk c seen =
      (d : ℕ) (seen' : List ℕ)
      → walk c seen ≡ some (d, seen')
      → Visited seen d seen' (level c) × (contains seen' c ≡ true)

  pub walk_children_visits :
      (walk : Walk) (l : ℕ)
      → ((c : ℕ) (seen : List ℕ) → level c ≡ l → Walks walk c seen)
      → (cs : List ℕ) (deepest : ℕ) (seen : List ℕ) (d : ℕ) (seen' : List ℕ)
      → All (λ c. level c ≡ l) cs
      → walk_children walk cs deepest seen ≡ some (d, seen')
      → (deepest ≤ d) × Visited seen d seen' l × All (λ c. contains seen' c ≡ true) cs
  unfolding walk_children
  walk_children_visits walk l each [] deepest seen d seen' ls h =
      let same : seen ≡ seen' = cc in
      (
        ground (arith, h),
        (
          λ x k. subst (λ s. contains s x ≡ true) same k,
          λ x k. inl (subst (λ s. contains s x ≡ true) (sym same) k),
        ),
        tt,
      )
  walk_children_visits walk l each (c ∷ cs) deepest seen d seen' ls h =
      elim (Option-cases (walk c seen)) [
        | inl out ↦ absurd (ground (arith, out, h))
        | inr ((d1, seen1), first) ↦
            let ((s, n), here) = each c seen ls.0 d1 seen1 first in
            let rest : walk_children walk cs (max deepest d1) seen1 ≡ some (d, seen') =
              ground (arith, first, h) in
            let (deep, visited, others) =
              walk_children_visits walk l each cs (max deepest d1) seen1 d seen' ls.1 rest in
            (
              omega arith,
              Visited-trans seen seen1 seen' d1 d l (omega arith)
                  (s, subst (λ k. New seen seen1 (k + d1)) ls.0 n) visited,
              (visited.0 c here, others),
            )
      ]

  pub children_level :
      (a : ℕ) (some_rows : List TreeRow)
      → All (Placed rows level) some_rows
      → All (λ c. level c ≡ level a + 1) (children some_rows a)
  unfolding children
  children_level a [] p = tt
  children_level a (r ∷ rs) p = kept r.parent_id p.0.3 (children_level a rs p.1)
    where
      kept :
          (o : Option ℕ)
          → level r.id ≡ level_of level o + 1
          → All (λ c. level c ≡ level a + 1) (children rs a)
          → All
              (λ c. level c ≡ level a + 1)
              (elim o [
                | none ↦ children rs a
                | some q ↦ if q == a then r.id ∷ children rs a else children rs a
              ])
      kept none e k = k
      kept (some q) e k = elim (Bool-cases (q == a)) [
        | inl same ↦
            let q_is : q ≡ a = ground (arith, same) in rw same (e ∙ ap (λ i. level i + 1) q_is, k)
        | inr other ↦ rw other k
      ]

  -- a position that had not been seen, and the walks from its children
  pub entered :
      (a : ℕ) (seen : List ℕ) (d0 d : ℕ) (seen' : List ℕ)
      → d ≡ 1 + d0
      → Visited (a ∷ seen) d0 seen' (level a + 1)
      → Closed seen' a
      → Visited seen d seen' (level a) × (contains seen' a ≡ true)
  unfolding any
  entered a seen d0 d seen' deeper (s, n) all =
      ((λ x k. s x (ground (arith, k)), both), s a (ground arith))
    where
      both : New seen seen' (level a + d)
      both x k = elim (n x k) [
        | inr (low, closed) ↦ inr (omega arith, closed)
        | inl old ↦ elim (Bool-cases (a == x)) [
          | inr other ↦ inl (ground (arith, other, old))
          | inl me ↦
              let same : a ≡ x = ground (arith, me) in
              inr
                (subst (λ y. (level y + 1 ≤ level a + d) × Closed seen' y) same (omega arith, all))
        ]
      ]

  module _ (seen : List ℕ) (y : ℕ) where
    abbrev listed : Option ℕ → ℕ → List ℕ → List ℕ
    listed o i rest = elim o [ none ↦ rest | some p ↦ if p == y then i ∷ rest else rest ]

    listed_head :
        (o : Option ℕ) (i : ℕ) (rest : List ℕ)
        → o ≡ some y
        → All (λ c. contains seen c ≡ true) (listed o i rest)
        → contains seen i ≡ true
    listed_head none i rest e k = cc
    listed_head (some p) i rest e k =
        let same : (p == y) ≡ true = ground (arith, e) in
        (subst (λ b. All (λ c. contains seen c ≡ true) (if b then i ∷ rest else rest)) same k).0

    listed_tail :
        (o : Option ℕ) (i : ℕ) (rest : List ℕ)
        → All (λ c. contains seen c ≡ true) (listed o i rest)
        → All (λ c. contains seen c ≡ true) rest
    listed_tail none i rest k = k
    listed_tail (some p) i rest k = either (p == y) k
      where
        either :
            (b : Bool)
            → All (λ c. contains seen c ≡ true) (if b then i ∷ rest else rest)
            → All (λ c. contains seen c ≡ true) rest
        either true k' = k'.1
        either false k' = k'

    -- a row is listed below its parent
    pub child_listed :
        (x : ℕ) (some_rows : List TreeRow) (r : TreeRow)
        → find (has_row_id x) some_rows ≡ some r
        → r.parent_id ≡ some y
        → All (λ c. contains seen c ≡ true) (children some_rows y)
        → contains seen r.id ≡ true
    unfolding find children
    child_listed x [] r f e k = absurd (ground (arith, f))
    child_listed x (q ∷ qs) r f e k = elim (Bool-cases (q.id == x)) [
      | inl mine ↦
          let same : q ≡ r = ground (arith, mine, f) in
          subst (λ i. contains seen i ≡ true) (ap (λ (t : TreeRow). t.id) same)
            (listed_head q.parent_id q.id (children qs y)
              (ap (λ (t : TreeRow). t.parent_id) same ∙ e) k)
      | inr other ↦
          child_listed x qs r (ground (arith, other, f)) e
            (listed_tail q.parent_id q.id (children qs y) k)
    ]
