-- ===== src/OrgChart/Levels.antt =====
-- A chart whose positions have levels, and what the walks up find on it.
use safeer_api.Common.{
  ℕ, zero, suc, ◌+◌, ◌≤◌, ◌<◌, ◌≡◌, ◌∙◌, refl, subst, inl, inr, Option, none, some, List, [], ◌∷◌,
  Bool, true, false, arith, ◌==◌, find, any, ◌||◌, Bool-cases, All, All-find, All-weaken,
  Option-cases, find_sound, find_of_any,
}
use safeer_api.OrgChart.Guard.{
  TreeRow, has_row_id, contains, parent_of, ancestor_walk, depth_walk, rounds, is_descendant,
  depth_of, org_max_depth,
}
use safeer_api.OrgChart.Walks.{walks_total}

abbrev pub IsRow : List TreeRow → ℕ → Type 0
IsRow rows i = any (has_row_id i) rows ≡ true

abbrev pub level_of : (ℕ → ℕ) → Option ℕ → ℕ
level_of level none = 0
level_of level (some p) = level p

abbrev pub IsRowOrTop : List TreeRow → Option ℕ → Type 0
IsRowOrTop rows none = Unit
IsRowOrTop rows (some p) = IsRow rows p

-- the row that its id finds, at most five levels deep, one below its parent, which is there
abbrev pub Placed : List TreeRow → (ℕ → ℕ) → TreeRow → Type 0
Placed rows level r =
    (find (has_row_id r.id) rows ≡ some r)
    × (level r.id ≤ org_max_depth)
    × IsRowOrTop rows r.parent_id
    × (level r.id ≡ level_of level r.parent_id + 1)

-- `x` is `a` or stands below it; the climb takes at most `k` steps
unfoldable pub is_within : List TreeRow → ℕ → ℕ → Option ℕ → Bool
is_within rows a k none = false
is_within rows a zero (some x) = false
is_within rows a (suc k) (some x) = x == a || is_within rows a k (parent_of rows x)

module _ (rows : List TreeRow) (level : ℕ → ℕ) (placed : All (Placed rows level) rows) where
  pub row-Placed :
      (x : ℕ)
      → IsRow rows x
      → (r : TreeRow) × (find (has_row_id x) rows ≡ some r) × (r.id ≡ x) × Placed rows level r
  row-Placed x h =
      let (r, found) = find_of_any (has_row_id x) rows h in
      (
        r,
        found,
        ground (arith, find_sound (has_row_id x) rows r found),
        All-find (Placed rows level) (has_row_id x) rows r found placed,
      )

  pub parent_level :
      (x : ℕ)
      → IsRow rows x
      → IsRowOrTop rows (parent_of rows x)
        × (level x ≡ level_of level (parent_of rows x) + 1)
        × (level x ≤ org_max_depth)
  parent_level x h =
      let (r, found, same, (_, low, above_ok, step)) = row-Placed x h in
      rw found (
        above_ok,
        subst (λ i. level i ≡ level_of level r.parent_id + 1) same step,
        subst (λ i. level i ≤ org_max_depth) same low,
      )

  -- what a walk has seen stands lower than where it is
  not_seen :
      (x k : ℕ) (seen : List ℕ)
      → level x ≤ k
      → All (λ s. k < level s) seen
      → contains seen x ≡ false
  unfolding any
  not_seen x k [] h a = refl
  not_seen x k (s ∷ seen) h a = elim (Bool-cases (s == x)) [
    | inl e ↦
        let same : s ≡ x = ground (arith, e) in
        absurd (let k_lt : k < level x = subst (λ i. k < level i) same a.0 in omega arith)
    | inr e ↦ ground (arith, e, not_seen x k seen h a.1)
  ]

  lower :
      (x : ℕ) (at : Option ℕ) (seen : List ℕ)
      → level x ≡ level_of level at + 1
      → All (λ s. level x < level s) seen
      → All (λ s. level_of level at < level s) (x ∷ seen)
  lower x at seen e a = (
    omega arith,
    All-weaken (λ s. level x < level s) (λ s. level_of level at < level s) (λ s h. omega arith) seen
        a,
  )

  depth_walk_level :
      (fuel : ℕ) (seen : List ℕ) (depth : ℕ) (at : Option ℕ) (v : ℕ)
      → depth_walk rows fuel seen depth at ≡ some v
      → IsRowOrTop rows at
      → All (λ s. level_of level at < level s) seen
      → v ≡ depth + level_of level at
  unfolding depth_walk
  depth_walk_level fuel seen depth none v h r a = ground (arith, h)
  depth_walk_level zero seen depth (some x) v h r a = cc
  depth_walk_level (suc fuel) seen depth (some x) v h r a =
      let (there, step, _) = parent_level x r in
      let new : contains seen x ≡ false = not_seen x (level x) seen (omega arith) a in
      let onward : depth_walk rows fuel (x ∷ seen) (depth + 1) (parent_of rows x) ≡ some v =
        ground (arith, new, h) in
      omega (
        arith,
        depth_walk_level fuel (x ∷ seen) (depth + 1) (parent_of rows x) v onward there
            (lower x (parent_of rows x) seen step a),
      )

  pub is_within-step :
      (a x : ℕ)
      → IsRow rows x
      → is_within rows a (level x) (some x)
        ≡ ((x == a) || is_within rows a (level_of level (parent_of rows x)) (parent_of rows x))
  unfolding is_within
  is_within-step a x r =
      let (_, step, _) = parent_level x r in
      let next : level x ≡ suc (level_of level (parent_of rows x)) = omega arith in rw next refl

  ancestor_walk_within :
      (fuel a : ℕ) (seen : List ℕ) (at : Option ℕ) (b : Bool)
      → ancestor_walk rows fuel a seen at ≡ some b
      → IsRowOrTop rows at
      → All (λ s. level_of level at < level s) seen
      → b ≡ is_within rows a (level_of level at) at
  unfolding ancestor_walk
  ancestor_walk_within fuel a seen none b h r k = unfold is_within in ground (arith, h)
  ancestor_walk_within zero a seen (some x) b h r k = cc
  ancestor_walk_within (suc fuel) a seen (some x) b h r k =
      let (there, step, _) = parent_level x r in
      let new : contains seen x ≡ false = not_seen x (level x) seen (omega arith) k in
      elim (Bool-cases (x == a)) [
        | inl e ↦ ground (arith, e, new, h, is_within-step a x r)
        | inr e ↦ ground (
          arith,
          e,
          new,
          h,
          is_within-step a x r,
          ancestor_walk_within fuel a (x ∷ seen) (parent_of rows x) b (ground (arith, e, new, h))
              there (lower x (parent_of rows x) seen step k),
        )
      ]

  pub depth_of-level : (x : ℕ) → IsRow rows x → depth_of rows x ≡ level x
  unfolding depth_of
  depth_of-level x r = elim (Option-cases (depth_walk rows (rounds rows) [] 0 (some x))) [
    | inl out ↦ absurd ((walks_total rows x x).1 out)
    | inr (v, h) ↦ rw h (depth_walk_level (rounds rows) [] 0 (some x) v h r tt ∙ omega arith)
  ]

  pub is_descendant-within :
      (x a : ℕ)
      → IsRow rows x
      → is_descendant rows x a
        ≡ is_within rows a (level_of level (parent_of rows x)) (parent_of rows x)
  unfolding is_descendant
  is_descendant-within x a r =
      elim (Option-cases (ancestor_walk rows (rounds rows) a [] (parent_of rows x))) [
        | inl out ↦ absurd ((walks_total rows x a).0 out)
        | inr (b, h) ↦
            rw h (
              ancestor_walk_within (rounds rows) a [] (parent_of rows x) b h (parent_level x r).0
                tt)
      ]

  pub is_within-level :
      (a k x : ℕ) → IsRow rows x → is_within rows a k (some x) ≡ true → level a ≤ level x
  unfolding is_within
  is_within-level a zero x r h = absurd (ground (arith, h))
  is_within-level a (suc k) x r h = elim (Bool-cases (x == a)) [
    | inl e ↦ let same : x ≡ a = ground (arith, e) in rw same (omega arith)
    | inr e ↦
        up (parent_of rows x) (parent_level x r) (λ y. is_within-level a k y) (ground (arith, e, h))
  ]
    where
      up :
          (at : Option ℕ)
          → IsRowOrTop rows at × (level x ≡ level_of level at + 1) × (level x ≤ org_max_depth)
          → ((y : ℕ) → IsRow rows y → is_within rows a k (some y) ≡ true → level a ≤ level y)
          → is_within rows a k at ≡ true
          → level a ≤ level x
      up none (t, step, _) rest w = absurd (ground (arith, w))
      up (some y) (t, step, _) rest w = omega (arith, rest y t w)
